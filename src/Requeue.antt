-- ===== src/Requeue.antt =====
-- server/operations.go: finding tasks that are active for too long without a lease, and putting them
-- back into the queue; and server/automation.go: the worker that does so when a lease expires. A
-- threshold is not longer than the clock's value.
pub mod Stuck
pub mod Expired
mod Examples
use cocopilot.Prelude.{
  ℕ, ◌+◌, ◌-◌, String, Bool, true, false, not, ◌&&◌, Option, none, some, List, [], ◌∷◌, any, keep,
  str_eq, ◌==◌, if◌then◌else◌,
}
use cocopilot.Models.{TaskStatus, TaskStatusV2, is_active}
use cocopilot.Timestamps.{stamp_ltb}
use cocopilot.Dbstore.{
  Db, TaskRow, Event, EventHook, text, num, decimal, create_event, parse_event_task_id,
  task_id_from_payload,
}
use cocopilot.Dbstore.Leases.{expired}
use cocopilot.Dbstore.Tasks.{TaskV2, get_task_v2, update_task}
use cocopilot.Dbstore.Tasks
use cocopilot.Finish.{affects}

-- `status_v2 IN (CLAIMED, RUNNING)`, false for a missing status
abbrev pub row_is_active : TaskRow → Bool
row_is_active t = elim t.status_v2 [ none ↦ false | some s ↦ is_active s ]

abbrev pub last_change : TaskRow → ℕ
last_change t = elim t.updated_at [ none ↦ t.created_at | some at ↦ at ]

-- The WHERE clause of DetectStuckTasks.
unfoldable pub is_stuck : Db → ℕ → ℕ → TaskRow → Bool
is_stuck db threshold now t =
    row_is_active t
    && stamp_ltb (last_change t) (now - threshold)
    && not (any (λ l. l.task_id == t.id && not (expired now l)) db.leases)

-- DetectStuckTasks
unfoldable pub detect_stuck_tasks : Db → ℕ → ℕ → List TaskRow
unfolding is_stuck
detect_stuck_tasks db threshold now = keep (is_stuck db threshold now) db.tasks

abbrev pub queued_row : ℕ → TaskRow → TaskRow
queued_row now t = record t {
  status = TaskStatus.not_picked;
  status_v2 = some TaskStatusV2.queued;
  updated_at = some now;
}

-- The body of the loop: the database, and whether a row was put back. The payload's reason, a sentence
-- with the status and the time, is left out.
unfoldable pub requeue_one : EventHook → Db → TaskRow → ℕ → Db × Bool
unfolding update_task affects
requeue_one hook db st now =
    let db' = update_task st.id row_is_active (queued_row now) db in
    if affects st.id row_is_active db
    then (
      create_event hook db' st.project_id "task.stalled" "task" (decimal st.id)
          (("task_id", num st.id) ∷ ("action", text "requeued") ∷ []) now,
      true,
    )
    else (db', false)

unfoldable pub requeue_all : EventHook → Db → List TaskRow → ℕ → ℕ → Db × ℕ
unfolding requeue_one
requeue_all hook db [] now requeued = (db, requeued)
requeue_all hook db (st ∷ sts) now requeued =
    let (db', done) = requeue_one hook db st now in
    requeue_all hook db' sts now (if done then requeued + 1 else requeued)

-- RequeueStuckTasks
unfoldable pub requeue_stuck_tasks : EventHook → Db → ℕ → ℕ → Db × ℕ
unfolding detect_stuck_tasks requeue_all
requeue_stuck_tasks hook db threshold now =
    requeue_all hook db (detect_stuck_tasks db threshold now) now 0

abbrev pub task_id_of : Event → Option ℕ
task_id_of e = elim (parse_event_task_id e.entity_id) [
  | none ↦ task_id_from_payload e.payload
  | some id ↦ some id
]

abbrev pub requeue_task : EventHook → Db → ℕ → ℕ → Option TaskV2 → Db
requeue_task hook db task_id now none = db
requeue_task hook db task_id now (some task) =
    if is_active task.status_v2
    then create_event hook (update_task task_id row_is_active (queued_row now) db) task.project_id
        "task.requeued" "task" (decimal task_id)
        (("task_id", num task_id) ∷ ("trigger", text "lease.expired") ∷ []) now
    else db

abbrev pub requeue_for : EventHook → Db → ℕ → Option ℕ → Db
requeue_for hook db now none = db
requeue_for hook db now (some task_id) = requeue_task hook db task_id now (get_task_v2 db task_id)

-- processLeaseExpiredEvent
unfoldable pub process_lease_expired_event : EventHook → Db → Event → ℕ → Db
unfolding update_task
process_lease_expired_event hook db e now = requeue_for hook db now (task_id_of e)
