-- ===== src/Finish.antt =====
-- server/assignment.go and server/finalization.go: CompleteTask, FailTask and CancelTask. The
-- broadcast to the browsers is left out.
pub mod Keeps
pub mod Steps
pub mod Settled
pub mod Refused
mod Examples
use cocopilot.Prelude.{
  ℕ, String, Bool, true, false, not, ◌&&◌, Option, none, some, List, [], ◌∷◌, ◌++◌, any, ◌==◌,
  if◌then◌else◌,
}
use cocopilot.Prelude.Dict.{Dict}
use cocopilot.Models.{TaskStatus, TaskStatusV2, RunStatus, run_is_terminal}
use cocopilot.Dbstore.{
  Db, TaskRow, Lease, Run, Value, num, text, v1, v2, decimal, EventHook, Result, ok, err,
  terminal_state, task_not_found, create_event,
}
use cocopilot.Dbstore.Leases.{get_lease_by_task_id, release_lease}
use cocopilot.Dbstore.Tasks.{TaskV2, get_task_v2, update_task}
use cocopilot.Dbstore.Runs.{get_latest_run, update_run_status}

abbrev pub is_complete : TaskStatus → Bool
is_complete TaskStatus.complete = true
is_complete _ = false

abbrev pub is_failed : TaskStatus → Bool
is_failed TaskStatus.failed = true
is_failed _ = false

-- `status != COMPLETE`
abbrev pub not_complete : TaskRow → Bool
not_complete t = not (is_complete t.status)

-- `status != COMPLETE AND status != FAILED`
abbrev pub not_settled : TaskRow → Bool
not_settled t = not (is_complete t.status) && not (is_failed t.status)

abbrev pub completed_row : Option String → ℕ → TaskRow → TaskRow
completed_row output now t = record t {
  output = output;
  status = TaskStatus.complete;
  status_v2 = some TaskStatusV2.succeeded;
  updated_at = some now;
}

abbrev pub failed_row : ℕ → TaskRow → TaskRow
failed_row now t = record t {
  status = TaskStatus.failed;
  status_v2 = some TaskStatusV2.failed;
  updated_at = some now;
}

abbrev pub cancelled_row : ℕ → TaskRow → TaskRow
cancelled_row now t = record t {
  status = TaskStatus.complete;
  status_v2 = some TaskStatusV2.cancelled;
  updated_at = some now;
}

-- Whether the UPDATE affects a row.
unfoldable pub affects : ℕ → (TaskRow → Bool) → Db → Bool
affects task_id guard db = any (λ t. t.id == task_id && guard t) db.tasks

-- The latest run, if there is one that the caller wants to finish, gets the status.
abbrev pub finish_found :
    EventHook → (Run → Bool) → Db → RunStatus → Option String → ℕ → Option Run → Db
finish_found hook wanted db status error now none = db
finish_found hook wanted db status error now (some r) =
    if wanted r then update_run_status hook db r.id status error now else db

unfoldable pub finish_latest :
    EventHook → (Run → Bool) → Db → ℕ → RunStatus → Option String → ℕ → Db
finish_latest hook wanted db task_id status error now =
    finish_found hook wanted db status error now (get_latest_run db task_id)

-- The lease of the task, if there is an active one, is released.
abbrev pub release_found : EventHook → Db → String → ℕ → Option Lease → Db
release_found hook db reason now none = db
release_found hook db reason now (some l) = (release_lease hook db l.id reason now).0

unfoldable pub release_current : EventHook → Db → ℕ → String → ℕ → Db
release_current hook db task_id reason now =
    release_found hook db reason now (get_lease_by_task_id db task_id now)

-- The event of the task, and the task as it was read before it.
abbrev pub announce :
    EventHook → Db → ℕ → String → Dict Value → ℕ → Option TaskV2 → Db × Result TaskV2
announce hook db task_id kind payload now none = (db, err task_not_found)
announce hook db task_id kind payload now (some task) =
    (create_event hook db task.project_id kind "task" (decimal task_id) payload now, ok task)

abbrev pub any_run : Run → Bool
any_run r = true

abbrev pub active_run : Run → Bool
active_run r = not (run_is_terminal r.status)

abbrev output_payload : Option String → Dict Value
output_payload none = []
output_payload (some s) = ("output", text s) ∷ []

-- What follows the UPDATE of the task: the run, the lease, and the event.
unfoldable pub settle :
    EventHook
    → (Run → Bool)
    → Db
    → ℕ
    → RunStatus
    → Option String
    → String
    → String
    → Dict Value
    → ℕ
    → Db × Result TaskV2
unfolding finish_latest release_current
settle hook wanted db task_id status error reason kind payload now =
    let db' =
      release_current hook (finish_latest hook wanted db task_id status error now) task_id reason
        now in
    announce hook db' task_id kind payload now (get_task_v2 db' task_id)

-- CompleteTask
unfoldable pub complete_task : EventHook → Db → ℕ → Option String → ℕ → Db × Result TaskV2
unfolding settle affects
complete_task hook db task_id output now =
    let db' = update_task task_id not_complete (completed_row output now) db in
    let settled =
      settle hook any_run db' task_id RunStatus.succeeded none "task_completed" "task.completed"
        (("task_id", num task_id)
          ∷ ("status_v1", v1 TaskStatus.complete)
          ∷ ("status_v2", v2 TaskStatusV2.succeeded)
          ∷ output_payload output)
        now in
    if affects task_id not_complete db then settled else (db, err terminal_state)

-- FailTask: whether the UPDATE affected a row is not looked at.
unfoldable pub fail_task : EventHook → Db → ℕ → String → ℕ → Db × Result TaskV2
unfolding settle
fail_task hook db task_id message now =
    settle hook any_run (update_task task_id not_settled (failed_row now) db) task_id
      RunStatus.failed (some message) "task_failed" "task.failed"
      (("task_id", num task_id)
        ∷ ("status_v1", v1 TaskStatus.failed)
        ∷ ("status_v2", v2 TaskStatusV2.failed)
        ∷ ("error", text message)
        ∷ [])
      now

-- CancelTask: only a run that is still active is cancelled.
unfoldable pub cancel_task : EventHook → Db → ℕ → String → ℕ → Db × Result TaskV2
unfolding settle
cancel_task hook db task_id reason now =
    settle hook active_run (update_task task_id not_complete (cancelled_row now) db) task_id
      RunStatus.cancelled (some reason) "task_cancelled" "task.cancelled"
      (("task_id", num task_id)
        ∷ ("status_v2", v2 TaskStatusV2.cancelled)
        ∷ ("reason", text reason)
        ∷ [])
      now
