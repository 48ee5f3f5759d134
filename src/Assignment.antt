-- ===== src/Assignment.antt =====
-- server/assignment.go: claiming a task, and the older completion and failure paths.
pub mod Claim
pub mod Exclusion
mod Examples
use cocopilot.Prelude.{
  ℕ, String, Bool, true, false, not, ◌&&◌, Option, none, some, List, [], ◌∷◌, if◌then◌else◌,
}
use cocopilot.Prelude.Dict.{Dict}
use cocopilot.Models.{TaskStatus, TaskStatusV2, RunStatus}
use cocopilot.Dbstore.{
  Db, TaskRow, Lease, Run, Value, num, text, decimal, EventHook, Result, ok, err, ◌>>=◌,
  task_not_found, create_event,
}
use cocopilot.Dbstore.Leases.{create_lease_tx, mode_or_exclusive}
use cocopilot.Dbstore.Tasks.{TaskV2, get_task_v2, update_task}
use cocopilot.Dbstore.Runs.{new_run, insert_run}

-- The envelope, without the context, project and policies that are only read for it.
pub record Assignment : Type 0 where
  pub task : TaskV2
  pub lease : Lease
  pub run : Run

abbrev any_task : TaskRow → Bool
any_task t = true

-- The second statement of the transaction: it has no condition but the id.
unfoldable pub mark_claimed : ℕ → ℕ → Db → Db
unfolding update_task
mark_claimed task_id now = update_task task_id any_task (λ t. record t {
  status = TaskStatus.in_progress;
  status_v2 = some TaskStatusV2.claimed;
  updated_at = some now;
})

-- The transaction of ClaimTaskByID: the lease, the task's status and the run.
unfoldable pub claim_tx : Db → ℕ → String → String → String → String → ℕ → Result (Db × Lease)
unfolding create_lease_tx mark_claimed insert_run
claim_tx db task_id agent_id mode lease_id run_id now =
    elim (create_lease_tx db task_id agent_id (mode_or_exclusive mode) lease_id now) [
      | err e ↦ err e
      | ok (db', lease) ↦
          insert_run (new_run task_id agent_id run_id now) (mark_claimed task_id now db')
          >>= λ db''. ok (db'', lease)
    ]

abbrev pub claim_payload : ℕ → String → Lease → Run → Dict Value
claim_payload task_id agent_id lease run =
    ("task_id", num task_id)
    ∷ ("agent_id", text agent_id)
    ∷ ("lease_id", text lease.id)
    ∷ ("run_id", text run.id)
    ∷ []

abbrev pub announce_claim :
    EventHook → Db → ℕ → String → Lease → Run → ℕ → Option TaskV2 → Db × Result Assignment
announce_claim hook db task_id agent_id lease run now none = (db, err task_not_found)
announce_claim hook db task_id agent_id lease run now (some task) = (
  create_event hook db task.project_id "task.claimed" "task" (decimal task_id)
      (claim_payload task_id agent_id lease run) now,
  ok (record { task = task; lease = lease; run = run }),
)

abbrev pub finish_claim :
    EventHook → Db → ℕ → String → String → ℕ → Result (Db × Lease) → Db × Result Assignment
finish_claim hook db task_id agent_id run_id now (err e) = (db, err e)
finish_claim hook db task_id agent_id run_id now (ok (db', lease)) =
    announce_claim hook db' task_id agent_id lease (new_run task_id agent_id run_id now) now
      (get_task_v2 db' task_id)

-- ClaimTaskByID: a transaction that fails leaves the database as it was.
unfoldable pub claim_task_by_id :
    EventHook → Db → ℕ → String → String → String → String → ℕ → Db × Result Assignment
unfolding claim_tx get_task_v2
claim_task_by_id hook db task_id agent_id mode lease_id run_id now =
    finish_claim hook db task_id agent_id run_id now
      (claim_tx db task_id agent_id mode lease_id run_id now)
