-- ===== src/Finish/Settled.antt =====
-- What a task, its latest run and its lease are after the task was completed, failed or cancelled.
use cocopilot.Prelude.{
  ℕ, ◌≡◌, refl, ◌∙◌, Bool, true, false, ◌&&◌, Option, none, some, List, [], ◌∷◌, arith, any, String,
  ◌==◌, str_eq, if◌then◌else◌, ==_iff,
}
use mathlib.Core.Option
use cocopilot.Prelude.Dict.{Dict}
use cocopilot.Models.{RunStatus}
use cocopilot.Dbstore.{Db, TaskRow, Run, EventHook, Value, decimal, Result, ok, find_task}
use cocopilot.Dbstore.Leases.{get_lease_by_task_id}
use cocopilot.Dbstore.Runs.{get_latest_run}
use cocopilot.Dbstore.Tasks.{TaskV2, to_task_v2, get_task_v2, update_task}
use cocopilot.Dbstore.Rows.{find_task-update_task}
use cocopilot.Dbstore.OneLease.{OnePerTask}
use cocopilot.Finish.{
  not_complete, not_settled, failed_row, cancelled_row, any_run, active_run, finish_latest,
  release_current, settle, fail_task, cancel_task,
}
use cocopilot.Finish.Keeps.{IsAdditive, create_event-Extends}
use cocopilot.Finish.Steps.{
  ended_if, finish_latest-RunEnded, release_current-Released, get_lease-leases,
}

-- The result and the database of a settlement: the task's row, which was returned; its latest run,
-- the same run as before and finished if it was wanted; and no active lease of the task.
pub record IsSettled (wanted : Run → Bool) (status : RunStatus) (error : Option String)
    (now task_id : ℕ) (t : TaskRow) (db : Db) (after : Db × Result TaskV2) : Type 0 where
  pub returned : after.1 ≡ ok (to_task_v2 t)
  pub stored : find_task task_id after.0.tasks ≡ some t
  pub others :
      (id : ℕ) (u : TaskRow)
      → (id == task_id) ≡ false
      → find_task id db.tasks ≡ some u
      → find_task id after.0.tasks ≡ some u
  pub latest_run :
      get_latest_run after.0 task_id
      ≡ Option.map (ended_if wanted status error now) (get_latest_run db task_id)
  pub unheld : OnePerTask db.leases → get_lease_by_task_id after.0 task_id now ≡ none

pub get_task_v2-found :
    (db : Db) (id : ℕ) (t : TaskRow)
    → find_task id db.tasks ≡ some t
    → get_task_v2 db id ≡ some (to_task_v2 t)
unfolding get_task_v2
get_task_v2-found db id t e = rw (e, get_task_v2) refl

pub get_latest_run-runs :
    (db db' : Db) (task_id : ℕ)
    → db'.runs ≡ db.runs
    → get_latest_run db' task_id ≡ get_latest_run db task_id
unfolding get_latest_run
get_latest_run-runs db db' task_id e = rw e refl

settle-IsSettled :
    (hook : EventHook)
    → IsAdditive hook
    → (wanted : Run → Bool) (db : Db) (task_id : ℕ) (status : RunStatus) (error : Option String)
      (reason kind : String) (payload : Dict Value) (now : ℕ) (t : TaskRow)
    → str_eq kind "lease.expired" ≡ false
    → find_task task_id db.tasks ≡ some t
    → IsSettled wanted status error now task_id t db
        (settle hook wanted db task_id status error reason kind payload now)
unfolding settle
settle-IsSettled hook additive wanted db task_id status error reason kind payload now t quiet
      found =
    let db1 = finish_latest hook wanted db task_id status error now in
    let run = finish_latest-RunEnded hook additive wanted db task_id status error now in
    let db2 = release_current hook db1 task_id reason now in
    let lease = release_current-Released hook additive db1 task_id reason now in
    let there = lease.tasks task_id t (run.tasks task_id t found) in
    let event =
      create_event-Extends hook additive db2 (to_task_v2 t).project_id kind "task" (decimal task_id)
        payload now quiet in
    rw (get_task_v2-found db2 task_id t there) (record {
      returned = refl;
      stored = event.tasks task_id t there;
      others = λ id u other h. event.tasks id u (lease.tasks id u (run.tasks id u h));
      latest_run = get_latest_run-runs _ _ task_id (event.runs ∙ lease.runs) ∙ run.latest_run;
      unheld = λ h. get_lease-leases _ _ task_id now event.leases ∙ lease.unheld (rw run.leases h);
    })

-- A settlement that follows a statement on the task's row, seen from before the statement.
pub after_update :
    (guard : TaskRow → Bool) (change : TaskRow → TaskRow) (wanted : Run → Bool) (status : RunStatus)
    (error : Option String) (now task_id : ℕ) (t : TaskRow) (db : Db) (after : Db × Result TaskV2)
    → ((u : TaskRow) → (change u).id ≡ u.id)
    → IsSettled wanted status error now task_id t (update_task task_id guard change db) after
    → IsSettled wanted status error now task_id t db after
after_update guard change wanted status error now task_id t db after keeps s = record {
  returned = s.returned;
  stored = s.stored;
  others = λ id u other h.
      s.others id u other (find_task-update_task task_id guard change keeps id db ∙ rw other h);
  latest_run = s.latest_run ∙ (unfold update_task get_latest_run in refl);
  unheld = λ h. s.unheld (unfold update_task in h);
}

pub updated :
    (guard : TaskRow → Bool) (change : TaskRow → TaskRow) (db : Db) (task_id : ℕ) (t : TaskRow)
    → ((u : TaskRow) → (change u).id ≡ u.id)
    → find_task task_id db.tasks ≡ some t
    → find_task task_id (update_task task_id guard change db).tasks
      ≡ some (if guard t then change t else t)
updated guard change db task_id t keeps e =
    find_task-update_task task_id guard change keeps task_id db
    ∙ rw ((==_iff task_id task_id).1 refl, e) refl

pub affects-found :
    (task_id : ℕ) (guard : TaskRow → Bool) (ts : List TaskRow) (t : TaskRow)
    → find_task task_id ts ≡ some t
    → guard t ≡ true
    → any (λ u. u.id == task_id && guard u) ts ≡ true
unfolding find_task
affects-found task_id guard [] t e g = cc
affects-found task_id guard (u ∷ us) t e g = ground (arith, affects-found task_id guard us t)

module _ (hook : EventHook) (additive : IsAdditive hook) (db : Db) (task_id now : ℕ) (t : TaskRow)
    (found : find_task task_id db.tasks ≡ some t) where
  -- Given an additive event hook: failing a task changes its row only if it is neither COMPLETE nor FAILED, and returns the row. In
  -- every case the latest run becomes FAILED, also that of a task that is COMPLETE, and the active
  -- lease is released.
  pub fail_settles :
      (message : String)
      → IsSettled any_run RunStatus.failed
          (some message)
          now
          task_id
          (if not_settled t then failed_row now t else t)
          db
          (fail_task hook db task_id message now)
  unfolding fail_task
  fail_settles message =
      after_update not_settled (failed_row now) _ _ _ _ _ _ db _ (λ u. refl)
        (settle-IsSettled hook additive any_run _ task_id RunStatus.failed (some message)
          "task_failed" "task.failed" _ now _ refl
          (updated not_settled (failed_row now) db task_id t (λ u. refl) found))

  -- Given an additive event hook: cancelling a task changes its row unless it is COMPLETE, also if it is FAILED, and returns the
  -- row. The latest run becomes CANCELLED only if it was active, and the active lease is released.
  pub cancel_settles :
      (reason : String)
      → IsSettled active_run RunStatus.cancelled
          (some reason)
          now
          task_id
          (if not_complete t then cancelled_row now t else t)
          db
          (cancel_task hook db task_id reason now)
  unfolding cancel_task
  cancel_settles reason =
      after_update not_complete (cancelled_row now) _ _ _ _ _ _ db _ (λ u. refl)
        (settle-IsSettled hook additive active_run _ task_id RunStatus.cancelled (some reason)
          "task_cancelled" "task.cancelled" _ now _ refl
          (updated not_complete (cancelled_row now) db task_id t (λ u. refl) found))
