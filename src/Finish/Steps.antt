-- ===== src/Finish/Steps.antt =====
-- The two steps before the event of a settlement: the run is finished and the lease is released.
use cocopilot.Prelude.{
  ℕ, ◌≡◌, refl, ◌∙◌, inl, inr, Bool, not, ◌&&◌, Option, none, some, String, ◌==◌, if◌then◌else◌,
  Bool-cases,
}
use mathlib.Core.Option
use cocopilot.Prelude.Dict.{str_eq_refl}
use cocopilot.Models.{RunStatus}
use cocopilot.Dbstore.{Db, TaskRow, Run, Lease, EventHook, find_task}
use cocopilot.Dbstore.Leases.{expired, get_lease_by_task_id, get_lease_by_id, delete_lease}
use cocopilot.Dbstore.Runs.{get_latest_run, finish_run}
use cocopilot.Dbstore.OneLease.{OnePerTask}
use cocopilot.Finish.{finish_found, finish_latest, release_found, release_current}
use cocopilot.Finish.Keeps.{
  IsAdditive, get_latest_run-finish_run, update_run_status-Extends, release_lease-Extends,
  none_left, find_by_id,
}

abbrev pub ended : RunStatus → Option String → ℕ → Run → Run
ended status error now r = record r { status = status; finished_at = some now; error = error }

abbrev pub ended_if : (Run → Bool) → RunStatus → Option String → ℕ → Run → Run
ended_if wanted status error now r = if wanted r then ended status error now r else r

-- The second database has the tasks of the first, maybe more, and the latest run of the task is
-- the same, finished if it was wanted.
pub record RunEnded (wanted : Run → Bool) (status : RunStatus) (error : Option String)
    (now task_id : ℕ) (db db' : Db) : Type 0 where
  pub leases : db'.leases ≡ db.leases
  pub latest_run :
      get_latest_run db' task_id
      ≡ Option.map (ended_if wanted status error now) (get_latest_run db task_id)
  pub tasks :
      (id : ℕ) (t : TaskRow) → find_task id db.tasks ≡ some t → find_task id db'.tasks ≡ some t

get_latest_run-runs :
    (db db' : Db) (task_id : ℕ)
    → db'.runs ≡ db.runs
    → get_latest_run db' task_id ≡ get_latest_run db task_id
unfolding get_latest_run
get_latest_run-runs db db' task_id e = rw e refl

pub finish_found-RunEnded :
    (hook : EventHook)
    → IsAdditive hook
    → (wanted : Run → Bool) (db : Db) (task_id : ℕ) (status : RunStatus) (error : Option String)
      (now : ℕ) (o : Option Run)
    → get_latest_run db task_id ≡ o
    → RunEnded wanted status error now task_id db (finish_found hook wanted db status error now o)
finish_found-RunEnded hook additive wanted db task_id status error now none e = record {
  leases = refl;
  latest_run = rw e refl;
  tasks = λ id t h. h;
}
finish_found-RunEnded hook additive wanted db task_id status error now (some r) e =
    elim (Bool-cases (wanted r)) [
      | inr skip ↦
          rw (skip, finish_found)
            (record { leases = refl; latest_run = rw (e, skip) refl; tasks = λ id t h. h })
      | inl wants ↦
          let kept = update_run_status-Extends hook additive db r.id status error now in
          rw (wants, finish_found)
            (record {
              leases = kept.leases ∙ (unfold finish_run in refl);
              latest_run =
                  get_latest_run-runs _ _ task_id kept.runs
                  ∙ get_latest_run-finish_run r.id status error now db task_id
                  ∙ rw (e, wants, str_eq_refl r.id) refl;
              tasks = λ id t h. kept.tasks id t (unfold finish_run in h);
            })
    ]

pub finish_latest-RunEnded :
    (hook : EventHook)
    → IsAdditive hook
    → (wanted : Run → Bool) (db : Db) (task_id : ℕ) (status : RunStatus) (error : Option String)
      (now : ℕ)
    → RunEnded wanted status error now task_id db
        (finish_latest hook wanted db task_id status error now)
unfolding finish_latest
finish_latest-RunEnded hook additive wanted db task_id status error now =
    finish_found-RunEnded hook additive wanted db task_id status error now
      (get_latest_run db task_id) refl

-- The second database has the tasks and the runs of the first, and no active lease of the task.
pub record Released (task_id now : ℕ) (db db' : Db) : Type 0 where
  pub unheld : OnePerTask db.leases → get_lease_by_task_id db' task_id now ≡ none
  pub runs : db'.runs ≡ db.runs
  pub tasks :
      (id : ℕ) (t : TaskRow) → find_task id db.tasks ≡ some t → find_task id db'.tasks ≡ some t

get_lease-delete_lease :
    (db : Db) (task_id now : ℕ) (l : Lease)
    → OnePerTask db.leases
    → get_lease_by_task_id db task_id now ≡ some l
    → get_lease_by_task_id (delete_lease db l.id) task_id now ≡ none
unfolding get_lease_by_task_id delete_lease
get_lease-delete_lease db task_id now l h e = none_left task_id now db.leases l h e

pub get_lease-leases :
    (db db' : Db) (task_id now : ℕ)
    → db'.leases ≡ db.leases
    → get_lease_by_task_id db' task_id now ≡ get_lease_by_task_id db task_id now
unfolding get_lease_by_task_id
get_lease-leases db db' task_id now e = rw e refl

get_lease_by_id-found :
    (db : Db) (task_id now : ℕ) (l : Lease)
    → get_lease_by_task_id db task_id now ≡ some l
    → (m : Lease) × (get_lease_by_id db l.id ≡ some m)
unfolding get_lease_by_task_id get_lease_by_id
get_lease_by_id-found db task_id now l e =
    find_by_id (λ x. x.task_id == task_id && not (expired now x)) db.leases l e

release_found-Released :
    (hook : EventHook)
    → IsAdditive hook
    → (db : Db) (task_id : ℕ) (reason : String) (now : ℕ) (o : Option Lease)
    → get_lease_by_task_id db task_id now ≡ o
    → Released task_id now db (release_found hook db reason now o)
release_found-Released hook additive db task_id reason now none e = record {
  unheld = λ h. e;
  runs = refl;
  tasks = λ id t h. h;
}
release_found-Released hook additive db task_id reason now (some l) e =
    let (m, there) = get_lease_by_id-found db task_id now l e in
    let kept = release_lease-Extends hook additive db l.id reason now m there in
    record {
      unheld = λ h.
          get_lease-leases _ _ task_id now kept.leases
          ∙ get_lease-delete_lease db task_id now l h e;
      runs = kept.runs ∙ (unfold delete_lease in refl);
      tasks = λ id t h. kept.tasks id t (unfold delete_lease in h);
    }

pub release_current-Released :
    (hook : EventHook)
    → IsAdditive hook
    → (db : Db) (task_id : ℕ) (reason : String) (now : ℕ)
    → Released task_id now db (release_current hook db task_id reason now)
unfolding release_current
release_current-Released hook additive db task_id reason now =
    release_found-Released hook additive db task_id reason now (get_lease_by_task_id db task_id now)
      refl
