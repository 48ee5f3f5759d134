-- ===== src/Finish/Examples.antt =====
-- Settlements of a task that runs, and of one that is complete.
use cocopilot.Prelude.{refl, some, [], ◌∷◌, if◌then◌else◌}
use cocopilot.Models.{TaskStatus, RunStatus}
use cocopilot.Dbstore.{Db, find_task}
use cocopilot.Dbstore.Leases.{new_lease}
use cocopilot.Dbstore.Runs.{new_run}
use cocopilot.Dbstore.Fixtures.{row, db_of, no_hook}
use cocopilot.Finish.{
  any_run, active_run, not_settled, not_complete, failed_row, cancelled_row, fail_task, cancel_task,
}
use cocopilot.Finish.Keeps.{IsAdditive}
use cocopilot.Finish.Settled.{IsSettled, fail_settles, cancel_settles}

abbrev busy : Db
busy = record (db_of (row 1 TaskStatus.in_progress ∷ row 2 TaskStatus.complete ∷ [])) {
  leases = new_lease 1 "a" "" "l1" 5 ∷ new_lease 2 "a" "" "l2" 6 ∷ [];
  runs = new_run 1 "a" "r1" 5 ∷ new_run 2 "a" "r2" 6 ∷ [];
}

no_hook-IsAdditive : IsAdditive no_hook
no_hook-IsAdditive = record {
  leases = λ db e. refl;
  runs = λ db e. refl;
  tasks = λ db e id t quiet h. h;
}

-- Task 2 is COMPLETE: it stays so, and its run is FAILED afterwards.
fail_settles_example :
    IsSettled any_run RunStatus.failed
      (some "late")
      9
      2
      (if not_settled (row 2 TaskStatus.complete)
        then failed_row 9 (row 2 TaskStatus.complete)
        else row 2 TaskStatus.complete)
      busy
      (fail_task no_hook busy 2 "late" 9)
unfolding find_task
fail_settles_example =
    fail_settles no_hook no_hook-IsAdditive busy 2 9 (row 2 TaskStatus.complete) refl "late"

cancel_settles_example :
    IsSettled active_run RunStatus.cancelled
      (some "stop")
      9
      1
      (if not_complete (row 1 TaskStatus.in_progress)
        then cancelled_row 9 (row 1 TaskStatus.in_progress)
        else row 1 TaskStatus.in_progress)
      busy
      (cancel_task no_hook busy 1 "stop" 9)
unfolding find_task
cancel_settles_example =
    cancel_settles no_hook no_hook-IsAdditive busy 1 9 (row 1 TaskStatus.in_progress) refl "stop"
