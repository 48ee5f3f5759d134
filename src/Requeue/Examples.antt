-- ===== src/Requeue/Examples.antt =====
-- A task whose agent is gone, and one that still has its lease.
use cocopilot.Prelude.{arith, ◌≡◌, refl, some, [], ◌∷◌, if◌then◌else◌}
use cocopilot.Timestamps.{stamp_ltb, is_stale}
use cocopilot.Models.{TaskStatus, TaskStatusV2}
use cocopilot.Dbstore.{Db, TaskRow, find_task}
use cocopilot.Dbstore.Leases.{new_lease, delete_expired_leases}
use cocopilot.Dbstore.Fixtures.{row, db_of, no_hook}
use cocopilot.Finish.Keeps.{IsAdditive}
use cocopilot.Requeue.{is_stuck, queued_row, requeue_stuck_tasks}
use cocopilot.Automation.Hook.{server_hook}
use cocopilot.Automation.Examples.{settings}
use cocopilot.Requeue.Expired.{cleanup_requeues}
use cocopilot.Requeue.Stuck.{requeue_stuck_tasks-rows}

abbrev running_row : TaskRow
running_row = record (row 1 TaskStatus.in_progress) { status_v2 = some TaskStatusV2.running }

abbrev left_alone : Db
left_alone = record (db_of (running_row ∷ record running_row { id = 2 } ∷ [])) {
  leases = new_lease 2 "a" "" "l" 8000000000 ∷ [];
}

no_hook-IsAdditive : IsAdditive no_hook
no_hook-IsAdditive = record {
  leases = λ db e. refl;
  runs = λ db e. refl;
  tasks = λ db e id t quiet h. h;
}

one_is_put_back : (requeue_stuck_tasks no_hook left_alone 1800000000 8100000000).1 ≡ 1
unfolding requeue_stuck_tasks stamp_ltb is_stale
one_is_put_back = refl

requeue_stuck_tasks-rows_example :
    find_task 1 (requeue_stuck_tasks no_hook left_alone 1800000000 8100000000).0.tasks
    ≡ some (
        if is_stuck left_alone 1800000000 8100000000 running_row
        then queued_row 8100000000 running_row
        else running_row)
unfolding find_task
requeue_stuck_tasks-rows_example =
    requeue_stuck_tasks-rows no_hook no_hook-IsAdditive left_alone 1800000000 8100000000 1
      running_row (refl, (refl, tt)) refl

abbrev overdue : Db
overdue = record (db_of (running_row ∷ [])) { leases = new_lease 1 "a" "" "l" 5 ∷ [] }

cleanup_requeues_example :
    find_task 1 (delete_expired_leases (server_hook (settings []) 3) overdue 8100000000).0.tasks
    ≡ some (queued_row 8100000000 running_row)
unfolding find_task is_stale stamp_ltb
cleanup_requeues_example =
    cleanup_requeues (settings []) overdue 8100000000 1 running_row (λ e. absurd (omega arith)) refl
      refl refl
