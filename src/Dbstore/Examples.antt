-- ===== src/Dbstore/Examples.antt =====
-- The leases at concrete calls.
use cocopilot.Prelude.{ℕ, ◌≡◌, refl, List, [], ◌∷◌}
use cocopilot.Timestamps.{is_stale, stamp_ltb}
use cocopilot.Dbstore.{Db, create_event_tx}
use cocopilot.Dbstore.Leases.{delete_expired_leases}
use cocopilot.Dbstore.Fixtures.{two_tasks, no_hook}
use cocopilot.Dbstore.OneLease.{
  OnePerTask, LeaseCall, creates, releases, cleans, extends, lease_run, lease_step,
  lease_run-OnePerTask,
}

abbrev calls : List (ℕ × LeaseCall)
calls =
    (10, creates 1 "a" "" "l1")
    ∷ (11, creates 2 "a" "" "l2")
    ∷ (12, creates 1 "b" "" "l3")
    ∷ (13, extends "l2" 5)
    ∷ (14, releases "l1" "")
    ∷ (2000000000, cleans)
    ∷ []

lease_run-OnePerTask_example : OnePerTask (lease_run no_hook two_tasks calls).leases
lease_run-OnePerTask_example = lease_run-OnePerTask no_hook (λ db e. refl) two_tasks calls tt

abbrev leased : Db
leased =
    lease_run no_hook two_tasks
      ((10, creates 1 "a" "" "l1") ∷ (950000000, creates 2 "a" "" "l2") ∷ [])

one_is_stale : (delete_expired_leases no_hook leased 960000000).1 ≡ 1
unfolding delete_expired_leases lease_run lease_step create_event_tx is_stale stamp_ltb
one_is_stale = refl
