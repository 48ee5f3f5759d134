-- ===== src/Assignment/Examples.antt =====
-- Claims at concrete values.
use mathlib.Core.Option
use cocopilot.Prelude.{◌≡◌, refl, true, ◌↔◌}
use cocopilot.Timestamps.{is_stale, stamp_ltb}
use cocopilot.Models.{TaskStatus}
use cocopilot.Dbstore.{
  create_event, create_event_tx, resolve_task_project_id, Db, Lease, Result, ok, err,
  lease_conflict,
}
use cocopilot.Dbstore.Leases.{get_lease_by_task_id, create_lease_tx}
use cocopilot.Dbstore.Tasks.{to_task_v2, get_task_v2}
use cocopilot.Dbstore.Runs.{new_run}
use cocopilot.Dbstore.Fixtures.{row, two_tasks, no_hook}
use cocopilot.Assignment.{Assignment, claim_tx, claim_task_by_id}
use cocopilot.Assignment.Claim.{FreshLease, FreshRun, is_some, claimed_row, claim_tx-conflict_iff}
use cocopilot.Assignment.Exclusion.{claim_excludes}

abbrev db_or {ℓ} : {A : Type ℓ} → Db → Result (Db × A) → Db
db_or db (ok r) = r.0
db_or db (err e) = db

abbrev granted : Lease
granted = record {
  id = "l1";
  task_id = 2;
  agent_id = "a";
  mode = "exclusive";
  created_at = 5;
  expires_at = 900000005;
}

abbrev after : Db
after = db_or two_tasks (claim_tx two_tasks 2 "a" "" "l1" "r1" 5)

claim_tx-conflict_iff_example :
    (claim_tx two_tasks 2 "a" "" "l1" "r1" 5 ≡ err lease_conflict)
    ↔ (is_some (get_lease_by_task_id two_tasks 2 5) ≡ true)
claim_tx-conflict_iff_example = claim_tx-conflict_iff two_tasks 2 "a" "" "l1" "r1" 5 refl refl

abbrev first_claim : Assignment
first_claim = record {
  task = to_task_v2 (claimed_row 5 (row 1 TaskStatus.not_picked));
  lease = record granted { task_id = 1 };
  run = new_run 1 "a" "r1" 5;
}

abbrev after_first : Db
after_first = (claim_task_by_id no_hook two_tasks 1 "a" "" "l1" "r1" 5).0

first_claim_granted :
    claim_task_by_id no_hook two_tasks 1 "a" "" "l1" "r1" 5 ≡ (after_first, ok first_claim)
unfolding claim_task_by_id claim_tx create_lease_tx create_event_tx create_event get_task_v2
    resolve_task_project_id
first_claim_granted = refl

fresh_lease : FreshLease "l2" after_first
unfolding claim_task_by_id claim_tx create_lease_tx create_event_tx create_event get_task_v2
    resolve_task_project_id
fresh_lease = refl

fresh_run : FreshRun "r2" after_first
unfolding claim_task_by_id claim_tx create_lease_tx create_event_tx create_event get_task_v2
    resolve_task_project_id
fresh_run = refl

claim_excludes_example :
    claim_task_by_id no_hook after_first 1 "b" "" "l2" "r2" 800000000
    ≡ (after_first, err lease_conflict)
claim_excludes_example =
    claim_excludes no_hook (λ db e h. refl) two_tasks after_first 1 "a" "" "l1" "r1" 5 first_claim
      first_claim_granted "b" "" "l2" "r2" 800000000 fresh_lease fresh_run
      (unfold is_stale stamp_ltb in refl)
