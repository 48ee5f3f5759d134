-- ===== src/Assignment/Exclusion.antt =====
-- A claimed task cannot be claimed again while the lease of the claim runs.
use cocopilot.Prelude.{ℕ, String, ◌≡◌, refl, ap, false, Option, none, some, arith}
use cocopilot.Prelude.Dict.{Dict}
use cocopilot.Timestamps.{is_stale}
use cocopilot.Dbstore.{
  Db, Event, EventHook, EntityId, decimal, Value, Lease, Run, Result, ok, err, lease_conflict,
  create_event,
}
use cocopilot.Dbstore.Leases.{get_lease_by_task_id}
use cocopilot.Dbstore.Tasks.{TaskV2, get_task_v2}
use cocopilot.Dbstore.Runs.{new_run}
use cocopilot.Assignment.{
  Assignment, claim_tx, claim_payload, announce_claim, finish_claim, claim_task_by_id,
}
use cocopilot.Assignment.Claim.{FreshLease, FreshRun, claim_tx-conflict_iff, claim_tx-held}

-- The hook does nothing on `task.claimed`: the server's automation ignores events of that kind.
abbrev pub QuietOnClaim : EventHook → Type 0
QuietOnClaim hook = (db : Db) (e : Event) → e.kind ≡ "task.claimed" → hook db e ≡ db

create_event-leases :
    (hook : EventHook)
    → QuietOnClaim hook
    → (db : Db) (project entity : String) (id : EntityId) (payload : Dict Value) (now : ℕ)
    → (create_event hook db project "task.claimed" entity id payload now).leases ≡ db.leases
unfolding create_event
create_event-leases hook quiet db project entity id payload now =
    ap (λ (d : Db). d.leases) (quiet _ _ refl)

announce_claim-leases :
    (hook : EventHook)
    → QuietOnClaim hook
    → (db : Db) (task_id : ℕ) (agent_id : String) (lease : Lease) (run : Run) (now : ℕ)
      (o : Option TaskV2) {db' : Db} {claimed : Assignment}
    → announce_claim hook db task_id agent_id lease run now o ≡ (db', ok claimed)
    → (claimed.lease ≡ lease) × (db'.leases ≡ db.leases)
announce_claim-leases hook quiet db task_id agent_id lease run now none e = cc
announce_claim-leases hook quiet db task_id agent_id lease run now (some task) e = ground (
  arith,
  create_event-leases hook quiet db task.project_id "task" (decimal task_id)
      (claim_payload task_id agent_id lease run) now,
)

finish_claim-ok :
    (hook : EventHook)
    → QuietOnClaim hook
    → (db : Db) (task_id : ℕ) (agent_id run_id : String) (now : ℕ) (r : Result (Db × Lease))
      {db' : Db} {claimed : Assignment}
    → finish_claim hook db task_id agent_id run_id now r ≡ (db', ok claimed)
    → (db1 : Db) × (r ≡ ok (db1, claimed.lease)) × (db'.leases ≡ db1.leases)
finish_claim-ok hook quiet db task_id agent_id run_id now (err x) e = cc
finish_claim-ok hook quiet db task_id agent_id run_id now (ok (db1, lease)) e =
    let same =
      announce_claim-leases hook quiet db1 task_id agent_id lease
        (new_run task_id agent_id run_id now) now (get_task_v2 db1 task_id) e in
    (db1, cc (same.0), same.1)

-- A claim that succeeded is its transaction, followed by an event that leaves the leases alone.
claim_task_by_id-ok :
    (hook : EventHook)
    → QuietOnClaim hook
    → (db : Db) (task_id : ℕ) (agent_id mode lease_id run_id : String) (now : ℕ) {db' : Db}
      {claimed : Assignment}
    → claim_task_by_id hook db task_id agent_id mode lease_id run_id now ≡ (db', ok claimed)
    → (db1 : Db) × (claim_tx db task_id agent_id mode lease_id run_id now ≡ ok (db1, claimed.lease))
      × (db'.leases ≡ db1.leases)
unfolding claim_task_by_id
claim_task_by_id-ok hook quiet db task_id agent_id mode lease_id run_id now e =
    finish_claim-ok hook quiet db task_id agent_id run_id now
      (claim_tx db task_id agent_id mode lease_id run_id now) e

claim_task_by_id-conflict :
    (hook : EventHook) (db : Db) (task_id : ℕ) (agent_id mode lease_id run_id : String) (now : ℕ)
    → claim_tx db task_id agent_id mode lease_id run_id now ≡ err lease_conflict
    → claim_task_by_id hook db task_id agent_id mode lease_id run_id now ≡ (db, err lease_conflict)
unfolding claim_task_by_id
claim_task_by_id-conflict hook db task_id agent_id mode lease_id run_id now e = rw e

get_lease-leases :
    (db db' : Db) (task_id now : ℕ)
    → db'.leases ≡ db.leases
    → get_lease_by_task_id db' task_id now ≡ get_lease_by_task_id db task_id now
unfolding get_lease_by_task_id
get_lease-leases db db' task_id now e = rw e

-- Given that the event hook does nothing on `task.claimed`: after a claim has succeeded, every claim
-- of the task by any agent with new identifiers is refused as a conflict and changes nothing, until
-- the lease of the first expires.
pub claim_excludes :
    (hook : EventHook)
    → QuietOnClaim hook
    → (db db' : Db) (task_id : ℕ) (agent_id mode lease_id run_id : String) (now : ℕ)
      (claimed : Assignment)
    → claim_task_by_id hook db task_id agent_id mode lease_id run_id now ≡ (db', ok claimed)
    → (other other_mode other_lease other_run : String) (later : ℕ) → FreshLease other_lease db'
    → FreshRun other_run db'
    → is_stale later claimed.lease.expires_at ≡ false
    → claim_task_by_id hook db' task_id other other_mode other_lease other_run later
      ≡ (db', err lease_conflict)
claim_excludes hook quiet db db' task_id agent_id mode lease_id run_id now claimed e other
      other_mode other_lease other_run later fl fr live =
    let (db1, tx, same) =
      claim_task_by_id-ok hook quiet db task_id agent_id mode lease_id run_id now e in
    let held = claim_tx-held db task_id agent_id mode lease_id run_id now tx later live in
    claim_task_by_id-conflict hook db' task_id other other_mode other_lease other_run later (
      (claim_tx-conflict_iff db' task_id other other_mode other_lease other_run later fl fr).1
        (rw (get_lease-leases db1 db' task_id later same, held)))
