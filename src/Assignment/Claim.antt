-- ===== src/Assignment/Claim.antt =====
-- When a claim succeeds, what it changes, and that a claimed task cannot be claimed again.
use cocopilot.Prelude.{
  ℕ, String, ◌≡◌, ◌↔◌, refl, Bool, true, false, not, ◌&&◌, Option, none, some, List, [], ◌∷◌, ◌++◌,
  arith, any, find?, ◌==◌, str_eq,
}
use mathlib.Core.Option
use cocopilot.Models.{TaskStatus, TaskStatusV2}
use cocopilot.Timestamps.{is_stale}
use cocopilot.Dbstore.{Db, TaskRow, Lease, ok, err, lease_conflict, create_event_tx}
use cocopilot.Dbstore.Leases.{
  mode_or_exclusive, expired, clean_stale, conflicts, new_lease, get_lease_by_task_id,
}
use cocopilot.Assignment.{claim_tx}

abbrev pub is_some {ℓ} : {A : Type ℓ} → Option A → Bool
is_some none = false
is_some (some a) = true

-- No lease has the identifier.
abbrev pub FreshLease : String → Db → Type 0
FreshLease lease_id db = any (λ l. str_eq l.id lease_id) db.leases ≡ false

abbrev pub FreshRun : String → Db → Type 0
FreshRun run_id db = any (λ r. str_eq r.id run_id) db.runs ≡ false

abbrev held : ℕ → ℕ → Lease → Bool
held task_id now l = l.task_id == task_id && not (expired now l)

conflicts-clean_stale :
    (lease : Lease) (now : ℕ) (ls : List Lease)
    → any (λ l. str_eq l.id lease.id) ls ≡ false
    → conflicts lease (clean_stale lease.task_id now ls)
      ≡ is_some (find? (held lease.task_id now) ls)
unfolding conflicts clean_stale
conflicts-clean_stale lease now [] fresh = refl
conflicts-clean_stale lease now (l ∷ ls) fresh = ground (arith, conflicts-clean_stale lease now ls)

find-conflicts :
    (lease : Lease) (task_id later : ℕ) (ls : List Lease)
    → lease.task_id ≡ task_id
    → conflicts lease ls ≡ false
    → is_stale later lease.expires_at ≡ false
    → find? (held task_id later) (ls ++ lease ∷ []) ≡ some lease
unfolding conflicts
find-conflicts lease task_id later [] same free live = ground arith
find-conflicts lease task_id later (l ∷ ls) same free live =
    ground (arith, find-conflicts lease task_id later ls)

module _ (db : Db) (task_id : ℕ) (agent_id mode lease_id run_id : String) (now : ℕ) where
  abbrev pub claimed_lease : Lease
  claimed_lease = new_lease task_id agent_id (mode_or_exclusive mode) lease_id now

  -- With identifiers that are not in use, a claim is refused as a lease conflict exactly when the
  -- task has a lease that has not expired.
  pub claim_tx-conflict_iff :
      FreshLease lease_id db
      → FreshRun run_id db
      → (claim_tx db task_id agent_id mode lease_id run_id now ≡ err lease_conflict)
        ↔ (is_some (get_lease_by_task_id db task_id now) ≡ true)
  unfolding claim_tx get_lease_by_task_id create_event_tx
  claim_tx-conflict_iff fl fr = ground (arith, conflicts-clean_stale claimed_lease now db.leases)

  pub claim_tx-leases :
      {db' : Db} {lease : Lease}
      → claim_tx db task_id agent_id mode lease_id run_id now ≡ ok (db', lease)
      → (lease ≡ claimed_lease)
        × (db'.leases ≡ clean_stale task_id now db.leases ++ lease ∷ [])
        × (conflicts lease (clean_stale task_id now db.leases) ≡ false)
  unfolding claim_tx create_event_tx
  claim_tx-leases e = ground arith

  -- From the moment of the claim until its lease expires, the claimed task's lease is this one.
  pub claim_tx-held :
      {db' : Db} {lease : Lease}
      → claim_tx db task_id agent_id mode lease_id run_id now ≡ ok (db', lease)
      → (later : ℕ) → is_stale later lease.expires_at ≡ false
      → get_lease_by_task_id db' task_id later ≡ some lease
  unfolding get_lease_by_task_id
  claim_tx-held {db'} {lease} e later live =
      let (which, rows, free) = claim_tx-leases e in
      rw rows (find-conflicts lease task_id later _ (rw which refl) free live)

abbrev pub claimed_row : ℕ → TaskRow → TaskRow
claimed_row now t = record t {
  status = TaskStatus.in_progress;
  status_v2 = some TaskStatusV2.claimed;
  updated_at = some now;
}
