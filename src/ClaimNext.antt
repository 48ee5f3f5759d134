-- ===== src/ClaimNext.antt =====
-- server/handlers_v2_tasks.go: the query that picks the next task to claim, and
-- server/assignment.go: ClaimNext. The query runs in a transaction that is rolled back.
pub mod Claimable
pub mod Choice
mod Examples
use mathlib.Core.Option
use cocopilot.Prelude.{
  ℕ, zero, suc, String, Bool, true, false, not, ◌&&◌, ◌||◌, Option, none, some, List, [], ◌∷◌, any,
  keep, ltb, ◌==◌, str_eq, if◌then◌else◌,
}
use cocopilot.Prelude.Int.{ℤ, ltb_ℤ}
use cocopilot.Models.{TaskStatus, TaskType}
use cocopilot.Dbstore.{Db, TaskRow, Lease, EventHook, Result, ok, err}
use cocopilot.Dbstore.Leases.{expired}
use cocopilot.Assignment.{Assignment, claim_task_by_id}

abbrev pub claimable_status : TaskStatus → Bool
claimable_status TaskStatus.not_picked = true
claimable_status TaskStatus.in_progress = true
claimable_status _ = false

abbrev pub is_approved : Option String → Bool
is_approved none = false
is_approved (some s) = str_eq s "approved"

-- The WHERE clause: the left join finds no lease that has not expired.
unfoldable pub eligible : Db → String → ℕ → TaskRow → Bool
eligible db project_id now t =
    str_eq t.project_id project_id
    && claimable_status t.status
    && not (any (λ l. l.task_id == t.id && not (expired now l)) db.leases)
    && (not t.requires_approval || is_approved t.approval_status)

abbrev pub status_bucket : TaskRow → ℕ
status_bucket t = elim t.status [ TaskStatus.not_picked ↦ 0 | _ ↦ 1 ]

-- One column of the order, ascending, and the rest of the order for equal values.
unfoldable pub by_key : ℕ → ℕ → Bool → Bool
by_key x y rest = if ltb x y then true else if ltb y x then false else rest

-- The priority, descending.
unfoldable pub by_priority : ℤ → ℤ → Bool → Bool
by_priority x y rest = if ltb_ℤ y x then true else if ltb_ℤ x y then false else rest

-- ORDER BY status_bucket, cap_bucket, t.priority DESC, t.id ASC. Without capabilities the bucket
-- is the same for all, as in the query that has no such column.
unfoldable pub before : (TaskRow → ℕ) → TaskRow → TaskRow → Bool
before bucket a b =
    by_key (status_bucket a) (status_bucket b)
      (by_key (bucket a) (bucket b) (by_priority a.priority b.priority (ltb a.id b.id)))

-- LIMIT 1 of the ordered rows.
unfoldable pub pick : (TaskRow → ℕ) → List TaskRow → Option TaskRow
pick bucket [] = none
pick bucket (t ∷ ts) = elim (pick bucket ts) [
  | none ↦ some t
  | some m ↦ if before bucket m t then some m else some t
]

abbrev pub no_caps : TaskRow → ℕ
no_caps t = 0

-- claimNextTaskTx
unfoldable pub claim_next_task_tx : Db → String → ℕ → Option ℕ
unfolding eligible pick
claim_next_task_tx db project_id now =
    Option.map (λ t. t.id) (pick no_caps (keep (eligible db project_id now) db.tasks))

-- The upper-case text of a type column; `none` is the empty text of COALESCE.
abbrev type_text : Option TaskType → String
type_text none = ""
type_text (some TaskType.analyze) = "ANALYZE"
type_text (some TaskType.modify) = "MODIFY"
type_text (some TaskType.test) = "TEST"
type_text (some TaskType.review) = "REVIEW"
type_text (some TaskType.doc) = "DOC"
type_text (some TaskType.release) = "RELEASE"
type_text (some TaskType.rollback) = "ROLLBACK"
type_text (some TaskType.plan) = "PLAN"

abbrev pub cap_bucket_of : List String → TaskRow → ℕ
cap_bucket_of caps t = if any (λ c. str_eq (type_text t.task_type) c) caps then 0 else 1

-- claimNextTaskTxWithCaps, over the capabilities in upper case
unfoldable pub claim_next_task_tx_with_caps : Db → String → ℕ → List String → Option ℕ
unfolding claim_next_task_tx
claim_next_task_tx_with_caps db project_id now [] = claim_next_task_tx db project_id now
claim_next_task_tx_with_caps db project_id now (c ∷ cs) =
    Option.map (λ t. t.id)
      (pick (cap_bucket_of (c ∷ cs)) (keep (eligible db project_id now) db.tasks))

-- AssignmentService.ClaimNext: no task is no error.
unfoldable pub claim_next :
    EventHook
    → Db
    → String
    → String
    → String
    → String
    → String
    → ℕ
    → Option (Db × Result Assignment)
unfolding claim_next_task_tx claim_task_by_id
claim_next hook db project_id agent_id mode lease_id run_id now =
    Option.map (λ id. claim_task_by_id hook db id agent_id mode lease_id run_id now)
      (claim_next_task_tx db project_id now)
