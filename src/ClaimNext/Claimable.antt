-- ===== src/ClaimNext/Claimable.antt =====
-- Which tasks may be claimed and which of two goes first, written out apart from the query.
use cocopilot.Prelude.{
  ℕ, ◌<◌, ◌≤◌, ◌≡◌, ◌↔◌, refl, ◌⊎◌, inl, inr, String, true, false, not, ◌&&◌, Option, none, some,
  List, [], ◌∷◌, arith, any, Bool-cases, ltb, All, ◌==◌, eq_iff, ap,
}
use cocopilot.Prelude.Int.{ℤ, ltb_ℤ}
use cocopilot.Models.{TaskStatus}
use cocopilot.Timestamps.{stamp_ltb, is_stale}
use cocopilot.Dbstore.{Db, TaskRow, Lease}
use cocopilot.Dbstore.Leases.{expired}
use cocopilot.ClaimNext.{
  claimable_status, is_approved, eligible, status_bucket, by_key, by_priority, before, no_caps,
}

-- No lease of the task runs past the time.
abbrev pub IsUnleased : ℕ → ℕ → List Lease → Type 0
IsUnleased now task_id = All (λ l. l.task_id ≡ task_id → stamp_ltb now l.expires_at ≡ false)

-- A task of the project that nobody holds: it waits or is in progress, and it is approved if it must be.
pub record IsClaimable (db : Db) (project_id : String) (now : ℕ) (t : TaskRow) : Type 0 where
  pub of_project : t.project_id ≡ project_id
  pub open_status : (t.status ≡ TaskStatus.not_picked) ⊎ (t.status ≡ TaskStatus.in_progress)
  pub unleased : IsUnleased now t.id db.leases
  pub approved : t.requires_approval ≡ true → t.approval_status ≡ some "approved"

-- Waiting tasks go before those in progress; among these the higher priority goes first, and of
-- equal priorities the smaller id.
unfoldable pub Precedes : TaskRow → TaskRow → Type 0
Precedes a b =
    ((a.status ≡ TaskStatus.not_picked) × ((b.status ≡ TaskStatus.not_picked) → ⊥))
    ⊎ (((a.status ≡ TaskStatus.not_picked) ↔ (b.status ≡ TaskStatus.not_picked))
        × ((ltb_ℤ b.priority a.priority ≡ true)
            ⊎ ((ltb_ℤ a.priority b.priority ≡ false) × (a.id ≤ b.id))))

claimable_status_iff :
    (s : TaskStatus)
    → (claimable_status s ≡ true) ↔ ((s ≡ TaskStatus.not_picked) ⊎ (s ≡ TaskStatus.in_progress))
claimable_status_iff TaskStatus.not_picked = ((λ _. inl refl), (λ _. refl))
claimable_status_iff TaskStatus.in_progress = ((λ _. inr refl), (λ _. refl))
claimable_status_iff TaskStatus.complete = ((λ h. cc), (λ h. ground arith))
claimable_status_iff TaskStatus.failed = ((λ h. cc), (λ h. ground arith))

is_approved_iff : (o : Option String) → (is_approved o ≡ true) ↔ (o ≡ some "approved")
is_approved_iff none = ((λ h. cc), (λ h. cc))
is_approved_iff (some s) =
    ((λ h. ap some ((eq_iff s "approved").0 h)), (λ h. ground (arith, eq_iff s "approved")))

IsUnleased-iff :
    (now task_id : ℕ) (ls : List Lease)
    → (any (λ l. l.task_id == task_id && not (expired now l)) ls ≡ false)
      ↔ IsUnleased now task_id ls
unfolding is_stale
IsUnleased-iff now task_id [] = ((λ _. tt), (λ _. refl))
IsUnleased-iff now task_id (l ∷ ls) =
    let rest = IsUnleased-iff now task_id ls in
    (
      (λ h. ((λ same. ground arith), rest.0 (ground arith))),
      (λ h. let tail = rest.1 h.1 in let head = h.0 in ground arith),
    )

pub eligible_iff :
    (db : Db) (project_id : String) (now : ℕ) (t : TaskRow)
    → (eligible db project_id now t ≡ true) ↔ IsClaimable db project_id now t
unfolding eligible
eligible_iff db project_id now t =
    let project = eq_iff t.project_id project_id in
    let status = claimable_status_iff t.status in
    let lease = IsUnleased-iff now t.id db.leases in
    let approval = is_approved_iff t.approval_status in
    (
      (λ h. record {
        of_project = project.0 (ground arith);
        open_status = status.0 (ground arith);
        unleased = lease.0 (ground arith);
        approved = λ must. approval.0 (ground arith);
      }),
      (λ c.
          let p = project.1 c.of_project in
          let s = status.1 c.open_status in
          let l = lease.1 c.unleased in
          let a : t.requires_approval ≡ true → is_approved t.approval_status ≡ true =
            λ must. approval.1 (c.approved must) in
          ground arith),
    )

bucket_by_status :
    (t : TaskRow) (s : TaskStatus)
    → t.status ≡ s
    → ((t.status ≡ TaskStatus.not_picked) × (status_bucket t ≡ 0))
      ⊎ (((t.status ≡ TaskStatus.not_picked) → ⊥) × (status_bucket t ≡ 1))
bucket_by_status t TaskStatus.not_picked e = inl (e, rw e refl)
bucket_by_status t TaskStatus.in_progress e = inr ((λ f. cc), rw e refl)
bucket_by_status t TaskStatus.complete e = inr ((λ f. cc), rw e refl)
bucket_by_status t TaskStatus.failed e = inr ((λ f. cc), rw e refl)

waits-cases :
    (t : TaskRow)
    → ((t.status ≡ TaskStatus.not_picked) × (status_bucket t ≡ 0))
      ⊎ (((t.status ≡ TaskStatus.not_picked) → ⊥) × (status_bucket t ≡ 1))
waits-cases t = bucket_by_status t t.status refl

by_priority-cases :
    (x y : ℤ) (i j : ℕ)
    → by_priority x y (ltb i j) ≡ false
    → (ltb_ℤ x y ≡ true) ⊎ ((ltb_ℤ y x ≡ false) × (j ≤ i))
unfolding by_priority
by_priority-cases x y i j h = elim (Bool-cases (ltb_ℤ x y)) [
  | inl more ↦ inl more
  | inr less ↦ inr (ground arith, ground arith)
]

by_bucket-cases :
    (x y i j : ℕ) (p q : ℤ)
    → by_key x y (by_key 0 0 (by_priority p q (ltb i j))) ≡ false
    → (y < x) ⊎ ((y ≡ x) × (by_priority p q (ltb i j) ≡ false))
unfolding by_key
by_bucket-cases x y i j p q h = elim (Bool-cases (ltb y x)) [
  | inl less ↦ inl (ground arith)
  | inr more ↦ inr (ground arith, ground arith)
]

pub not_before-Precedes : (a b : TaskRow) → before no_caps b a ≡ false → Precedes a b
unfolding before Precedes
not_before-Precedes a b h =
    let split =
      by_bucket-cases (status_bucket b) (status_bucket a) b.id a.id b.priority a.priority h in
    elim (waits-cases a) [
      | inl (a_waits, a_key) ↦ elim (waits-cases b) [
        | inl (b_waits, b_key) ↦ inr (
          ((λ _. b_waits), (λ _. a_waits)),
          by_priority-cases b.priority a.priority b.id a.id (ground arith),
        )
        | inr (b_not, b_key) ↦ inl (a_waits, b_not)
      ]
      | inr (a_not, a_key) ↦ elim (waits-cases b) [
        | inl (b_waits, b_key) ↦ absurd (ground arith)
        | inr (b_not, b_key) ↦ inr (
          ((λ e. absurd (a_not e)), (λ e. absurd (b_not e))),
          by_priority-cases b.priority a.priority b.id a.id (ground arith),
        )
      ]
    ]
