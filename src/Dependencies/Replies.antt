-- ===== src/Dependencies/Replies.antt =====
-- When a dependency is created.
use cocopilot.Prelude.{ℕ, ◌≡◌, ◌≢◌, ◌↔◌, sym, inl, inr, true, false, arith, Bool-cases}
use cocopilot.Dbstore.{Db, EventHook}
use cocopilot.Dependencies.{
  has_edge, creates_cycle, create_task_dependency, task_exists, created, post_dependency,
}
use cocopilot.Dependencies.Reach.{Reach}
use cocopilot.Dependencies.Decides.{creates_cycle_iff}

-- The two tasks are there, and the first may depend on the second.
pub record IsAccepted (db : Db) (task_id depends_on : ℕ) : Type 0 where
  pub task_given : task_id ≢ 0
  pub other_given : depends_on ≢ 0
  pub task_there : task_exists db task_id ≡ true
  pub other_there : task_exists db depends_on ≡ true
  pub different : task_id ≢ depends_on
  pub no_cycle : Reach db.task_dependencies depends_on task_id → ⊥
  pub new : has_edge task_id depends_on db.task_dependencies ≡ false

tests :
    (hook : EventHook) (db : Db) (task_id depends_on now : ℕ)
    → ((post_dependency hook db task_id depends_on now).1 ≡ created (task_id, depends_on)) ↔ (
        (task_id ≢ 0)
        × (depends_on ≢ 0)
        × (depends_on ≢ task_id)
        × (task_exists db task_id ≡ true)
        × (task_exists db depends_on ≡ true)
        × (creates_cycle db.task_dependencies task_id depends_on ≡ false)
        × (has_edge task_id depends_on db.task_dependencies ≡ false))
unfolding post_dependency create_task_dependency
tests hook db task_id depends_on now = ground arith

-- A request creates its dependency exactly when both tasks are given and exist, they differ, the
-- second does not already depend on the first, directly or through others, and the dependency is new.
pub post_dependency-created_iff :
    (hook : EventHook) (db : Db) (task_id depends_on now : ℕ)
    → ((post_dependency hook db task_id depends_on now).1 ≡ created (task_id, depends_on))
      ↔ IsAccepted db task_id depends_on
post_dependency-created_iff hook db task_id depends_on now =
    let t = tests hook db task_id depends_on now in
    let check = creates_cycle_iff db.task_dependencies task_id depends_on in
    (
      (λ h.
          let (a, b, c, d, e, f, g) = t.0 h in
          record {
            task_given = a;
            other_given = b;
            task_there = d;
            other_there = e;
            different = λ same. c (sym same);
            no_cycle = λ r. cc (check.1 (inr r));
            new = g;
          }),
      (λ h. t.1 (
        h.task_given,
        h.other_given,
        (λ same. h.different (sym same)),
        h.task_there,
        h.other_there,
        elim (Bool-cases (creates_cycle db.task_dependencies task_id depends_on)) [
          | inl cycle ↦ elim (check.0 cycle) [
            | inl e ↦ absurd (h.different e)
            | inr r ↦ absurd (h.no_cycle r)
          ]
          | inr clear ↦ clear
        ],
        h.new,
      )),
    )
