-- ===== src/Dependencies/Orderly.antt =====
-- What it is for dependencies to be orderly, and the requests that add or delete one.
use cocopilot.Prelude.{
  ℕ, ◌<◌, ◌≡◌, refl, inl, inr, Bool, true, false, ◌||◌, ◌&&◌, not, arith, ◌==◌, if◌then◌else◌, if_P,
}
use cocopilot.Dbstore.{Db, EventHook, Result, ok, err}
use cocopilot.Dbstore.Creation.{next_id}
use cocopilot.Dependencies.{
  has_edge, creates_cycle, task_exists, create_task_dependency, delete_task_dependency, reply_to,
  invalid_argument, not_found, conflict, post_dependency,
}
use cocopilot.Dependencies.Reach.{IsAcyclic, snoc-IsAcyclic, keep-IsAcyclic}
use cocopilot.Dependencies.Decides.{creates_cycle_iff}
use cocopilot.Dependencies.Later.{
  Since, KeepsDependencies, emit_dependency_event-Since, create_task_dependency-Later,
}
use cocopilot.Dependencies.Fresh.{AllBelow, AllBelow-le, AllBelow-snoc, AllBelow-keep, exists-lt}

-- No circle, and dependencies only among ids that were given out.
pub record IsOrderly (db : Db) : Type 0 where
  pub acyclic : IsAcyclic db.task_dependencies
  pub below : AllBelow (next_id db.tasks) (next_id db.tasks) db.task_dependencies

pub Since-IsOrderly : (db db' : Db) → Since db db' → IsOrderly db → IsOrderly db'
Since-IsOrderly db db' later h = record {
  acyclic = rw later.dependencies h.acyclic;
  below = rw later.dependencies (AllBelow-le _ later.ids later.ids h.below);
}

reply_to-db : (r : Db × Result (ℕ × ℕ)) → (reply_to r).0 ≡ r.0
reply_to-db (db, ok d) = refl
reply_to-db (db, err e) = refl

create-IsOrderly :
    (hook : EventHook)
    → KeepsDependencies hook
    → (db : Db) (task_id depends_on now : ℕ) → task_id < next_id db.tasks
    → depends_on < next_id db.tasks
    → creates_cycle db.task_dependencies task_id depends_on ≡ false
    → IsOrderly db
    → IsOrderly (create_task_dependency hook db task_id depends_on now).0
create-IsOrderly hook keeps db task_id depends_on now t d no_cycle h =
    elim (create_task_dependency-Later hook keeps db task_id depends_on now) [
      | inl same ↦ Since-IsOrderly db _ same h
      | inr more ↦
          let check = creates_cycle_iff db.task_dependencies task_id depends_on in
          record {
            acyclic = rw more.dependencies (
                snoc-IsAcyclic db.task_dependencies task_id depends_on h.acyclic
                  (λ same. cc (check.1 (inl same))) (λ r. cc (check.1 (inr r))));
            below = rw more.dependencies (
                AllBelow-le _ more.ids more.ids
                  (AllBelow-snoc db.task_dependencies task_id depends_on t d h.below));
          }
    ]

-- A check that leaves the database alone where it refuses.
pub refused_or {κ} :
    {A : Type 0} (P : Db → Type κ) (b : Bool) (db : Db) (a : A) (last : Db × A)
    → P db
    → (b ≡ false → P last.0)
    → P (if◌then◌else◌ {A = Db × A} b (db, a) last).0
refused_or P true db a last h k = h
refused_or P false db a last h k = k refl

both_exist :
    (a b : ℕ) (db : Db)
    → not (task_exists db a && task_exists db b) ≡ false
    → (a < next_id db.tasks) × (b < next_id db.tasks)
both_exist a b db e = (exists-lt a db.tasks (ground arith), exists-lt b db.tasks (ground arith))

pub post_dependency-IsOrderly :
    (hook : EventHook)
    → KeepsDependencies hook
    → (db : Db) (task_id depends_on now : ℕ) → IsOrderly db
    → IsOrderly (post_dependency hook db task_id depends_on now).0
unfolding post_dependency
post_dependency-IsOrderly hook keeps db task_id depends_on now h =
    let last = reply_to (create_task_dependency hook db task_id depends_on now) in
    let no_circle =
      if creates_cycle db.task_dependencies task_id depends_on then (db, conflict) else last in
    let found =
      if not (task_exists db task_id && task_exists db depends_on)
      then (db, not_found)
      else no_circle in
    refused_or IsOrderly (task_id == 0 || depends_on == 0 || depends_on == task_id) db
      invalid_argument found h
      (λ _.
        refused_or IsOrderly (not (task_exists db task_id && task_exists db depends_on)) db
          not_found no_circle h
          (λ there.
            refused_or IsOrderly (creates_cycle db.task_dependencies task_id depends_on) db conflict
              last h
              (λ no_cycle.
                let (t, d) = both_exist task_id depends_on db there in
                rw (reply_to-db (create_task_dependency hook db task_id depends_on now))
                  (create-IsOrderly hook keeps db task_id depends_on now t d no_cycle h))))

pub delete-IsOrderly :
    (hook : EventHook)
    → KeepsDependencies hook
    → (db : Db) (task_id depends_on now : ℕ) → IsOrderly db
    → IsOrderly (delete_task_dependency hook db task_id depends_on now).0
unfolding delete_task_dependency
delete-IsOrderly hook keeps db task_id depends_on now h =
    let left : IsOrderly _ = record {
      acyclic = keep-IsAcyclic _ db.task_dependencies h.acyclic;
      below = AllBelow-keep _ db.task_dependencies h.below;
    } in
    let P = λ (p : Db × Bool). IsOrderly p.0 in
    if_P P (has_edge task_id depends_on db.task_dependencies) _ _
      (λ _.
        Since-IsOrderly _ _ (emit_dependency_event-Since hook keeps _ _ task_id depends_on now)
          left)
      (λ _. left)
