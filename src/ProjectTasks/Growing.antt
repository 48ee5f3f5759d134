-- ===== src/ProjectTasks/Growing.antt =====
-- The dependencies while those of a new task are added.
use cocopilot.Prelude.{
  ℕ, suc, ◌≤◌, ◌<◌, ◌≡◌, refl, inl, inr, Bool, true, false, some, List, [], ◌∷◌, arith, All, if_P,
}
use cocopilot.Prelude.Int.{ℤ, pos_part, ltb_ℤ, pos}
use cocopilot.Dbstore.{Db, TaskRow, EventHook}
use cocopilot.Dbstore.Tasks.{TaskV2, update_task, always}
use cocopilot.Dbstore.Creation.{next_id, insert_task}
use cocopilot.Dbstore.Ids.{next_id-append_new, next_id-update_task}
use cocopilot.ProjectTasks.{add_dependencies, ask_approval}
use cocopilot.Dependencies.{create_task_dependency}
use cocopilot.Dependencies.Reach.{IsAcyclic}
use cocopilot.Dependencies.Later.{
  Since, Since-refl, KeepsDependencies, create_task_dependency-Later,
}
use cocopilot.Dependencies.Fresh.{AllBelow, AllBelow-le, AllBelow-snoc, fresh-IsAcyclic}
use cocopilot.Dependencies.Orderly.{IsOrderly}

-- No number of the list is that of a task that is still to come.
abbrev pub NamesPast : ℕ → List ℤ → Type 0
NamesPast n = All (λ d. pos_part d < n)

pub NamesPast-le : (n m : ℕ) (ds : List ℤ) → n ≤ m → NamesPast n ds → NamesPast m ds
NamesPast-le n m [] h p = tt
NamesPast-le n m (d ∷ ds) h p = (omega arith, NamesPast-le n m ds h p.1)

-- While the dependencies of the new task are added, nothing waits for it.
pub record IsGrowing (id : ℕ) (db : Db) : Type 0 where
  pub acyclic : IsAcyclic db.task_dependencies
  pub below : AllBelow (suc id) id db.task_dependencies
  pub ids : suc id ≤ next_id db.tasks

create-IsGrowing :
    (hook : EventHook)
    → KeepsDependencies hook
    → (db : Db) (id depends_on now : ℕ) → depends_on < id
    → IsGrowing id db
    → IsGrowing id (create_task_dependency hook db id depends_on now).0
create-IsGrowing hook keeps db id depends_on now past h =
    elim (create_task_dependency-Later hook keeps db id depends_on now) [
      | inl same ↦
          let later = same.ids in
          let before = h.ids in
          record {
            acyclic = rw same.dependencies h.acyclic;
            below = rw same.dependencies h.below;
            ids = omega arith;
          }
      | inr more ↦
          let later = more.ids in
          let before = h.ids in
          record {
            acyclic = rw more.dependencies (
                fresh-IsAcyclic (suc id) id db.task_dependencies depends_on h.below past h.acyclic);
            below =
                rw more.dependencies
                  (AllBelow-snoc db.task_dependencies id depends_on (omega arith) past h.below);
            ids = omega arith;
          }
    ]

pub add_dependencies-IsGrowing :
    (hook : EventHook)
    → KeepsDependencies hook
    → (db : Db) (id : ℕ) (ds : List ℤ) (now : ℕ) → NamesPast id ds
    → IsGrowing id db
    → IsGrowing id (add_dependencies hook db id ds now)
unfolding add_dependencies
add_dependencies-IsGrowing hook keeps db id [] now past h = h
add_dependencies-IsGrowing hook keeps db id (d ∷ ds) now past h =
    let made = (create_task_dependency hook db id (pos_part d) now).0 in
    if_P (IsGrowing id) (ltb_ℤ (pos 0) d) (add_dependencies hook made id ds now)
      (add_dependencies hook db id ds now)
      (λ _.
        add_dependencies-IsGrowing hook keeps made id ds now past.1
          (create-IsGrowing hook keeps db id (pos_part d) now past.0 h))
      (λ _. add_dependencies-IsGrowing hook keeps db id ds now past.1 h)

pub ask_approval-Since :
    (must : Bool) (db : Db) (task : TaskV2)
    → Since db (ask_approval must db task).0 × ((ask_approval must db task).1.id ≡ task.id)
ask_approval-Since false db task = (Since-refl db, refl)
ask_approval-Since true db task =
    let same =
      next_id-update_task task.id always
        (λ t. record t { requires_approval = true; approval_status = some "pending_approval" })
        (λ t. refl) db in
    (record { dependencies = unfold update_task in refl; ids = omega arith }, refl)

-- The new row takes the next id.
pub insert_task-IsGrowing :
    (db : Db) (row : TaskRow)
    → row.id ≡ next_id db.tasks
    → IsOrderly db
    → IsGrowing row.id (insert_task db row)
insert_task-IsGrowing db row new h = record {
  acyclic = h.acyclic;
  below = AllBelow-le db.task_dependencies (omega arith) (omega arith) h.below;
  ids = next_id-append_new db.tasks row;
}

pub Since-IsGrowing : (id : ℕ) (a b : Db) → Since a b → IsGrowing id a → IsGrowing id b
Since-IsGrowing id a b later h =
    let before = h.ids in
    let after = later.ids in
    record {
      acyclic = rw later.dependencies h.acyclic;
      below = rw later.dependencies h.below;
      ids = omega arith;
    }

pub IsGrowing-IsOrderly : (id : ℕ) (db : Db) → IsGrowing id db → IsOrderly db
IsGrowing-IsOrderly id db h =
    let ids = h.ids in
    record {
      acyclic = h.acyclic;
      below = AllBelow-le db.task_dependencies (omega arith) (omega arith) h.below;
    }
