-- ===== src/Dependencies/Later.antt =====
-- What creating and deleting a dependency, and the events of it, do to the rows and the next id.
use cocopilot.Prelude.{
  ℕ, ◌≤◌, ◌≡◌, refl, ◌∙◌, ◌⊎◌, inl, inr, ◌||◌, Option, none, some, [], ◌∷◌, ◌++◌, String, arith,
  ◌==◌, Bool-cases,
}
use cocopilot.Prelude.Dict.{Dict}
use cocopilot.Models.{is_terminal}
use cocopilot.Dbstore.{Db, Event, EventHook, EntityId, Value, create_event}
use cocopilot.Dbstore.Tasks.{TaskV2}
use cocopilot.Dbstore.Creation.{next_id}
use cocopilot.Dependencies.{
  Edges, has_edge, emit_dependency_event, emit_blocked, create_task_dependency,
}

-- A later database with the given dependencies: no id that was given out is free again.
pub record Later (es : Edges) (n : ℕ) (db : Db) : Type 0 where
  pub dependencies : db.task_dependencies ≡ es
  pub ids : n ≤ next_id db.tasks

abbrev pub Since : Db → Db → Type 0
Since db db' = Later db.task_dependencies (next_id db.tasks) db'

pub Since-refl : (db : Db) → Since db db
Since-refl db = record { dependencies = refl; ids = omega arith }

pub Later-Since : {es : Edges} {n : ℕ} {a b : Db} → Later es n a → Since a b → Later es n b
Later-Since p q = record {
  dependencies = q.dependencies ∙ p.dependencies;
  ids = let first = p.ids in let second = q.ids in omega arith;
}

-- The hook leaves the dependencies alone and deletes no task, as the server's automation does.
abbrev pub KeepsDependencies : EventHook → Type 0
KeepsDependencies hook = (db : Db) (e : Event) → Since db (hook db e)

pub create_event-Since :
    (hook : EventHook)
    → KeepsDependencies hook
    → (db : Db) (project kind entity : String) (id : EntityId) (payload : Dict Value) (now : ℕ)
    → Since db (create_event hook db project kind entity id payload now)
unfolding create_event
create_event-Since hook keeps db project kind entity id payload now =
    let after = keeps _ _ in record { dependencies = after.dependencies; ids = after.ids }

pub emit_dependency_event-Since :
    (hook : EventHook)
    → KeepsDependencies hook
    → (db : Db) (kind : String) (task_id depends_on now : ℕ)
    → Since db (emit_dependency_event hook db kind task_id depends_on now)
unfolding emit_dependency_event
emit_dependency_event-Since hook keeps db kind task_id depends_on now =
    create_event-Since hook keeps db _ _ _ _ _ now

emit_blocked-Since :
    (hook : EventHook)
    → KeepsDependencies hook
    → (db : Db) (task_id depends_on now : ℕ) (o : Option TaskV2)
    → Since db (emit_blocked hook db task_id depends_on now o)
emit_blocked-Since hook keeps db task_id depends_on now none = Since-refl db
emit_blocked-Since hook keeps db task_id depends_on now (some other) =
    elim (Bool-cases (is_terminal other.status_v2)) [
      | inl done ↦ rw (done, emit_blocked) (Since-refl db)
      | inr waits ↦ rw (waits, emit_blocked) (create_event-Since hook keeps db _ _ _ _ _ now)
    ]

-- The dependencies after a creation: one more, of two different tasks, unless it was refused.
pub create_task_dependency-Later :
    (hook : EventHook)
    → KeepsDependencies hook
    → (db : Db) (task_id depends_on now : ℕ)
    → let made = (create_task_dependency hook db task_id depends_on now).0 in
      Since db made
      ⊎ Later (db.task_dependencies ++ (task_id, depends_on) ∷ []) (next_id db.tasks) made
unfolding create_task_dependency
create_task_dependency-Later hook keeps db task_id depends_on now =
    elim (Bool-cases (has_edge task_id depends_on db.task_dependencies || task_id == depends_on)) [
      | inl refused ↦ rw (refused, create_task_dependency) (inl (Since-refl db))
      | inr free ↦
          rw (free, create_task_dependency)
            (inr (
              Later-Since (emit_dependency_event-Since hook keeps _ _ task_id depends_on now)
                (emit_blocked-Since hook keeps _ task_id depends_on now _)))
    ]
