-- ===== src/Dbstore/Ids.antt =====
-- The ids that were given out: an insertion takes the next one, and no statement gives one back.
use cocopilot.Prelude.{
  ℕ, suc, ◌≤◌, ◌≡◌, refl, Bool, List, [], ◌∷◌, ◌++◌, arith, map, ◌==◌, ◌&&◌, if◌then◌else◌,
}
use cocopilot.Dbstore.{Db, TaskRow}
use cocopilot.Dbstore.Tasks.{update_task}
use cocopilot.Dbstore.Creation.{next_id}

pub next_id-append_old : (ts : List TaskRow) (t : TaskRow) → next_id ts ≤ next_id (ts ++ t ∷ [])
unfolding next_id
next_id-append_old [] t = ground arith
next_id-append_old (x ∷ xs) t = ground (arith, next_id-append_old xs t)

pub next_id-append_new : (ts : List TaskRow) (t : TaskRow) → suc t.id ≤ next_id (ts ++ t ∷ [])
unfolding next_id
next_id-append_new [] t = ground arith
next_id-append_new (x ∷ xs) t = ground (arith, next_id-append_new xs t)

module _ (id : ℕ) (guard : TaskRow → Bool) (change : TaskRow → TaskRow)
    (keeps : (t : TaskRow) → (change t).id ≡ t.id) where
  next_id-map :
      (ts : List TaskRow)
      → next_id (map (λ t. if t.id == id && guard t then change t else t) ts) ≡ next_id ts
  unfolding next_id
  next_id-map [] = refl
  next_id-map (t ∷ ts) = ground (arith, next_id-map ts, keeps t)

  pub next_id-update_task :
      (db : Db) → next_id (update_task id guard change db).tasks ≡ next_id db.tasks
  unfolding update_task
  next_id-update_task db = next_id-map db.tasks
