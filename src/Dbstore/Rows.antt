-- ===== src/Dbstore/Rows.antt =====
-- What a statement with WHERE id = ? does to the rows that a later query finds.
use mathlib.Core.Option
use cocopilot.Prelude.{ℕ, ◌≡◌, Bool, ◌&&◌, some, List, [], ◌∷◌, map, arith, ◌==◌, if◌then◌else◌}
use cocopilot.Dbstore.{Db, TaskRow, find_task}
use cocopilot.Dbstore.Tasks.{update_task}

module _ (id : ℕ) (guard : TaskRow → Bool) (change : TaskRow → TaskRow)
    (keeps : (t : TaskRow) → (change t).id ≡ t.id) where
  find_task-map :
      (other : ℕ) (ts : List TaskRow)
      → find_task other (map (λ t. if t.id == id && guard t then change t else t) ts) ≡ (
          if other == id
          then Option.map (λ t. if guard t then change t else t) (find_task other ts)
          else find_task other ts)
  unfolding find_task
  find_task-map other [] = ground arith
  find_task-map other (t ∷ ts) = ground (arith, keeps t, find_task-map other ts)

  -- The row with the id is changed if the guard admits it, and no other row is.
  pub find_task-update_task :
      (other : ℕ) (db : Db)
      → find_task other (update_task id guard change db).tasks ≡ (
          if other == id
          then Option.map (λ t. if guard t then change t else t) (find_task other db.tasks)
          else find_task other db.tasks)
  unfolding update_task
  find_task-update_task other db = find_task-map other db.tasks

pub find_task-id : (id : ℕ) (ts : List TaskRow) (t : TaskRow) → find_task id ts ≡ some t → t.id ≡ id
unfolding find_task
find_task-id id [] t e = cc
find_task-id id (x ∷ xs) t e = ground (arith, find_task-id id xs t)
