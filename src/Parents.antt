-- ===== src/Parents.antt =====
-- internal/dbstore/tasks.go: GetTaskParentChain. The loop is on fuel, one more than the number of
-- tasks. Missing tasks end the chain; other errors of the query are not modelled.
pub mod Walk
mod Examples
use cocopilot.Prelude.{
  ℕ, zero, suc, Bool, true, false, ◌||◌, Option, none, some, List, [], ◌∷◌, ◌++◌, length, ◌==◌,
  if◌then◌else◌,
}
use cocopilot.Dbstore.{Db}
use cocopilot.Dbstore.Tasks.{TaskV2, get_task_v2}
use cocopilot.Dependencies.{mem}

-- The loop from a task on: the chain without its reversal.
unfoldable pub chain_from : ℕ → Db → ℕ → List ℕ → List TaskV2
chain_from zero db current visited = []
chain_from (suc fuel) db current visited =
    if current == 0 || mem current visited then [] else elim (get_task_v2 db current) [
      | none ↦ []
      | some task ↦ elim task.parent_task_id [
        | none ↦ task ∷ []
        | some parent ↦ task ∷ chain_from fuel db parent (current ∷ visited)
      ]
    ]

abbrev pub reverse {ℓ} : {A : Type ℓ} → List A → List A
reverse [] = []
reverse (x ∷ xs) = reverse xs ++ x ∷ []

-- GetTaskParentChain: from the oldest ancestor to the parent.
unfoldable pub get_task_parent_chain : Db → Option ℕ → List TaskV2
unfolding chain_from
get_task_parent_chain db none = []
get_task_parent_chain db (some parent_id) =
    reverse (chain_from (suc (length db.tasks)) db parent_id [])
