-- ===== src/Parents/Examples.antt =====
-- Runs of the walk up the parents.
use cocopilot.Prelude.{ℕ, ◌≡◌, refl, some, List, [], ◌∷◌}
use cocopilot.Models.{TaskStatus}
use cocopilot.Dbstore.{Db, TaskRow}
use cocopilot.Dbstore.Tasks.{TaskV2, get_task_v2}
use cocopilot.Dbstore.Fixtures.{row, db_of}
use cocopilot.Parents.{reverse, get_task_parent_chain}
use cocopilot.Parents.Walk.{Walk, ids, Distinct, get_task_parent_chain-Walk}

abbrev child_of : ℕ → ℕ → TaskRow
child_of id parent = record (row id TaskStatus.not_picked) { parent_task_id = some parent }

abbrev family : Db
family = db_of (child_of 1 2 ∷ child_of 2 3 ∷ row 3 TaskStatus.not_picked ∷ [])

abbrev circle : Db
circle = db_of (child_of 1 2 ∷ child_of 2 3 ∷ child_of 3 1 ∷ [])

ancestors_in_order : ids (get_task_parent_chain family (some 2)) ≡ 3 ∷ 2 ∷ []
unfolding get_task_parent_chain get_task_v2
ancestors_in_order = refl

circle_ends : ids (get_task_parent_chain circle (some 2)) ≡ 1 ∷ 3 ∷ 2 ∷ []
unfolding get_task_parent_chain get_task_v2
circle_ends = refl

get_task_parent_chain-Walk_example :
    (chain : List TaskV2) × Walk circle 2 [] chain
    × Distinct (ids chain)
    × (get_task_parent_chain circle (some 2) ≡ reverse chain)
get_task_parent_chain-Walk_example = get_task_parent_chain-Walk circle 2
