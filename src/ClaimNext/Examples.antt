-- ===== src/ClaimNext/Examples.antt =====
-- The next task of a small board.
use cocopilot.Prelude.{◌≡◌, refl, true, some, [], ◌∷◌}
use cocopilot.Dbstore.{Db}
use cocopilot.Models.{TaskStatus}
use cocopilot.Prelude.Int.{pos}
use cocopilot.Dbstore.Fixtures.{row, db_of, two_tasks}
use cocopilot.ClaimNext.{before, by_key, by_priority, claim_next_task_tx}

first_is_next : claim_next_task_tx two_tasks "p" 7 ≡ some 1
unfolding claim_next_task_tx
first_is_next = refl

-- A task in progress of high priority, a waiting one that is not approved, and two that wait.
abbrev board : Db
board = db_of (
    record (row 1 TaskStatus.in_progress) { priority = pos 9 }
    ∷ record (row 2 TaskStatus.not_picked) { priority = pos 8; requires_approval = true }
    ∷ record (row 3 TaskStatus.not_picked) { priority = pos 1 }
    ∷ record (row 4 TaskStatus.not_picked) { priority = pos 5 }
    ∷ [])

fourth_is_next : claim_next_task_tx board "p" 7 ≡ some 4
unfolding claim_next_task_tx before by_key by_priority
fourth_is_next = refl
