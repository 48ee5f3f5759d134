-- ===== src/ClaimNext/Choice.antt =====
-- What the query for the next task picks.
use mathlib.Core.Option
use cocopilot.Prelude.{ℕ, ◌≡◌, ◌⊎◌, false, Option, none, some, List, [], All, String}
use mathlib.Core.List.{Memᴰ}
use cocopilot.Dbstore.{Db, TaskRow}
use cocopilot.ClaimNext.Claimable.{IsClaimable, Precedes}
use cocopilot.ClaimNext.{before}

-- What `pick` returns: nothing for no rows, or a row that none comes before.
Best : (TaskRow → ℕ) → List TaskRow → Option TaskRow → Type 0
Best bucket ts none = ts ≡ []
Best bucket ts (some m) = Memᴰ m ts × All (λ x. before bucket x m ≡ false) ts

-- What the next task is, apart from how the query finds it.
IsNext : Db → String → ℕ → Option ℕ → Type 0
IsNext db project_id now next =
    ((next ≡ none) × All (λ x. IsClaimable db project_id now x → ⊥) db.tasks)
    ⊎ ((m : TaskRow) × (next ≡ some m.id)
        × Memᴰ m db.tasks
        × IsClaimable db project_id now m
        × All (λ x. IsClaimable db project_id now x → Precedes m x) db.tasks)
