-- ===== src/RateLimit.antt =====
-- internal/ratelimit/ratelimit.go: the sliding-window rate limiter. The mutex makes each call one
-- step; NowFunc's value is the argument `now`, a count of nanoseconds. `t.Before(now.Add(-window))` is written
-- `t + window < now`, so that nothing is subtracted. A window is not negative.
pub mod Window
pub mod Refines
pub mod Bounds
mod Examples
use cocopilot.Prelude.{
  ℕ, ◌+◌, String, ◌++◌, Bool, true, false, not, Option, none, some, List, [], ◌∷◌, keep, length,
  ltb, leb, if◌then◌else◌,
}
use cocopilot.Prelude.Int.{ℤ, pos, negsuc}
use cocopilot.Prelude.Dict.{Dict, lookup, insert, delete}
use Prim.Native.String.{◌++◌ as str_append}

-- The entries of SlidingWindowRateLimiter: the timestamps of each key.
abbrev pub Limiter : Type 0
Limiter = Dict (List ℕ)

abbrev pub rate_limit_key : String → String → String
rate_limit_key project_id agent_id = str_append project_id (str_append ":" agent_id)

abbrev pub in_window : ℕ → ℕ → ℕ → Bool
in_window window now t = not (ltb (t + window) now)

-- The loop that prunes.
unfoldable pub pruned : ℕ → ℕ → List ℕ → List ℕ
pruned window now ts = keep (in_window window now) ts

abbrev pub or_empty : Option (List ℕ) → List ℕ
or_empty none = []
or_empty (some ts) = ts

-- `len(pruned) >= limit`, where the limit may be negative.
abbrev pub reaches : ℕ → ℤ → Bool
reaches n (pos limit) = leb limit n
reaches n (negsuc limit) = true

-- CheckRateLimit
unfoldable pub check_rate_limit : Limiter → String → String → ℤ → ℕ → ℕ → Limiter × Bool
unfolding pruned
check_rate_limit rl project_id agent_id limit window now =
    let key = rate_limit_key project_id agent_id in
    let ts = pruned window now (or_empty (lookup key rl)) in
    if reaches (length ts) limit
    then (insert key ts rl, false)
    else (insert key (ts ++ now ∷ []) rl, true)

-- Reset
unfoldable pub reset : Limiter → String → String → Limiter
reset rl project_id agent_id = delete (rate_limit_key project_id agent_id) rl

-- The counting loop of CountInWindow.
unfoldable pub count_from : ℕ → ℕ → List ℕ → ℕ → ℕ
count_from window now [] n = n
count_from window now (t ∷ ts) n =
    count_from window now ts (if in_window window now t then n + 1 else n)

unfoldable pub count_in_window : Limiter → String → String → ℕ → ℕ → ℕ
unfolding count_from
count_in_window rl project_id agent_id window now =
    elim (lookup (rate_limit_key project_id agent_id) rl) [
      | none ↦ 0
      | some ts ↦ count_from window now ts 0
    ]

abbrev unless_empty : String → List ℕ → Limiter → Limiter
unless_empty key [] rest = rest
unless_empty key (t ∷ ts) rest = (key, t ∷ ts) ∷ rest

-- Cleanup
unfoldable pub cleanup : Limiter → ℕ → ℕ → Limiter
unfolding pruned
cleanup [] window now = []
cleanup ((key, ts) ∷ rl) window now =
    unless_empty key (pruned window now ts) (cleanup rl window now)
