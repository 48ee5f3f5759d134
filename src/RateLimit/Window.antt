-- ===== src/RateLimit/Window.antt =====
-- The limiter against the history of all admitted requests, which nothing is pruned from.
use cocopilot.Prelude.{
  ℕ, ◌≤◌, ◌≡◌, refl, String, ◌++◌, none, List, [], ◌∷◌, arith, keep, length, if◌then◌else◌, str_eq,
  eq_iff,
}
use cocopilot.Prelude.Int.{ℤ}
use cocopilot.Prelude.Dict.{lookup, Unique}
use cocopilot.RateLimit.{
  Limiter, rate_limit_key, in_window, pruned, or_empty, reaches, check_rate_limit, reset, cleanup,
}

-- Calls, each check with its limit, and with the time of the call.
pub data Call : Type 0 where
  checks : String → String → ℤ → ℕ → Call
  resets : String → String → Call
  cleans : ℕ → Call

unfoldable pub step : ℕ → Limiter → Call → Limiter
unfolding check_rate_limit reset cleanup
step window rl (checks project_id agent_id limit now) =
    (check_rate_limit rl project_id agent_id limit window now).0
step window rl (resets project_id agent_id) = reset rl project_id agent_id
step window rl (cleans now) = cleanup rl window now

unfoldable pub run : ℕ → Limiter → List Call → Limiter
run window rl [] = rl
run window rl (c ∷ cs) = run window (step window rl c) cs

-- All times at which a request was admitted for a key, since its last reset.
abbrev pub History : Type 0
History = String → List ℕ

abbrev pub changed : String → List ℕ → History → History
changed key ts h = λ k. if str_eq key k then ts else h k

unfoldable pub recent : ℕ → ℕ → List ℕ → ℕ
recent window now ts = length (keep (in_window window now) ts)

unfoldable pub history_step : ℕ → History → Call → History
unfolding recent
history_step window h (checks project_id agent_id limit now) =
    let key = rate_limit_key project_id agent_id in
    if reaches (recent window now (h key)) limit then h else changed key (h key ++ now ∷ []) h
history_step window h (resets project_id agent_id) =
    changed (rate_limit_key project_id agent_id) [] h
history_step window h (cleans now) = h

unfoldable pub history : ℕ → History → List Call → History
history window h [] = h
history window h (c ∷ cs) = history window (history_step window h c) cs

abbrev pub time_of : ℕ → Call → ℕ
time_of last (checks project_id agent_id limit now) = now
time_of last (resets project_id agent_id) = last
time_of last (cleans now) = now

-- The clock does not go back, from the given time on; and its last value.
abbrev pub InOrder : ℕ → List Call → Type 0
InOrder last [] = Unit
InOrder last (c ∷ cs) = (last ≤ time_of last c) × InOrder (time_of last c) cs

abbrev pub last_time : ℕ → List Call → ℕ
last_time last [] = last
last_time last (c ∷ cs) = last_time (time_of last c) cs

pub keep-pruned :
    (window last now : ℕ) (ts : List ℕ)
    → last ≤ now
    → keep (in_window window now) (pruned window last ts) ≡ keep (in_window window now) ts
unfolding pruned
keep-pruned window last now [] h = refl
keep-pruned window last now (t ∷ ts) h = ground (arith, keep-pruned window last now ts h)

lookup-cleanup-none :
    (rl : Limiter) (window now : ℕ) (key : String)
    → lookup key rl ≡ none
    → lookup key (cleanup rl window now) ≡ none
unfolding cleanup lookup
lookup-cleanup-none [] window now key h = refl
lookup-cleanup-none ((k, ts) ∷ rl) window now key h =
    ground (arith, lookup-cleanup-none rl window now key)

pub cleanup-Unique : (rl : Limiter) (window now : ℕ) → Unique rl → Unique (cleanup rl window now)
unfolding cleanup
cleanup-Unique [] window now h = tt
cleanup-Unique ((k, ts) ∷ rl) window now h =
    ground (arith, cleanup-Unique rl window now h.1, lookup-cleanup-none rl window now k h.0)

pub lookup-cleanup :
    (rl : Limiter) (window now : ℕ) (key : String)
    → Unique rl
    → or_empty (lookup key (cleanup rl window now)) ≡ pruned window now (or_empty (lookup key rl))
unfolding cleanup lookup
lookup-cleanup [] window now key h = unfold pruned in refl
lookup-cleanup ((k, ts) ∷ rl) window now key h = ground (
  arith,
  lookup-cleanup rl window now key h.1,
  lookup-cleanup-none rl window now k h.0,
  eq_iff k key,
)
