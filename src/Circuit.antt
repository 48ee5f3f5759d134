-- ===== src/Circuit.antt =====
-- server/automation.go: the circuit breaker of the automation rules. Each method takes the clock's
-- value as `now`, in nanoseconds, and returns the breaker with its result. The mutex makes each call
-- one step. `circuitState` has no value but its three constants, so the `default` case of
-- `AllowExecution` is not reached. Counters are unbounded.
pub mod Counts
pub mod Probe
mod Examples
use cocopilot.Prelude.{
  ℕ, zero, suc, ◌+◌, ◌*◌, String, Bool, true, false, ◌&&◌, Option, none, some, List, [], ◌∷◌, leb,
  if◌then◌else◌,
}
use cocopilot.Prelude.Int.{ℤ, pos, negsuc}
use cocopilot.Prelude.Dict.{Dict, lookup, insert}

pub data CircuitState : Type 0 where
  closed opened half_open : CircuitState

pub record CircuitEntry : Type 0 where
  pub state : CircuitState
  pub consecutive_failures : ℕ
  pub last_failure_time : ℕ
  pub opened_at : ℕ

pub record Breaker : Type 0 where
  pub states : Dict CircuitEntry
  pub max_failures : ℕ
  pub cooldown : ℕ

-- A limit that is not positive falls back to the default.
abbrev positive_or : ℕ → ℤ → ℕ
positive_or d (pos zero) = d
positive_or d (pos (suc n)) = suc n
positive_or d (negsuc n) = d

unfoldable pub new_breaker : ℤ → ℤ → Breaker
new_breaker max_failures cooldown = record {
  states = [];
  max_failures = positive_or 5 max_failures;
  cooldown = positive_or 300000000000 cooldown;
}

abbrev pub fresh_entry : CircuitEntry
fresh_entry = record {
  state = closed;
  consecutive_failures = 0;
  last_failure_time = 0;
  opened_at = 0;
}

abbrev or_fresh : Option CircuitEntry → CircuitEntry
or_fresh none = fresh_entry
or_fresh (some e) = e

-- The entry that `getOrCreate` returns. Each caller stores it back, changed or not.
unfoldable pub entry_of : Breaker → String → CircuitEntry
entry_of cb rule = or_fresh (lookup rule cb.states)

unfoldable pub store_entry : Breaker → String → CircuitEntry → Breaker
store_entry cb rule e = record cb { states = insert rule e cb.states }

-- What each method does to the entry of its rule.
unfoldable pub allow_entry : ℕ → ℕ → CircuitEntry → CircuitEntry × Bool
allow_entry cooldown now e = elim e.state [
  | closed ↦ (e, true)
  | opened ↦
      if leb (e.opened_at + cooldown) now
      then (record e { state = half_open }, true)
      else (e, false)
  | half_open ↦ (e, false)
]

unfoldable pub success_entry : CircuitEntry → CircuitEntry
success_entry e = record e { state = closed; consecutive_failures = 0 }

unfoldable pub failure_entry : ℕ → ℕ → CircuitEntry → CircuitEntry × Bool
failure_entry max now e =
    let n = e.consecutive_failures + 1 in
    let counted = record e { consecutive_failures = n; last_failure_time = now } in
    let tripped = record counted { state = opened; opened_at = now } in
    elim e.state [
      | closed ↦ if leb max n then (tripped, true) else (counted, false)
      | opened ↦ (counted, false)
      | half_open ↦ (tripped, true)
    ]

unfoldable pub state_entry : ℕ → ℕ → CircuitEntry → CircuitEntry
state_entry cooldown now e = elim e.state [
  | closed ↦ e
  | opened ↦ if leb (e.opened_at + cooldown) now then record e { state = half_open } else e
  | half_open ↦ e
]

unfoldable pub allow_execution : Breaker → String → ℕ → Breaker × Bool
unfolding allow_entry store_entry
allow_execution cb rule now =
    let (e, allowed) = allow_entry cb.cooldown now (entry_of cb rule) in
    (store_entry cb rule e, allowed)

unfoldable pub record_success : Breaker → String → Breaker
unfolding success_entry store_entry
record_success cb rule = store_entry cb rule (success_entry (entry_of cb rule))

unfoldable pub record_failure : Breaker → String → ℕ → Breaker × Bool
unfolding failure_entry store_entry
record_failure cb rule now =
    let (e, just_opened) = failure_entry cb.max_failures now (entry_of cb rule) in
    (store_entry cb rule e, just_opened)

unfoldable pub get_state : Breaker → String → ℕ → Breaker × CircuitState
unfolding state_entry store_entry
get_state cb rule now =
    let e = state_entry cb.cooldown now (entry_of cb rule) in (store_entry cb rule e, e.state)

-- The calls that a breaker receives, each with the rule and the time.
pub data Call : Type 0 where
  allows successes failures asks : String → ℕ → Call

unfoldable pub step : Breaker → Call → Breaker
unfolding allow_execution record_success record_failure get_state
step cb (allows rule now) = (allow_execution cb rule now).0
step cb (successes rule now) = record_success cb rule
step cb (failures rule now) = (record_failure cb rule now).0
step cb (asks rule now) = (get_state cb rule now).0

unfoldable pub run : Breaker → List Call → Breaker
run cb [] = cb
run cb (c ∷ cs) = run (step cb c) cs
