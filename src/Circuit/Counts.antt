-- ===== src/Circuit/Counts.antt =====
-- The failure count decides the state: what holds of every entry after any calls.
use cocopilot.Prelude.{
  ℕ, zero, suc, ◌<◌, String, ◌≡◌, ◌↔◌, inl, inr, List, [], ◌∷◌, arith, str_eq, if◌then◌else◌,
  Bool-cases,
}
use cocopilot.Prelude.Int.{ℤ, pos, negsuc}
use cocopilot.Prelude.Dict.{lookup, lookup-insert}
use cocopilot.Circuit.{
  closed, CircuitEntry, Breaker, new_breaker, entry_of, store_entry, allow_entry, success_entry,
  failure_entry, state_entry, Call, allows, successes, failures, asks, step, run,
}

-- A closed entry has fewer failures than the limit; an entry that is open or half open has not.
abbrev pub Counted : ℕ → CircuitEntry → Type 0
Counted max e =
    (e.state ≡ closed → e.consecutive_failures < max)
    × (e.consecutive_failures < max → e.state ≡ closed)

pub record IsSound (cb : Breaker) : Type 0 where
  pub limited : 0 < cb.max_failures
  pub counted : (rule : String) → Counted cb.max_failures (entry_of cb rule)

pub entry_of-store_entry :
    (cb : Breaker) (rule other : String) (e : CircuitEntry)
    → entry_of (store_entry cb rule e) other ≡ (if str_eq rule other then e else entry_of cb other)
unfolding entry_of store_entry
entry_of-store_entry cb rule other e = ground (arith, lookup-insert rule other e cb.states)

store_entry-IsSound :
    (cb : Breaker) (rule : String) (e : CircuitEntry)
    → IsSound cb
    → Counted cb.max_failures e
    → IsSound (store_entry cb rule e)
unfolding store_entry
store_entry-IsSound cb rule e h c = record {
  limited = h.limited;
  counted = λ other. rw entry_of-store_entry (elim (Bool-cases (str_eq rule other)) [
    | inl same ↦ rw same c
    | inr differs ↦ rw differs (h.counted other)
  ]);
}

allow_entry-Counted :
    (max cooldown now : ℕ) (e : CircuitEntry)
    → Counted max e
    → Counted max (allow_entry cooldown now e).0
unfolding allow_entry
allow_entry-Counted max cooldown now e h = ground arith

success_entry-Counted : (max : ℕ) (e : CircuitEntry) → 0 < max → Counted max (success_entry e)
unfolding success_entry
success_entry-Counted max e h = ground arith

failure_entry-Counted :
    (max now : ℕ) (e : CircuitEntry) → Counted max e → Counted max (failure_entry max now e).0
unfolding failure_entry
failure_entry-Counted max now e h = ground arith

state_entry-Counted :
    (max cooldown now : ℕ) (e : CircuitEntry)
    → Counted max e
    → Counted max (state_entry cooldown now e)
unfolding state_entry
state_entry-Counted max cooldown now e h = ground arith

step-IsSound : (cb : Breaker) (c : Call) → IsSound cb → IsSound (step cb c)
unfolding step
step-IsSound cb (allows rule now) h =
    store_entry-IsSound cb rule _ h
      (allow_entry-Counted cb.max_failures cb.cooldown now (entry_of cb rule) (h.counted rule))
step-IsSound cb (successes rule now) h =
    store_entry-IsSound cb rule _ h
      (success_entry-Counted cb.max_failures (entry_of cb rule) h.limited)
step-IsSound cb (failures rule now) h =
    store_entry-IsSound cb rule _ h
      (failure_entry-Counted cb.max_failures now (entry_of cb rule) (h.counted rule))
step-IsSound cb (asks rule now) h =
    store_entry-IsSound cb rule _ h
      (state_entry-Counted cb.max_failures cb.cooldown now (entry_of cb rule) (h.counted rule))

run-IsSound : (cb : Breaker) (cs : List Call) → IsSound cb → IsSound (run cb cs)
unfolding run
run-IsSound cb [] h = h
run-IsSound cb (c ∷ cs) h = run-IsSound (step cb c) cs (step-IsSound cb c h)

new_breaker-IsSound : (m d : ℤ) → IsSound (new_breaker m d)
unfolding new_breaker entry_of lookup
new_breaker-IsSound (pos zero) d = record { limited = omega arith; counted = λ r. ground arith }
new_breaker-IsSound (pos (suc n)) d = record { limited = omega arith; counted = λ r. ground arith }
new_breaker-IsSound (negsuc n) d = record { limited = omega arith; counted = λ r. ground arith }

-- Whatever calls a new breaker has received, with whatever limit and cooldown it was made: a rule's
-- circuit is closed exactly when its count of consecutive failures is below the breaker's limit.
pub closed_iff_below_limit :
    (m d : ℤ) (cs : List Call) (rule : String)
    → let cb = run (new_breaker m d) cs in
      ((entry_of cb rule).state ≡ closed)
      ↔ ((entry_of cb rule).consecutive_failures < cb.max_failures)
closed_iff_below_limit m d cs rule =
    (run-IsSound (new_breaker m d) cs (new_breaker-IsSound m d)).counted rule
