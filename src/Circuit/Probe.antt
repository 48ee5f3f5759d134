-- ===== src/Circuit/Probe.antt =====
-- The open and half-open states: who is let through, and when.
use cocopilot.Prelude.{
  ℕ, ◌+◌, ◌<◌, String, ◌≡◌, refl, Bool, true, false, List, [], ◌∷◌, arith, leb, All, str_eq, eq_iff,
  sym, ◌∙◌,
}
use cocopilot.Prelude.Dict.{str_eq_refl}
use cocopilot.Circuit.{
  opened, half_open, CircuitEntry, Breaker, entry_of, failure_entry, allow_execution,
  record_failure, Call, allows, successes, failures, asks, step, run,
}
use cocopilot.Circuit.Counts.{entry_of-store_entry}

-- The call records an outcome for the rule.
abbrev pub reports : String → Call → Bool
reports rule (allows r _) = false
reports rule (successes r _) = str_eq r rule
reports rule (failures r _) = str_eq r rule
reports rule (asks r _) = false

abbrev pub Silent : String → List Call → Type 0
Silent rule = All (λ c. reports rule c ≡ false)

step_half_open :
    (cb : Breaker) (rule : String) (c : Call)
    → reports rule c ≡ false
    → (entry_of cb rule).state ≡ half_open
    → (entry_of (step cb c) rule).state ≡ half_open
unfolding step
step_half_open cb rule (allows r now) s h = rw entry_of-store_entry (ground (arith, eq_iff r rule))
step_half_open cb rule (successes r now) s h = rw (entry_of-store_entry, s) h
step_half_open cb rule (failures r now) s h = rw (entry_of-store_entry, s) h
step_half_open cb rule (asks r now) s h = rw entry_of-store_entry (ground (arith, eq_iff r rule))

run_half_open :
    (cb : Breaker) (rule : String) (cs : List Call)
    → Silent rule cs
    → (entry_of cb rule).state ≡ half_open
    → (entry_of (run cb cs) rule).state ≡ half_open
unfolding run
run_half_open cb rule [] s h = h
run_half_open cb rule (c ∷ cs) s h =
    run_half_open (step cb c) rule cs s.1 (step_half_open cb rule c s.0 h)

half_open-refuses :
    (cb : Breaker) (rule : String) (now : ℕ)
    → (entry_of cb rule).state ≡ half_open
    → (allow_execution cb rule now).1 ≡ false
unfolding allow_execution
half_open-refuses cb rule now h = ground arith

opened-allows :
    (cb : Breaker) (rule : String) (now : ℕ)
    → (entry_of cb rule).state ≡ opened
    → (allow_execution cb rule now).1 ≡ leb ((entry_of cb rule).opened_at + cb.cooldown) now
unfolding allow_execution
opened-allows cb rule now h = ground arith

opened-allowed_half_open :
    (cb : Breaker) (rule : String) (now : ℕ)
    → (entry_of cb rule).state ≡ opened
    → (allow_execution cb rule now).1 ≡ true
    → (entry_of (allow_execution cb rule now).0 rule).state ≡ half_open
unfolding allow_execution
opened-allowed_half_open cb rule now h p = rw (entry_of-store_entry, str_eq_refl) (ground arith)

-- After an open circuit has let one execution through, it refuses every further one, at any time
-- and after any other calls, as long as no success or failure of the rule is recorded. So one probe
-- runs at a time, and a probe that never reports keeps its rule blocked for good.
pub one_probe :
    (cb : Breaker) (rule : String) (now later : ℕ) (cs : List Call)
    → (entry_of cb rule).state ≡ opened
    → (allow_execution cb rule now).1 ≡ true
    → Silent rule cs
    → (allow_execution (run (allow_execution cb rule now).0 cs) rule later).1 ≡ false
one_probe cb rule now later cs h p s =
    half_open-refuses _ rule later
      (run_half_open _ rule cs s (opened-allowed_half_open cb rule now h p))

failure_entry_opens :
    (max now : ℕ) (e : CircuitEntry)
    → (failure_entry max now e).1 ≡ true
    → ((failure_entry max now e).0.state ≡ opened) × ((failure_entry max now e).0.opened_at ≡ now)
unfolding failure_entry
failure_entry_opens max now e h = ground arith

failed_entry :
    (cb : Breaker) (rule : String) (now : ℕ)
    → entry_of (record_failure cb rule now).0 rule
      ≡ (failure_entry cb.max_failures now (entry_of cb rule)).0
unfolding record_failure
failed_entry cb rule now = rw (entry_of-store_entry, str_eq_refl)

failed_cooldown :
    (cb : Breaker) (rule : String) (now : ℕ) → (record_failure cb rule now).0.cooldown ≡ cb.cooldown
unfolding record_failure
failed_cooldown cb rule now = refl

failed_flag :
    (cb : Breaker) (rule : String) (now : ℕ)
    → (record_failure cb rule now).1 ≡ (failure_entry cb.max_failures now (entry_of cb rule)).1
unfolding record_failure
failed_flag cb rule now = refl

-- Every call comes before a time.
abbrev time_of : Call → ℕ
time_of (allows r now) = now
time_of (successes r now) = now
time_of (failures r now) = now
time_of (asks r now) = now

abbrev pub Early : ℕ → List Call → Type 0
Early end = All (λ c. time_of c < end)

-- The circuit of the rule is open since a time, under a cooldown.
IsOpenSince : String → ℕ → ℕ → Breaker → Type 0
IsOpenSince rule opened_at cooldown cb =
    ((entry_of cb rule).state ≡ opened)
    × ((entry_of cb rule).opened_at ≡ opened_at)
    × (cb.cooldown ≡ cooldown)

step-IsOpenSince :
    (cb : Breaker) (rule : String) (since cooldown : ℕ) (c : Call)
    → reports rule c ≡ false
    → time_of c < since + cooldown
    → IsOpenSince rule since cooldown cb
    → IsOpenSince rule since cooldown (step cb c)
unfolding step IsOpenSince
step-IsOpenSince cb rule since cooldown (allows r now) s early (h, at, cool) =
    rw entry_of-store_entry (ground (arith, eq_iff r rule))
step-IsOpenSince cb rule since cooldown (successes r now) s early h = rw (entry_of-store_entry, s) h
step-IsOpenSince cb rule since cooldown (failures r now) s early h = rw (entry_of-store_entry, s) h
step-IsOpenSince cb rule since cooldown (asks r now) s early (h, at, cool) =
    rw entry_of-store_entry (ground (arith, eq_iff r rule))

run-IsOpenSince :
    (cb : Breaker) (rule : String) (since cooldown : ℕ) (cs : List Call)
    → Silent rule cs
    → Early (since + cooldown) cs
    → IsOpenSince rule since cooldown cb
    → IsOpenSince rule since cooldown (run cb cs)
unfolding run
run-IsOpenSince cb rule since cooldown [] s early h = h
run-IsOpenSince cb rule since cooldown (c ∷ cs) s early h =
    run-IsOpenSince (step cb c) rule since cooldown cs s.1 early.1
      (step-IsOpenSince cb rule since cooldown c s.0 early.0 h)

-- After a failure that opens the circuit, or opens it again after a probe, and after any calls that
-- come before the end of the cooldown and record no outcome of the rule, an execution of the rule is
-- allowed exactly when the cooldown has passed since that failure.
pub opens_for_cooldown :
    (cb : Breaker) (rule : String) (failed now : ℕ) (cs : List Call)
    → (record_failure cb rule failed).1 ≡ true
    → Silent rule cs
    → Early (failed + cb.cooldown) cs
    → (allow_execution (run (record_failure cb rule failed).0 cs) rule now).1
      ≡ leb (failed + cb.cooldown) now
unfolding IsOpenSince
opens_for_cooldown cb rule failed now cs h s early =
    let trip =
      failure_entry_opens cb.max_failures failed (entry_of cb rule)
        (sym (failed_flag cb rule failed) ∙ h) in
    let (open_, at, cool) =
      run-IsOpenSince (record_failure cb rule failed).0 rule failed cb.cooldown cs s early
        (rw failed_entry trip.0, rw failed_entry trip.1, failed_cooldown cb rule failed) in
    rw (opened-allows (run (record_failure cb rule failed).0 cs) rule now open_)
      (rw (at, cool) refl)
