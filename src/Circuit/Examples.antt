-- ===== src/Circuit/Examples.antt =====
-- Runs of the breaker.
use cocopilot.Prelude.{◌<◌, arith, ◌≡◌, ◌↔◌, refl, List, [], ◌∷◌, true, false}
use cocopilot.Prelude.Int.{pos, negsuc}
use cocopilot.Prelude.Dict.{lookup, insert}
use cocopilot.Circuit.{
  closed, opened, Breaker, new_breaker, entry_of, allow_execution, record_failure, get_state, Call,
  allows, failures, asks, step, run,
}
use cocopilot.Circuit.Counts.{closed_iff_below_limit}
use cocopilot.Circuit.Probe.{one_probe, opens_for_cooldown}

abbrev two_failures : List Call
two_failures = allows "r" 1 ∷ failures "r" 2 ∷ allows "r" 3 ∷ failures "r" 4 ∷ []

abbrev tripped : Breaker
tripped = run (new_breaker (pos 2) (pos 10)) two_failures

closed_iff_below_limit_example :
    ((entry_of tripped "r").state ≡ closed)
    ↔ ((entry_of tripped "r").consecutive_failures < tripped.max_failures)
closed_iff_below_limit_example = closed_iff_below_limit (pos 2) (pos 10) two_failures "r"

tripped_opened : (entry_of tripped "r").state ≡ opened
unfolding run step new_breaker entry_of lookup insert
tripped_opened = refl

tripped_lets_probe : (allow_execution tripped "r" 14).1 ≡ true
unfolding run step new_breaker entry_of lookup insert allow_execution
tripped_lets_probe = refl

default_limit : (new_breaker (negsuc 0) (pos 0)).max_failures ≡ 5
unfolding new_breaker
default_limit = refl

one_probe_example :
    (allow_execution
      (run (allow_execution tripped "r" 14).0 (asks "r" 20 ∷ failures "q" 30 ∷ []))
      "r"
      1000).1
    ≡ false
one_probe_example =
    one_probe tripped "r" 14 1000 (asks "r" 20 ∷ failures "q" 30 ∷ []) tripped_opened
      tripped_lets_probe (refl, (refl, tt))

-- The statistics handler asks for the state after the cooldown: from then on the rule is refused, at
-- any time, though nothing of it was executed since it failed.
asking_blocks_for_good :
    (allow_execution (run tripped (asks "r" 14 ∷ [])) "r" 1000000000000).1 ≡ false
unfolding run step new_breaker entry_of lookup insert get_state allow_execution
asking_blocks_for_good = refl

abbrev between : List Call
between = asks "r" 8 ∷ allows "r" 9 ∷ failures "q" 10 ∷ []

opens_for_cooldown_example :
    (allow_execution
      (run (record_failure (run (new_breaker (pos 1) (pos 10)) []) "r" 5).0 between)
      "r"
      15).1
    ≡ true
unfolding run new_breaker
opens_for_cooldown_example =
    opens_for_cooldown (run (new_breaker (pos 1) (pos 10)) []) "r" 5 15 between
      (unfold record_failure entry_of lookup in refl) (refl, (refl, (refl, tt)))
      (omega arith, (omega arith, (omega arith, tt)))
