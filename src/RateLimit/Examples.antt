-- ===== src/RateLimit/Examples.antt =====
-- Runs of the limiter.
use cocopilot.Prelude.{◌≤◌, ◌≡◌, refl, not, true, false, [], ◌∷◌, List, arith}
use cocopilot.Prelude.Int.{pos}
use cocopilot.Prelude.Dict.{lookup, insert, delete}
use cocopilot.RateLimit.{rate_limit_key, reaches, check_rate_limit, count_in_window}
use cocopilot.RateLimit.Window.{Call, checks, resets, cleans, run, step, recent, history}
use cocopilot.RateLimit.Refines.{nothing, check_refines_history}
use cocopilot.RateLimit.Bounds.{count_within_limit}

abbrev calls : List Call
calls =
    checks "p" "a" (pos 2) 1
    ∷ checks "p" "a" (pos 2) 4
    ∷ checks "p" "a" (pos 2) 6
    ∷ cleans 7
    ∷ resets "p" "b"
    ∷ []

abbrev two_admitted : List Call
two_admitted = checks "p" "a" (pos 2) 1 ∷ checks "p" "a" (pos 2) 4 ∷ []

third_is_refused : (check_rate_limit (run 5 [] two_admitted) "p" "a" (pos 2) 5 6).1 ≡ false
unfolding run step check_rate_limit lookup insert delete
third_is_refused = refl

first_has_left : (check_rate_limit (run 5 [] calls) "p" "a" (pos 2) 5 8).1 ≡ true
unfolding run step check_rate_limit lookup insert delete
first_has_left = refl

check_refines_history_example :
    (check_rate_limit (run 5 [] calls) "p" "a" (pos 2) 5 8).1
    ≡ not (reaches (recent 5 8 (history 5 nothing calls (rate_limit_key "p" "a"))) (pos 2))
check_refines_history_example =
    check_refines_history 5 calls
      (omega arith, (omega arith, (omega arith, (omega arith, (omega arith, tt))))) "p" "a" (pos 2)
      8 (omega arith)

count_within_limit_example :
    (count_in_window (run 5 [] calls) "p" "a" 5 8
      ≡ recent 5 8 (history 5 nothing calls (rate_limit_key "p" "a")))
    × (count_in_window (run 5 [] calls) "p" "a" 5 8 ≤ 2)
count_within_limit_example =
    count_within_limit 5 2 calls
      (omega arith, (omega arith, (omega arith, (omega arith, (omega arith, tt)))))
      (refl, (refl, (refl, tt))) "p" "a" 8 (omega arith)
