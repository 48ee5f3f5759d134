-- ===== src/Emissions/Examples.antt =====
-- Emissions in windows of ten seconds.
use cocopilot.Prelude.{
  ℕ, ◌≡◌, refl, String, false, not, none, List, [], ◌∷◌, any, arith, ◌==◌, if◌then◌else◌, eq_iff,
}
use cocopilot.Emissions.{try_record_emission, check_emission_allowed}
use cocopilot.Emissions.Windows.{
  Call, tries, cleans, run, in_same_window, once_per_window, first_in_window,
}

-- A digest that tells the kinds and windows of the example apart.
abbrev digest : String → String → ℕ → String
digest project_id kind n = if n == 2 then kind else "other"

abbrev between : List Call
between = tries "p" "idle" none 22 ∷ cleans 10 24 ∷ tries "q" "plan" none 25 ∷ []

once_per_window_example :
    (try_record_emission digest 10
        (run digest 10 (try_record_emission digest 10 [] "p" "plan" none 21).0 between)
        "p"
        "plan"
        none
        28
      ≡ (run digest 10 (try_record_emission digest 10 [] "p" "plan" none 21).0 between, false))
    × (check_emission_allowed digest 10
          (run digest 10 (try_record_emission digest 10 [] "p" "plan" none 21).0 between)
          "p"
          "plan"
          28
        ≡ false)
once_per_window_example =
    once_per_window digest 10 [] "p" "plan" none none 21 28 between (omega arith)
      (unfold try_record_emission in refl) (omega arith, omega arith, tt) refl

first_in_window_example :
    (try_record_emission digest 10
      (run digest 10 [] (tries "p" "plan" none 3 ∷ tries "p" "idle" none 21 ∷ []))
      "p"
      "plan"
      none
      25).1
    ≡ not (
        any
          (in_same_window digest 10 "p" "plan" 25)
          (tries "p" "plan" none 3 ∷ tries "p" "idle" none 21 ∷ []))
first_in_window_example =
    first_in_window digest 10 (tries "p" "plan" none 3 ∷ tries "p" "idle" none 21 ∷ []) "p" "plan"
      none 25
      ((λ e. cc ((eq_iff "other" "plan").1 e)), ((λ e. cc ((eq_iff "idle" "plan").1 e)), tt))
