-- ===== src/ContextBudget/Examples.antt =====
-- Trimming a small context, whose size is its number of entries.
use cocopilot.Prelude.{ℕ, ◌≡◌, refl, [], ◌∷◌}
use cocopilot.ContextBudget.{TaskContext, fuel_of, enforce_context_budget}
use cocopilot.ContextBudget.Enough.{Trims, IsFinal, enforce_context_budget-IsFinal}

abbrev ctx : TaskContext ℕ
ctx = record {
  repo_files = 1 ∷ 2 ∷ 3 ∷ [];
  artifact_summaries = 4 ∷ [];
  recent_run_summaries = [];
  memories = 5 ∷ 6 ∷ 7 ∷ [];
}

trimmed_to_four : (enforce_context_budget fuel_of 4 ctx).memories ≡ 5 ∷ 6 ∷ 7 ∷ []
unfolding enforce_context_budget
trimmed_to_four = refl

trimmed_to_two : (enforce_context_budget fuel_of 2 ctx).memories ≡ 5 ∷ []
unfolding enforce_context_budget
trimmed_to_two = refl

enforce_context_budget-IsFinal_example :
    Trims fuel_of 2 ctx (enforce_context_budget fuel_of 2 ctx)
    × IsFinal fuel_of 2 (enforce_context_budget fuel_of 2 ctx)
enforce_context_budget-IsFinal_example = enforce_context_budget-IsFinal fuel_of 2 ctx
