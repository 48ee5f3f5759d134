-- ===== src/ContextBudget.antt =====
-- server/assignment.go: enforceContextBudget, which trims the context of an assignment until its JSON
-- fits. The size of the JSON is an argument, a function of the context. Marshalling succeeds.
pub mod Enough
mod Examples
use cocopilot.Prelude.{
  ℕ, zero, suc, ◌+◌, ◌/◌, Bool, true, false, Option, none, some, List, [], ◌∷◌, take, length, ltb,
  leb, if◌then◌else◌,
}

-- The four lists that are trimmed. The rest of the context stays as it is.
pub record TaskContext {ℓ} (A : Type ℓ) : Type ℓ where
  pub repo_files : List A
  pub artifact_summaries : List A
  pub recent_run_summaries : List A
  pub memories : List A

module _ {ℓ} {A : Type ℓ} where
  -- `xs[:len(xs)/2]`, and nothing for a single entry.
  abbrev pub half : List A → List A
  half xs = take (length xs / 2) xs

  -- One round of the loop for a context that is too large; none if nothing is left to trim.
  unfoldable pub trim : TaskContext A → Option (TaskContext A)
  trim ctx =
      if ltb 0 (length ctx.repo_files)
      then some (record ctx { repo_files = half ctx.repo_files })
      else if ltb 0 (length ctx.artifact_summaries)
      then some (record ctx { artifact_summaries = half ctx.artifact_summaries })
      else if ltb 0 (length ctx.recent_run_summaries)
      then some (record ctx { recent_run_summaries = half ctx.recent_run_summaries })
      else if ltb 2 (length ctx.memories)
      then some (record ctx { memories = half ctx.memories })
      else none

  -- The entries that are left: one for each round at least.
  abbrev pub fuel_of : TaskContext A → ℕ
  fuel_of ctx =
      length ctx.repo_files
      + length ctx.artifact_summaries
      + length ctx.recent_run_summaries
      + length ctx.memories

  -- The loop, on fuel.
  unfoldable pub rounds : (TaskContext A → ℕ) → ℕ → ℕ → TaskContext A → TaskContext A
  unfolding trim
  rounds size max_bytes zero ctx = ctx
  rounds size max_bytes (suc fuel) ctx =
      if leb (size ctx) max_bytes
      then ctx
      else elim (trim ctx) [ none ↦ ctx | some ctx' ↦ rounds size max_bytes fuel ctx' ]

  -- enforceContextBudget
  unfoldable pub enforce_context_budget : (TaskContext A → ℕ) → ℕ → TaskContext A → TaskContext A
  unfolding rounds
  enforce_context_budget size max_bytes ctx = rounds size max_bytes (fuel_of ctx) ctx
