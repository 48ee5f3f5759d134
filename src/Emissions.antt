-- ===== src/Emissions.antt =====
-- server/automation.go: the records that keep the automation from emitting the same kind of event
-- twice in a window. Times are in seconds. The key of a record, a SHA-256 digest of project, kind and
-- window number, is an argument. INSERT OR IGNORE is one statement, so a call is one step.
pub mod Windows
mod Examples
use cocopilot.Prelude.{
  ℕ, zero, suc, ◌+◌, ◌/◌, String, Bool, true, false, not, Option, none, some, List, [], ◌∷◌, ◌++◌,
  any, keep, ltb, str_eq, if◌then◌else◌,
}
use cocopilot.Prelude.Int.{ℤ, pos, negsuc}

pub record Emission : Type 0 where
  pub dedupe_key : String
  pub project_id : String
  pub kind : String
  pub task_id : Option ℕ
  pub created_at : ℕ

-- SetEmissionWindow: a window that is not positive is the default.
abbrev pub set_emission_window : ℕ → ℤ → ℕ
set_emission_window default_seconds (pos zero) = default_seconds
set_emission_window default_seconds (pos (suc n)) = suc n
set_emission_window default_seconds (negsuc n) = default_seconds

module _ (digest : String → String → ℕ → String) (window_seconds : ℕ) where
  -- computeEmissionDedupeKey
  abbrev pub compute_emission_dedupe_key : String → String → ℕ → String
  compute_emission_dedupe_key project_id kind now = digest project_id kind (now / window_seconds)

  abbrev pub has_key : String → List Emission → Bool
  has_key key es = any (λ e. str_eq e.dedupe_key key) es

  abbrev pub new_emission : String → String → Option ℕ → ℕ → Emission
  new_emission project_id kind task_id now = record {
    dedupe_key = compute_emission_dedupe_key project_id kind now;
    project_id = project_id;
    kind = kind;
    task_id = task_id;
    created_at = now;
  }

  -- TryRecordEmission
  unfoldable pub try_record_emission :
      List Emission → String → String → Option ℕ → ℕ → List Emission × Bool
  try_record_emission es project_id kind task_id now =
      if has_key (compute_emission_dedupe_key project_id kind now) es
      then (es, false)
      else (es ++ new_emission project_id kind task_id now ∷ [], true)

  -- CheckEmissionAllowed
  unfoldable pub check_emission_allowed : List Emission → String → String → ℕ → Bool
  check_emission_allowed es project_id kind now =
      not (has_key (compute_emission_dedupe_key project_id kind now) es)

-- CleanupOldEmissions: `created_at < now - max_age`
unfoldable pub cleanup_old_emissions : List Emission → ℕ → ℕ → List Emission
cleanup_old_emissions es max_age now = keep (λ e. not (ltb (e.created_at + max_age) now)) es
