-- ===== src/Automation/Template.antt =====
-- server/automation.go: applyAutomationTemplate and the data that it is given. A strings.Replacer goes
-- over the text once, and what it puts in is not looked at again. No name of the table is a prefix of
-- another, so the order of the table does not matter.
use Prim.Native.String
use cocopilot.Prelude.{ℕ, zero, suc, ◌-◌, String, Option, none, some, [], ◌∷◌}
use cocopilot.Prelude.Dict.{Dict}
use cocopilot.Prelude.Text.{after_prefix, char_count, decimal_text}
use cocopilot.Models.Texts.{status_v1_text, status_v2_text}
use cocopilot.Dbstore.{Event}
use cocopilot.Dbstore.Tasks.{TaskV2, or}
use cocopilot.Automation.{Config}

-- The first name of the table that the text begins with: its value, and its length.
unfoldable pub match_name : Dict String → String → Option (String × ℕ)
match_name [] s = none
match_name ((key, value) ∷ table) s = elim (after_prefix key s) [
  | some rest ↦ some (value, char_count key)
  | none ↦ match_name table s
]

-- strings.NewReplacer(…).Replace; the number counts the characters of a name still to be skipped.
unfoldable pub replace_names : Dict String → ℕ → String → String
unfolding match_name
replace_names table skip String.[] = String.[]
replace_names table (suc skip) (String.◌∷◌ c s) = replace_names table skip s
replace_names table zero (String.◌∷◌ c s) = elim (match_name table (String.◌∷◌ c s)) [
  | none ↦ String.◌∷◌ c (replace_names table zero s)
  | some (value, length) ↦ String.◌++◌ value (replace_names table (length - 1) s)
]

-- buildAutomationTemplateData, each name in the form that the replacer looks for
unfoldable pub build_automation_template_data : Config → Event → TaskV2 → Dict String
build_automation_template_data cfg e task =
    ("${event_id}", cfg.event_id e)
    ∷ ("${event_kind}", e.kind)
    ∷ ("${project_id}", e.project_id)
    ∷ ("${task_id}", decimal_text task.id)
    ∷ ("${task_instructions}", task.instructions)
    ∷ ("${task_output}", or task.output "")
    ∷ ("${task_status_v1}", status_v1_text task.status_v1)
    ∷ ("${task_status_v2}", status_v2_text task.status_v2)
    ∷ ("${task_title}", or task.title "")
    ∷ []

-- applyAutomationTemplate
unfoldable pub apply_automation_template : String → Dict String → String
unfolding replace_names
apply_automation_template input table = replace_names table 0 input
