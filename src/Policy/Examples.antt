-- ===== src/Policy/Examples.antt =====
-- Policies at concrete values.
use cocopilot.Prelude.{
  if◌then◌else◌, ◌/◌, ◌+◌, ◌-◌, ◌%◌, ◌≡◌, ◌↔◌, refl, inl, none, some, [], ◌∷◌, true, false, ltb,
  length, arith, eq_iff, str_eq,
}
use cocopilot.Prelude.Int.{pos}
use cocopilot.Prelude.Dict.{lookup, insert}
use cocopilot.Dbstore.Fixtures.{two_tasks}
use cocopilot.Policy.{Library, Rule, text, number, Policy, PolicyContext, Tracker, count_actions}
use cocopilot.Policy.Evaluate.{
  hour_allowed, evaluate_resource_quota, evaluate_rules, evaluate_policy,
}
use cocopilot.Policy.Hours.{hour_allowed-clock}
use cocopilot.Policy.Quota.{quota_without_effect}
use cocopilot.Policy.Rules.{enabled_rules, Passes, allowed_iff_Passes}
use cocopilot.Policy.Rates.{current, AllAbove, each_rule_records}

abbrev lib : Library
lib = record {
  parse_duration = λ s. if str_eq s "1h" then some 3600 else none;
  hour_in = λ zone t. some (t / 3600 % 24);
}

abbrev ctx : PolicyContext
ctx = record {
  project_id = "p";
  agent_id = "a";
  action = "claim_task";
  resource_type = "run";
  timestamp = none;
  current_status = "";
}

abbrev per_hour : Rule
per_hour = ("type", text "rate_limit") ∷ ("limit", number (pos 3)) ∷ ("window", text "1h") ∷ []

abbrev runs_quota : Rule
runs_quota =
    ("type", text "resource_quota")
    ∷ ("resource_type", text "run")
    ∷ ("max_count", number (pos 1))
    ∷ []

abbrev limits : Policy
limits = record { id = "1"; name = "limits"; rules = per_hour ∷ per_hour ∷ []; enabled = true }

hour_allowed-clock_example :
    hour_allowed (pos 22) (pos 6) 3 ≡ ltb ((3 + 24 - 22) % 24) ((6 + 24 - 22) % 24)
hour_allowed-clock_example = hour_allowed-clock 22 6 3 (omega arith) (omega arith) (omega arith)

quota_without_effect_example : evaluate_resource_quota ctx limits runs_quota two_tasks 5 ≡ none
quota_without_effect_example =
    quota_without_effect ctx limits runs_quota two_tasks 5
      (unfold lookup in (λ e. cc ((eq_iff "run" "task").1 e)))
      (unfold lookup in (λ e. cc ((eq_iff "run" "lease").1 e)))

abbrev after_one : Tracker
after_one = (evaluate_policy lib ctx (limits ∷ []) [] two_tasks 7).0

allowed_iff_Passes_example :
    ((evaluate_policy lib ctx (limits ∷ []) [] two_tasks 7).1 ≡ true)
      × ((evaluate_policy lib ctx (limits ∷ []) [] two_tasks 7).0 ≡ after_one)
    ↔ Passes lib ctx two_tasks 7 [] (enabled_rules (limits ∷ [])) after_one
allowed_iff_Passes_example = allowed_iff_Passes lib ctx two_tasks 7 (limits ∷ []) [] after_one

second_action_is_refused : (evaluate_policy lib ctx (limits ∷ []) after_one two_tasks 8).1 ≡ false
unfolding evaluate_policy lookup insert
second_action_is_refused = refl

room_for_two : AllAbove lib ctx two_tasks 7 3600 (current lib ctx two_tasks 7 3600 []) limits.rules
unfolding lookup count_actions
room_for_two = (
  record { is_rate = refl; of_action = inl refl; above = omega arith; same_window = refl },
  (record { is_rate = refl; of_action = inl refl; above = omega arith; same_window = refl }, tt),
)

each_rule_records_example :
    (current lib ctx two_tasks 7 3600
        (evaluate_rules lib ctx limits limits.rules [] two_tasks 7 []).0
      ≡ current lib ctx two_tasks 7 3600 [] + length limits.rules)
    × ((evaluate_rules lib ctx limits limits.rules [] two_tasks 7 []).1 ≡ [])
each_rule_records_example =
    each_rule_records lib ctx two_tasks 7 3600 limits limits.rules [] [] room_for_two
