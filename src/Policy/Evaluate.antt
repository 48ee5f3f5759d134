-- ===== src/Policy/Evaluate.antt =====
-- internal/policy/policy.go: the evaluators of the four types of rules, and the loops over policies
-- and their rules.
use cocopilot.Prelude.{
  ℕ, String, Bool, true, false, not, ◌&&◌, ◌||◌, Option, none, some, List, [], ◌∷◌, ◌++◌, keep, any,
  length, leb, ◌==◌, str_eq, if◌then◌else◌,
}
use cocopilot.Prelude.Int.{ℤ, pos, negsuc}
use cocopilot.Prelude.Dict.{lookup}
use cocopilot.Models.{TaskStatusV2, RunStatus, is_queued, is_active}
use cocopilot.Dbstore.{Db}
use cocopilot.Dbstore.Leases.{expired}
use cocopilot.Policy.{
  Rule, Tracker, record_action, count_actions, as_text, as_count, as_hour, to_string_slice,
  equal_fold, violation, or_now, rate_key, Library, Field, Policy, PolicyContext, PolicyViolation,
  rate_limit_exceeded, quota_exceeded, transition_not_allowed, outside_hours,
}

abbrev pub limit_within :
    PolicyContext → Policy → Rule → Tracker → ℕ → ℕ → Option ℕ → Tracker × Option PolicyViolation
limit_within ctx p rule rt ts limit none = (rt, none)
limit_within ctx p rule rt ts limit (some window) =
    let current = count_actions rt (rate_key ctx) ts window in
    if leb limit current
    then (rt, some (violation p rule (rate_limit_exceeded current limit)))
    else ((record_action rt (rate_key ctx) ts window).0, none)

-- evaluateRateLimit
unfoldable pub evaluate_rate_limit :
    Library → PolicyContext → Policy → Rule → Tracker → ℕ → Tracker × Option PolicyViolation
unfolding record_action count_actions
evaluate_rate_limit lib ctx p rule rt now =
    let action = as_text (lookup "action" rule) in
    let limit = as_count (lookup "limit" rule) in
    if not (str_eq action "") && not (str_eq action ctx.action)
    then (rt, none)
    else if limit == 0
    then (rt, none)
    else limit_within ctx p rule rt (or_now ctx.timestamp now) limit
        (lib.parse_duration (as_text (lookup "window" rule)))

abbrev is_present : Option Field → Bool
is_present none = false
is_present (some v) = true

-- evaluateWorkflowConstraint
unfoldable pub evaluate_workflow_constraint : PolicyContext → Policy → Rule → Option PolicyViolation
unfolding equal_fold
evaluate_workflow_constraint ctx p rule =
    let from_status = as_text (lookup "from_status" rule) in
    let allowed = to_string_slice (lookup "allowed_transitions" rule) in
    if str_eq from_status ""
    then none
    else if not (equal_fold ctx.current_status from_status)
    then none
    else if not (is_present (lookup "allowed_transitions" rule))
    then none
    else if any (λ a. equal_fold a ctx.action) allowed
    then none
    else some (violation p rule (transition_not_allowed from_status ctx.action allowed))

-- The texts of the run statuses, as the column holds them.
abbrev pub run_status_text : RunStatus → String
run_status_text RunStatus.running = "RUNNING"
run_status_text RunStatus.succeeded = "SUCCEEDED"
run_status_text RunStatus.failed = "FAILED"
run_status_text RunStatus.cancelled = "CANCELLED"

abbrev is_counted : Option TaskStatusV2 → Bool
is_counted none = false
is_counted (some s) = is_queued s || is_active s

-- A sub-query: whether the task belongs to the project.
abbrev in_project : Db → String → ℕ → Bool
in_project db project_id id = any (λ t. t.id == id && str_eq t.project_id project_id) db.tasks

-- countActiveResources; `none` is the error of an unknown type.
unfoldable pub count_active_resources : Db → String → String → ℕ → Option ℕ
count_active_resources db project_id resource_type now =
    if str_eq resource_type "task"
    then some
        (length (keep (λ t. str_eq t.project_id project_id && is_counted t.status_v2) db.tasks))
    else if str_eq resource_type "run"
    then some (
        length (
          keep
            (λ r.
              in_project db project_id r.task_id
              && (str_eq (run_status_text r.status) "running"
                  || str_eq (run_status_text r.status) "pending"))
            db.runs))
    else if str_eq resource_type "lease"
    then some
        (length (keep (λ l. in_project db project_id l.task_id && not (expired now l)) db.leases))
    else none

abbrev pub over_quota : Policy → Rule → ℕ → Option ℕ → Option PolicyViolation
over_quota p rule max_count none = none
over_quota p rule max_count (some count) =
    if leb max_count count then some (violation p rule (quota_exceeded count max_count)) else none

-- evaluateResourceQuota
unfoldable pub evaluate_resource_quota :
    PolicyContext → Policy → Rule → Db → ℕ → Option PolicyViolation
unfolding count_active_resources
evaluate_resource_quota ctx p rule db now =
    let resource_type = as_text (lookup "resource_type" rule) in
    let max_count = as_count (lookup "max_count" rule) in
    if not (str_eq resource_type "") && not (str_eq resource_type ctx.resource_type)
    then none
    else if max_count == 0
    then none
    else over_quota p rule max_count (count_active_resources db ctx.project_id resource_type now)

abbrev leb_ℤ : ℤ → ℤ → Bool
leb_ℤ (pos a) (pos b) = leb a b
leb_ℤ (pos a) (negsuc b) = false
leb_ℤ (negsuc a) (pos b) = true
leb_ℤ (negsuc a) (negsuc b) = leb b a

-- `hour >= start && hour < end`, or across midnight.
unfoldable pub hour_allowed : ℤ → ℤ → ℕ → Bool
hour_allowed start_hour end_hour hour =
    if leb_ℤ start_hour end_hour
    then leb_ℤ start_hour (pos hour) && not (leb_ℤ end_hour (pos hour))
    else leb_ℤ start_hour (pos hour) || not (leb_ℤ end_hour (pos hour))

abbrev pub check_hour : Policy → Rule → ℤ → ℤ → Option ℕ → Option PolicyViolation
check_hour p rule start_hour end_hour none = none
check_hour p rule start_hour end_hour (some hour) =
    if hour_allowed start_hour end_hour hour
    then none
    else some (violation p rule (outside_hours hour))

-- evaluateTimeWindow
unfoldable pub evaluate_time_window :
    Library → PolicyContext → Policy → Rule → ℕ → Option PolicyViolation
unfolding hour_allowed
evaluate_time_window lib ctx p rule now =
    let zone = as_text (lookup "timezone" rule) in
    check_hour p rule (as_hour (lookup "start_hour" rule)) (as_hour (lookup "end_hour" rule))
      (lib.hour_in (if str_eq zone "" then "UTC" else zone) (or_now ctx.timestamp now))

-- The switch on the type of a rule.
unfoldable pub evaluate_rule :
    Library → PolicyContext → Policy → Rule → Tracker → Db → ℕ → Tracker × Option PolicyViolation
unfolding evaluate_rate_limit evaluate_workflow_constraint evaluate_resource_quota
    evaluate_time_window
evaluate_rule lib ctx p rule rt db now =
    let rule_type = as_text (lookup "type" rule) in
    if str_eq rule_type "rate_limit"
    then evaluate_rate_limit lib ctx p rule rt now
    else if str_eq rule_type "workflow_constraint"
    then (rt, evaluate_workflow_constraint ctx p rule)
    else if str_eq rule_type "resource_quota"
    then (rt, evaluate_resource_quota ctx p rule db now)
    else if str_eq rule_type "time_window"
    then (rt, evaluate_time_window lib ctx p rule now)
    else (rt, none)

abbrev pub append_found : List PolicyViolation → Option PolicyViolation → List PolicyViolation
append_found vs none = vs
append_found vs (some v) = vs ++ v ∷ []

unfoldable pub evaluate_rules :
    Library
    → PolicyContext
    → Policy
    → List Rule
    → Tracker
    → Db
    → ℕ
    → List PolicyViolation
    → Tracker × List PolicyViolation
unfolding evaluate_rule
evaluate_rules lib ctx p [] rt db now vs = (rt, vs)
evaluate_rules lib ctx p (rule ∷ rules) rt db now vs =
    let (rt', v) = evaluate_rule lib ctx p rule rt db now in
    evaluate_rules lib ctx p rules rt' db now (append_found vs v)

unfoldable pub evaluate_policies :
    Library
    → PolicyContext
    → List Policy
    → Tracker
    → Db
    → ℕ
    → List PolicyViolation
    → Tracker × List PolicyViolation
unfolding evaluate_rules
evaluate_policies lib ctx [] rt db now vs = (rt, vs)
evaluate_policies lib ctx (p ∷ ps) rt db now vs =
    let (rt', vs') = evaluate_rules lib ctx p p.rules rt db now vs in
    let evaluated = evaluate_policies lib ctx ps rt' db now vs' in
    let skipped = evaluate_policies lib ctx ps rt db now vs in
    if p.enabled then evaluated else skipped

abbrev pub is_none : List PolicyViolation → Bool
is_none [] = true
is_none (v ∷ vs) = false

-- EvaluatePolicy: the tracker afterwards, whether the action is allowed, and the violations.
unfoldable pub evaluate_policy :
    Library → PolicyContext → List Policy → Tracker → Db → ℕ → Tracker × Bool × List PolicyViolation
unfolding evaluate_policies
evaluate_policy lib ctx policies rt db now =
    let (rt', vs) = evaluate_policies lib ctx policies rt db now [] in (rt', is_none vs, vs)
