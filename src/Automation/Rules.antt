-- ===== src/Automation/Rules.antt =====
-- server/automation.go: the loops of processAutomationEvent over the rules and their actions. Each
-- enabled rule for the event's kind passes its circuit breaker and creates its tasks. A rule's name
-- needs no escapes where it is quoted.
use cocopilot.Prelude.{
  ℕ, ◌+◌, ◌*◌, String, Bool, true, false, not, ◌||◌, Option, none, some, List, [], ◌∷◌, ◌++◌,
  str_eq, if◌then◌else◌,
}
use cocopilot.Prelude.Dict.{Dict}
use cocopilot.Prelude.Text.{trim_space, is_blank}
use cocopilot.Circuit.{Breaker, allow_execution, record_success, record_failure}
use cocopilot.Dbstore.{
  Db, Event, EventHook, Value, num, int, text, texts, of_type, decimal, name, create_event,
}
use cocopilot.Dbstore.Tasks.{TaskV2, set_task_automation_depth}
use cocopilot.Dbstore.Creation.{TaskMeta}
use cocopilot.Automation.{
  Action, Rule, Config, concat, is_automation_rule_enabled, try_create,
  create_automation_escalate_task, is_follow_up_duplicate,
}
use cocopilot.Automation.Template.{build_automation_template_data, apply_automation_template}

-- normalizeAutomationTags
abbrev pub normalize_automation_tags : List String → List String
normalize_automation_tags [] = []
normalize_automation_tags (tag ∷ tags) =
    let rest = normalize_automation_tags tags in
    if is_blank tag then rest else trim_space tag ∷ rest

-- resolveAutomationParentID
unfoldable pub resolve_automation_parent_id : Option String → ℕ → Option ℕ
resolve_automation_parent_id none task_id = some task_id
resolve_automation_parent_id (some parent) task_id =
    if str_eq parent "none" then none else some task_id

abbrev parent_entry : Option ℕ → Dict Value
parent_entry none = []
parent_entry (some id) = ("parent_task_id", num id) ∷ []

abbrev title_entry : Option String → Dict Value
title_entry none = []
title_entry (some s) = ("title", text s) ∷ []

abbrev tags_entry : List String → Dict Value
tags_entry [] = []
tags_entry (tag ∷ tags) = ("tags", texts (tag ∷ tags)) ∷ []

-- buildTaskCreatedPayload; a task always has a type.
unfoldable pub build_task_created_payload : TaskV2 → Option ℕ → Dict Value
build_task_created_payload task parent_task_id =
    ("task_id", num task.id)
    ∷ ("instructions", text task.instructions)
    ∷ ("priority", int task.priority)
    ∷ (parent_entry parent_task_id
        ++ (title_entry task.title ++ (("type", of_type task.task_type) ∷ tags_entry task.tags)))

-- What the circuit breaker says of a rule, where there is a breaker.
abbrev pub allow : Db → String → ℕ → Option Breaker → Db × Bool
allow db rule now none = (db, true)
allow db rule now (some cb) =
    let (cb', allowed) = allow_execution cb rule (now * 1000) in
    (record db { circuit = some cb' }, allowed)

abbrev pub succeed : Db → String → Option Breaker → Db
succeed db rule none = db
succeed db rule (some cb) = record db { circuit = some (record_success cb rule) }

abbrev pub tell_opened : Config → EventHook → TaskV2 → String → ℕ → Db × Bool → Db
tell_opened cfg hook task rule now (db, false) = db
tell_opened cfg hook task rule now (db, true) =
    create_automation_escalate_task cfg hook
      (create_event hook db task.project_id "automation.circuit_opened" "automation" (name rule)
        (("rule_name", text rule) ∷ ("task_id", num task.id) ∷ []) now)
      task
      (concat (
        "Automation circuit breaker opened for rule \"" ∷ rule ∷ "\" after repeated failures" ∷ []))
      now

abbrev pub fail : Config → EventHook → TaskV2 → String → ℕ → Db → Option Breaker → Db
fail cfg hook task rule now db none = db
fail cfg hook task rule now db (some cb) =
    let (cb', just_opened) = record_failure cb rule (now * 1000) in
    tell_opened cfg hook task rule now (record db { circuit = some cb' }, just_opened)

-- What follows the insertion of a rule's task: it failed, or there is a child.
abbrev pub settle_child :
    Config → EventHook → TaskV2 → String → Option ℕ → ℕ → Db × Option TaskV2 → Db
settle_child cfg hook task rule parent now (db, none) = fail cfg hook task rule now db db.circuit
settle_child cfg hook task rule parent now (db, some child) =
    create_event hook
      (set_task_automation_depth (succeed db rule db.circuit) child.id (task.automation_depth + 1))
      task.project_id "task.created" "task" (decimal child.id)
      (build_task_created_payload child parent) now

abbrev pub rendered_title : Dict String → Option String → Option String
rendered_title table none = none
rendered_title table (some s) =
    let rendered = trim_space (apply_automation_template s table) in
    if str_eq rendered "" then none else some rendered

abbrev is_duplicate : Db → String → Option String → Option ℕ → Bool
is_duplicate db project_id (some title) (some parent) =
    is_follow_up_duplicate db project_id parent title
is_duplicate db project_id none parent = false
is_duplicate db project_id (some title) none = false

-- The body of the loop over the actions.
unfoldable pub run_action : Config → EventHook → Event → ℕ → TaskV2 → String → Db → Action → Db
unfolding resolve_automation_parent_id
run_action cfg hook e task_id task rule db action =
    let table = build_automation_template_data cfg e task in
    let parent = resolve_automation_parent_id action.task.parent task_id in
    let instructions = apply_automation_template action.task.instructions table in
    let title = rendered_title table action.task.title in
    let meta : TaskMeta = record {
      title = title;
      task_type = action.task.task_type;
      priority = action.task.priority;
      tags = normalize_automation_tags action.task.tags;
      loop_anchor_prompt = none;
    } in
    if not (str_eq action.kind "create_task")
    then db
    else if is_blank instructions
    then db
    else if is_duplicate db task.project_id title parent
    then db
    else settle_child cfg hook task rule parent e.created_at
        (try_create cfg db instructions task.project_id parent meta e.created_at)

unfoldable pub run_actions :
    Config → EventHook → Event → ℕ → TaskV2 → String → Db → List Action → Db
run_actions cfg hook e task_id task rule db [] = db
run_actions cfg hook e task_id task rule db (action ∷ actions) =
    run_actions cfg hook e task_id task rule (run_action cfg hook e task_id task rule db action)
      actions

abbrev pub fire : Config → EventHook → Event → ℕ → TaskV2 → Rule → Db × Bool → Db
fire cfg hook e task_id task rule (db, false) =
    create_event hook db task.project_id "automation.blocked" "automation" (name rule.name)
      (("rule_name", text rule.name)
        ∷ ("reason", text "circuit_open")
        ∷ ("task_id", num task.id)
        ∷ [])
      e.created_at
fire cfg hook e task_id task rule (db, true) =
    run_actions cfg hook e task_id task rule.name
      (create_event hook db task.project_id "automation.triggered" "automation" (name rule.name)
        (("rule_name", text rule.name)
          ∷ ("trigger", text rule.trigger)
          ∷ ("task_id", num task.id)
          ∷ ("event_id", text (cfg.event_id e))
          ∷ [])
        e.created_at)
      rule.actions

-- The body of the loop over the rules.
unfoldable pub run_rule : Config → EventHook → Event → ℕ → TaskV2 → Db → Rule → Db
unfolding run_actions
run_rule cfg hook e task_id task db rule =
    if not (is_automation_rule_enabled rule) || not (str_eq rule.trigger e.kind)
    then db
    else fire cfg hook e task_id task rule (allow db rule.name e.created_at db.circuit)

unfoldable pub run_rules : Config → EventHook → Event → ℕ → TaskV2 → Db → List Rule → Db
run_rules cfg hook e task_id task db [] = db
run_rules cfg hook e task_id task db (rule ∷ rules) =
    run_rules cfg hook e task_id task (run_rule cfg hook e task_id task db rule) rules
