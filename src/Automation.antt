-- ===== src/Automation.antt =====
-- server/automation.go: what the server does on an event. Here are the configuration, the policies that
-- block an action, and the tasks that the automation creates; the children have the templates, the
-- rules, the workers of the system's own events, and the hook itself. Logging and the broadcast to
-- the browsers are left out. The clock of a run is the time of its event.
pub mod Template
pub mod Rules
pub mod Guards
pub mod Workers
pub mod Hook
pub mod Keeps
pub mod Promises
pub mod Depth
pub mod Nesting
pub mod Unblocks
pub mod Examples
use Prim.Native.String
use cocopilot.Prelude.{
  ℕ, ◌+◌, ◌*◌, ◌/◌, String, Bool, true, false, not, ◌&&◌, ◌||◌, Option, none, some, List, [], ◌∷◌,
  ◌++◌, any, str_eq, ◌==◌, if◌then◌else◌,
}
use cocopilot.Prelude.Int.{ℤ}
use cocopilot.Prelude.Dict.{Dict, lookup}
use cocopilot.Prelude.Text.{trim_space, to_lower, decimal_text}
use cocopilot.Models.{TaskStatusV2, TaskType, is_terminal}
use cocopilot.Policy.{Field, Policy}
use cocopilot.Policy
use cocopilot.Emissions.{try_record_emission}
use cocopilot.Dbstore.{
  Db, TaskRow, Event, EventHook, Value, num, text, texts, flag, decimal, name, create_event,
}
use cocopilot.Dbstore.Tasks.{TaskV2, set_task_automation_depth}
use cocopilot.Dbstore.Creation.{TaskMeta, create_task_v2_with_meta}

-- The actions of a rule; `task_type` holds one of the types that a rule may name.
pub record TaskSpec : Type 0 where
  pub title : Option String
  pub instructions : String
  pub task_type : Option TaskType
  pub priority : Option ℤ
  pub tags : List String
  pub parent : Option String

pub record Action : Type 0 where
  pub kind : String
  pub task : TaskSpec

pub record Rule : Type 0 where
  pub name : String
  pub enabled : Option Bool
  pub trigger : String
  pub actions : List Action

-- The settings of the process, the policies of each project, the projects there are, and what is
-- outside of the code: the digest of emission keys, the identifiers of events, whether the database
-- refuses a new task, the order in which a query without ORDER BY returns the dependents of a task,
-- and the column `deleted_at` of tasks, which no migration makes: a query that names it fails without it.
pub record Config : Type 0 where
  pub rules : List Rule
  pub max_depth : ℤ
  pub rate_limit_hour : ℤ
  pub burst_limit_minute : ℤ
  pub emission_window : ℕ
  pub policies : String → List Policy
  pub has_project : String → Bool
  pub digest : String → String → ℕ → String
  pub event_id : Event → String
  pub insert_fails : Db → Bool
  pub join_order : List TaskRow → List TaskRow
  pub deleted_at : Option (TaskRow → Bool)

abbrev pub is_automation_rule_enabled : Rule → Bool
is_automation_rule_enabled rule = elim rule.enabled [ none ↦ true | some b ↦ b ]

abbrev reason_of : Option Field → String
reason_of (some (Field.text s)) = trim_space s
reason_of _ = ""

abbrev is_text : String → Option Field → Bool
is_text kind (some (Field.text s)) = str_eq (to_lower (trim_space s)) kind
is_text kind _ = false

-- policyBlocksAutomation, and its four copies for other kinds of block: the reason, if one blocks.
unfoldable pub policy_blocks : String → List Policy.Rule → Option String
policy_blocks kind [] = none
policy_blocks kind (rule ∷ rules) =
    if is_text kind (lookup "type" rule)
    then some (reason_of (lookup "reason" rule))
    else policy_blocks kind rules

-- emitPolicyDeniedEvent
unfoldable pub emit_policy_denied_event : EventHook → Db → String → String → String → ℕ → Db
emit_policy_denied_event hook db project_id action reason now =
    create_event hook db project_id "policy.denied" "policy" (name action)
      (("action", text action) ∷ ("reason", text reason) ∷ []) now

-- The policies of a project, in order: the first enabled one that blocks is reported.
unfoldable pub blocked_by_policies :
    EventHook → Db → String → String → String → List Policy → ℕ → Db × Option String
unfolding policy_blocks emit_policy_denied_event
blocked_by_policies hook db project_id kind action [] now = (db, none)
blocked_by_policies hook db project_id kind action (p ∷ ps) now =
    let rest = blocked_by_policies hook db project_id kind action ps now in
    if p.enabled
    then elim (policy_blocks kind p.rules) [
      | none ↦ rest
      | some reason ↦ (emit_policy_denied_event hook db project_id action reason now, some reason)
    ]
    else rest

unfoldable pub is_automation_blocked_by_policies :
    Config → EventHook → Db → String → ℕ → Db × Option String
unfolding blocked_by_policies
is_automation_blocked_by_policies cfg hook db project_id now =
    blocked_by_policies hook db project_id "automation.block" "automation" (cfg.policies project_id)
      now

unfoldable pub is_completion_blocked_by_policies :
    Config → EventHook → Db → String → ℕ → Db × Option String
unfolding blocked_by_policies
is_completion_blocked_by_policies cfg hook db project_id now =
    blocked_by_policies hook db project_id "completion.block" "task.complete"
      (cfg.policies project_id) now

unfoldable pub is_task_create_blocked_by_policies :
    Config → EventHook → Db → String → ℕ → Db × Option String
unfolding blocked_by_policies
is_task_create_blocked_by_policies cfg hook db project_id now =
    blocked_by_policies hook db project_id "task.create.block" "task.create"
      (cfg.policies project_id) now

unfoldable pub is_task_update_blocked_by_policies :
    Config → EventHook → Db → String → ℕ → Db × Option String
unfolding blocked_by_policies
is_task_update_blocked_by_policies cfg hook db project_id now =
    blocked_by_policies hook db project_id "task.update.block" "task.update"
      (cfg.policies project_id) now

unfoldable pub is_task_delete_blocked_by_policies :
    Config → EventHook → Db → String → ℕ → Db × Option String
unfolding blocked_by_policies
is_task_delete_blocked_by_policies cfg hook db project_id now =
    blocked_by_policies hook db project_id "task.delete.block" "task.delete"
      (cfg.policies project_id) now

-- TryRecordEmission on the table; its times are in seconds.
unfoldable pub try_emission : Config → Db → String → String → Option ℕ → ℕ → Db × Bool
try_emission cfg db project_id kind task_id now =
    let (es, recorded) =
      try_record_emission cfg.digest cfg.emission_window db.automation_emissions project_id kind
        task_id (now / 1000000) in
    (record db { automation_emissions = es }, recorded)

-- CreateTaskV2WithMeta, where the insertion may be refused.
unfoldable pub try_create :
    Config → Db → String → String → Option ℕ → TaskMeta → ℕ → Db × Option TaskV2
try_create cfg db instructions project_id parent_task_id meta now =
    if cfg.insert_fails db
    then (db, none)
    else create_task_v2_with_meta db instructions project_id parent_task_id meta now

abbrev pub announce_task : EventHook → String → Dict Value → ℕ → Db × Option TaskV2 → Db
announce_task hook project_id extra now (db, none) = db
announce_task hook project_id extra now (db, some child) =
    create_event hook db project_id "task.created" "task" (decimal child.id)
      (("task_id", num child.id) ∷ extra) now

abbrev pub human_task : String → List String → TaskMeta
human_task title tags = record {
  title = some title;
  task_type = some TaskType.review;
  priority = none;
  tags = tags;
  loop_anchor_prompt = none;
}

abbrev pub concat : List String → String
concat [] = ""
concat (s ∷ ss) = String.◌++◌ s (concat ss)

-- createAutomationEscalateTask
unfoldable pub create_automation_escalate_task : Config → EventHook → Db → TaskV2 → String → ℕ → Db
create_automation_escalate_task cfg hook db parent_task reason now =
    let instructions = concat (
      "Automation escalation for task "
      ∷ decimal_text parent_task.id
      ∷ " in project "
      ∷ parent_task.project_id
      ∷ ".\n\nReason: "
      ∷ reason
      ∷ "\n\nPlease review the automation configuration and resolve the underlying issue."
      ∷ []) in
    let tags = "needs_human" ∷ "escalation" ∷ "auto" ∷ [] in
    announce_task hook parent_task.project_id
      (("instructions", text instructions)
        ∷ ("tags", texts tags)
        ∷ ("auto", flag true)
        ∷ ("escalation", flag true)
        ∷ [])
      now
      (try_create cfg db instructions parent_task.project_id (some parent_task.id)
        (human_task "Automation Escalation: Review Required" tags) now)

-- createAutomationReviewTask
unfoldable pub create_automation_review_task : Config → EventHook → Db → TaskV2 → String → ℕ → Db
create_automation_review_task cfg hook db parent_task reason now =
    let instructions = concat (
      "Automation limits exceeded for task "
      ∷ decimal_text parent_task.id
      ∷ " in project "
      ∷ parent_task.project_id
      ∷ ".\n\nReason: "
      ∷ reason
      ∷ "\n\nPlease review automation rules and adjust limits if needed."
      ∷ []) in
    let tags = "needs_human" ∷ "review" ∷ "auto" ∷ [] in
    announce_task hook parent_task.project_id
      (("instructions", text instructions) ∷ ("tags", texts tags) ∷ ("auto", flag true) ∷ []) now
      (try_create cfg db instructions parent_task.project_id (some parent_task.id)
        (human_task "Automation Review: Limits Exceeded" tags) now)

abbrev same_num : Option ℕ → ℕ → Bool
same_num none n = false
same_num (some m) n = m == n

abbrev same_text : Option String → String → Bool
same_text none s = false
same_text (some r) s = str_eq r s

abbrev is_open_row : Option TaskStatusV2 → Bool
is_open_row none = false
is_open_row (some s) = not (is_terminal s)

-- isFollowUpDuplicate
unfoldable pub is_follow_up_duplicate : Db → String → ℕ → String → Bool
is_follow_up_duplicate db project_id parent_id title =
    any
      (λ t.
        str_eq t.project_id project_id
        && same_num t.parent_task_id parent_id
        && same_text t.title title
        && is_open_row t.status_v2)
      db.tasks
