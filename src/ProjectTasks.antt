-- ===== src/ProjectTasks.antt =====
-- server/handlers_v2_projects.go: v2ProjectTasksHandler on a POST whose body decodes, which creates
-- a task of a project and files the dependencies that the request lists. A template is looked up by
-- its id. The type of a task is one of those of the model.
pub mod Growing
pub mod Keeps
mod Examples
use cocopilot.Prelude.{
  ℕ, String, Bool, true, false, not, ◌&&◌, ◌||◌, Option, none, some, List, [], ◌∷◌, str_eq,
  if◌then◌else◌,
}
use cocopilot.Prelude.Int.{ℤ, pos, pos_part, ltb_ℤ}
use cocopilot.Prelude.Text.{trim_space, is_blank}
use cocopilot.Models.{TaskType}
use cocopilot.Dbstore.{Db, EventHook}
use cocopilot.Dbstore.Tasks.{TaskV2, get_task_v2, update_task, always}
use cocopilot.Dbstore.Creation.{TaskMeta}
use cocopilot.Automation.{Config, try_create, is_task_create_blocked_by_policies}
use cocopilot.Dependencies.{create_task_dependency}

-- The body of the request.
pub record TaskRequest : Type 0 where
  pub instructions : String
  pub parent_task_id : Option ℤ
  pub project_id : String
  pub requires_approval : Bool
  pub meta : TaskMeta
  pub depends_on : List ℤ
  pub template_id : Option String

pub record TaskTemplate : Type 0 where
  pub name : String
  pub instructions : String
  pub default_type : Option TaskType
  pub default_priority : ℤ
  pub default_tags : List String
  pub default_loop_anchor : Option String

-- What the handler answers.
pub data TaskReply : Type 0 where
  invalid_argument not_found internal : TaskReply
  forbidden : String → TaskReply
  created : TaskV2 → TaskReply

abbrev given_or {ℓ} : {A : Type ℓ} → Option A → Option A → Option A
given_or none other = other
given_or (some a) other = some a

abbrev text_if_any : String → Option String
text_if_any s = if str_eq s "" then none else some s

abbrev tags_or : List String → List String → List String
tags_or [] defaults = defaults
tags_or (t ∷ ts) defaults = t ∷ ts

-- The template provides what the request leaves out.
unfoldable pub with_defaults : TaskTemplate → TaskMeta → TaskMeta
with_defaults tmpl meta = record {
  title = given_or meta.title (text_if_any tmpl.name);
  task_type = given_or meta.task_type tmpl.default_type;
  priority =
      given_or meta.priority
        (if ltb_ℤ (pos 0) tmpl.default_priority then some tmpl.default_priority else none);
  tags = tags_or meta.tags tmpl.default_tags;
  loop_anchor_prompt = given_or meta.loop_anchor_prompt tmpl.default_loop_anchor;
}

abbrev instructions_or : TaskTemplate → String → String
instructions_or tmpl instructions =
    if str_eq instructions "" && not (str_eq tmpl.instructions "")
    then tmpl.instructions
    else instructions

-- The instructions and the other columns of the task; `none` is a template that is not found.
abbrev pub filled_in :
    (String → Option TaskTemplate) → String → TaskMeta → Option String → Option (String × TaskMeta)
filled_in templates instructions meta none = some (instructions, meta)
filled_in templates instructions meta (some id) =
    if str_eq id "" then some (instructions, meta) else elim (templates id) [
      | none ↦ none
      | some tmpl ↦ some (instructions_or tmpl instructions, with_defaults tmpl meta)
    ]

-- Each positive number of the list becomes a dependency of the task; a refusal is ignored, and
-- neither cycles nor the other task are looked for.
unfoldable pub add_dependencies : EventHook → Db → ℕ → List ℤ → ℕ → Db
unfolding create_task_dependency
add_dependencies hook db id [] now = db
add_dependencies hook db id (d ∷ ds) now =
    let db' = (create_task_dependency hook db id (pos_part d) now).0 in
    let added = add_dependencies hook db' id ds now in
    let skipped = add_dependencies hook db id ds now in if ltb_ℤ (pos 0) d then added else skipped

-- The approval that a new task waits for.
abbrev pub ask_approval : Bool → Db → TaskV2 → Db × TaskV2
ask_approval false db task = (db, task)
ask_approval true db task = (
  update_task task.id always
      (λ t. record t { requires_approval = true; approval_status = some "pending_approval" }) db,
  record task { requires_approval = true; approval_status = some "pending_approval" },
)

abbrev pub finish_creation : EventHook → TaskRequest → ℕ → Db × Option TaskV2 → Db × TaskReply
finish_creation hook r now (db, none) = (db, internal)
finish_creation hook r now (db, some task) =
    let (db', task') = ask_approval r.requires_approval db task in
    (add_dependencies hook db' task.id r.depends_on now, created task')

abbrev parent_of : Option ℤ → Option ℕ
parent_of none = none
parent_of (some p) = some (pos_part p)

abbrev pub create_filled :
    Config → EventHook → Db → String → TaskRequest → ℕ → Option (String × TaskMeta) → Db × TaskReply
create_filled cfg hook db project_id r now none = (db, invalid_argument)
create_filled cfg hook db project_id r now (some (instructions, meta)) =
    finish_creation hook r now
      (try_create cfg db instructions project_id (parent_of r.parent_task_id) meta now)

abbrev pub create_unless_blocked :
    Config
    → (String → Option TaskTemplate)
    → EventHook
    → String
    → TaskRequest
    → ℕ
    → Db × Option String
    → Db × TaskReply
create_unless_blocked cfg templates hook project_id r now (db, some reason) = (db, forbidden reason)
create_unless_blocked cfg templates hook project_id r now (db, none) =
    create_filled cfg hook db project_id r now
      (filled_in templates (trim_space r.instructions) r.meta r.template_id)

abbrev pub is_positive_if_given : Option ℤ → Bool
is_positive_if_given none = true
is_positive_if_given (some p) = ltb_ℤ (pos 0) p

-- The parent, if one is given, is a task of the project.
abbrev pub has_parent : Db → String → Option ℤ → Bool
has_parent db project_id none = true
has_parent db project_id (some p) = elim (get_task_v2 db (pos_part p)) [
  | none ↦ false
  | some parent ↦ str_eq parent.project_id project_id
]

-- v2ProjectTasksHandler, from the decoded body on.
unfoldable pub post_project_task :
    Config
    → (String → Option TaskTemplate)
    → EventHook
    → Db
    → String
    → TaskRequest
    → ℕ
    → Db × TaskReply
unfolding with_defaults add_dependencies get_task_v2 is_task_create_blocked_by_policies
post_project_task cfg templates hook db project_id r now =
    let made =
      create_unless_blocked cfg templates hook project_id r now
        (is_task_create_blocked_by_policies cfg hook db project_id now) in
    if is_blank r.instructions
    then (db, invalid_argument)
    else if not (is_blank r.project_id) && not (str_eq (trim_space r.project_id) project_id)
    then (db, invalid_argument)
    else if not (is_positive_if_given r.parent_task_id)
    then (db, invalid_argument)
    else if not (cfg.has_project project_id)
    then (db, not_found)
    else if not (has_parent db project_id r.parent_task_id)
    then (db, invalid_argument)
    else made
