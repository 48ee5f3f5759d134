-- ===== src/Dbstore/Tasks.antt =====
-- internal/dbstore/tasks.go: reading a task, and the statements that change its row.
use Prim.Native.Char.{Char, code}
use cocopilot.Prelude.{
  ℕ, String, Bool, true, false, ◌&&◌, Option, none, some, List, map, ◌==◌, if◌then◌else◌,
}
use cocopilot.Prelude.Int.{ℤ}
use cocopilot.Models.{TaskStatus, TaskStatusV2, TaskType, v1_to_v2}
use cocopilot.Dbstore.{Db, TaskRow, find_task}

pub record TaskV2 : Type 0 where
  pub id : ℕ
  pub project_id : String
  pub title : Option String
  pub instructions : String
  pub task_type : TaskType
  pub priority : ℤ
  pub tags : List String
  pub status_v1 : TaskStatus
  pub status_v2 : TaskStatusV2
  pub parent_task_id : Option ℕ
  pub output : Option String
  pub created_at : ℕ
  pub updated_at : ℕ
  pub automation_depth : ℕ
  pub requires_approval : Bool
  pub approval_status : Option String
  pub loop_anchor_prompt : Option String

abbrev pub or {ℓ} : {A : Type ℓ} → Option A → A → A
or none d = d
or (some a) d = a

-- strings.ReplaceAll(output, "\\n", "\n"): a backslash and an n become a line feed.
abbrev with_newlines : String → String
with_newlines String.[] = String.[]
with_newlines (String.◌∷◌ c String.[]) = String.◌∷◌ c String.[]
with_newlines (String.◌∷◌ c (String.◌∷◌ d s)) =
    let replaced = String.◌∷◌ newline (with_newlines s) in
    let kept = String.◌∷◌ c (with_newlines (String.◌∷◌ d s)) in
    if code c == 92 && code d == b'n' then replaced else kept
  where
    newline : Char
    newline = "\n"

abbrev map_output : Option String → Option String
map_output none = none
map_output (some s) = some (with_newlines s)

-- The columns of a row as a task.
unfoldable pub to_task_v2 : TaskRow → TaskV2
to_task_v2 t = record {
  id = t.id;
  project_id = t.project_id;
  title = t.title;
  instructions = t.instructions;
  task_type = or t.task_type TaskType.modify;
  priority = t.priority;
  tags = t.tags;
  status_v1 = t.status;
  status_v2 = or t.status_v2 (v1_to_v2 t.status);
  parent_task_id = t.parent_task_id;
  output = map_output t.output;
  created_at = t.created_at;
  updated_at = or t.updated_at t.created_at;
  automation_depth = t.automation_depth;
  requires_approval = t.requires_approval;
  approval_status = t.approval_status;
  loop_anchor_prompt = t.loop_anchor_prompt;
}

-- A task as a query reads it that leaves the columns of the approval out.
abbrev pub without_approval : TaskV2 → TaskV2
without_approval task = record task { requires_approval = false; approval_status = none }

-- GetTaskV2; `none` is its "task not found".
unfoldable pub get_task_v2 : Db → ℕ → Option TaskV2
unfolding find_task to_task_v2
get_task_v2 db id = elim (find_task id db.tasks) [ none ↦ none | some t ↦ some (to_task_v2 t) ]

-- UPDATE tasks SET … WHERE id = ? AND guard
unfoldable pub update_task : ℕ → (TaskRow → Bool) → (TaskRow → TaskRow) → Db → Db
update_task id guard change db = record db {
  tasks = map (λ t. if t.id == id && guard t then change t else t) db.tasks;
}

abbrev pub always : TaskRow → Bool
always t = true

-- SetTaskAutomationDepth
unfoldable pub set_task_automation_depth : Db → ℕ → ℕ → Db
unfolding update_task
set_task_automation_depth db id depth =
    update_task id always (λ t. record t { automation_depth = depth }) db

-- SetTaskApprovalStatus
unfoldable pub set_task_approval_status : Db → ℕ → String → ℕ → Db × Option TaskV2
unfolding update_task get_task_v2
set_task_approval_status db id status now =
    let db' =
      update_task id always (λ t. record t { approval_status = some status; updated_at = some now })
        db in
    (db', get_task_v2 db' id)
