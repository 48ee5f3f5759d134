-- ===== src/Automation/Examples.antt =====
-- A server with one rule, and runs of its hook.
use Prim.Native.String
use cocopilot.Prelude.{ℕ, ◌+◌, ◌≡◌, refl, String, true, false, none, some, List, [], ◌∷◌, arith}
use cocopilot.Prelude.Int.{pos}
use cocopilot.Prelude.Text.{to_lower, decimal_text}
use cocopilot.Models.{TaskStatus, TaskStatusV2}
use cocopilot.Dbstore.{Db, Event, decimal}
use cocopilot.Dbstore.Fixtures.{row, db_of}
use cocopilot.Finish.Keeps.{IsAdditive}
use cocopilot.Automation.{Rule, Config}
use cocopilot.Automation.Template.{apply_automation_template}
use cocopilot.Automation.Workers.{classify_error_type}
use cocopilot.Automation.Hook.{process_automation_event, server_hook}
use cocopilot.Automation.Promises.{server_hook-IsAdditive}
use cocopilot.Automation.Depth.{AllShallow, server_hook-AllShallow}
use cocopilot.Automation.Nesting.Enough.{server_hook_is_enough}

abbrev retry : Rule
retry = record {
  name = "retry";
  enabled = none;
  trigger = "task.failed";
  actions =
      record {
        kind = "create_task";
        task = record {
          title = some "Retry ${task_id}";
          instructions = "Try ${task_instructions} again";
          task_type = none;
          priority = none;
          tags = [];
          parent = none;
        };
      }
      ∷ [];
}

abbrev pub settings : List Rule → Config
settings rules = record {
  rules = rules;
  max_depth = pos 5;
  rate_limit_hour = pos 100;
  burst_limit_minute = pos 10;
  emission_window = 300;
  policies = λ _. [];
  has_project = λ _. true;
  digest = λ project kind window. String.◌++◌ project (String.◌++◌ kind (decimal_text window));
  event_id = λ _. "evt";
  insert_fails = λ _. false;
  join_order = λ rows. rows;
  deleted_at = none;
}

abbrev event_of : String → ℕ → Event
event_of kind id = record {
  project_id = "p";
  kind = kind;
  entity_type = "task";
  entity_id = decimal id;
  created_at = 1000000;
  payload = [];
}

abbrev one_failed : Db
one_failed = db_of (row 1 TaskStatus.failed ∷ [])

rendered :
    apply_automation_template "${task_id}: ${other} ${task_title}"
      (("${task_id}", "7") ∷ ("${task_title}", "${task_id}") ∷ [])
    ≡ "7: ${other} ${task_id}"
unfolding apply_automation_template
rendered = refl

classified : classify_error_type "Dial tcp: Connection Refused" ≡ "network_error"
unfolding classify_error_type to_lower
classified = refl

server_hook-IsAdditive_example : IsAdditive (server_hook (settings (retry ∷ [])) 3)
server_hook-IsAdditive_example = server_hook-IsAdditive (settings (retry ∷ [])) 3

server_hook-AllShallow_example :
    AllShallow 5 (server_hook (settings (retry ∷ [])) 3 one_failed (event_of "task.failed" 1))
server_hook-AllShallow_example =
    server_hook-AllShallow (settings (retry ∷ [])) 5 3 one_failed (event_of "task.failed" 1)
      (omega arith) (omega arith) (omega arith)

server_hook_is_enough_example :
    let hook = server_hook (settings (retry ∷ [])) in
    let e = event_of "task.failed" 1 in
    (hook (4 + 3) one_failed e ≡ hook 3 one_failed e)
    × (hook 3 one_failed e ≡ process_automation_event (settings (retry ∷ [])) (hook 3) one_failed e)
server_hook_is_enough_example =
    server_hook_is_enough (settings (retry ∷ [])) 4 one_failed (event_of "task.failed" 1)

abbrev waiting : Db
waiting =
    record (db_of (
      record (row 1 TaskStatus.complete) { status_v2 = some TaskStatusV2.succeeded }
      ∷ row 2 TaskStatus.not_picked
      ∷ [])) { task_dependencies = (2, 1) ∷ [] }
