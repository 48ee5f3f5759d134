-- ===== src/ProjectTasks/Examples.antt =====
-- Requests that create a task.
use cocopilot.Prelude.{◌≡◌, refl, String, false, none, some, [], ◌∷◌}
use cocopilot.Prelude.Int.{pos}
use cocopilot.Models.{TaskType}
use cocopilot.Prelude.Text.{trim_space, is_blank}
use cocopilot.Dbstore.Fixtures.{two_tasks, no_hook}
use cocopilot.Automation.Examples.{settings}
use cocopilot.ProjectTasks.{TaskRequest, TaskTemplate, TaskReply, with_defaults, post_project_task}

abbrev release_notes : TaskTemplate
release_notes = record {
  name = "Notes";
  instructions = "Write the release notes";
  default_type = some TaskType.doc;
  default_priority = pos 0;
  default_tags = "docs" ∷ [];
  default_loop_anchor = none;
}

abbrev of_template : String → TaskRequest
of_template instructions = record {
  instructions = instructions;
  parent_task_id = none;
  project_id = "p";
  requires_approval = false;
  meta = record {
    title = none;
    task_type = some TaskType.plan;
    priority = none;
    tags = [];
    loop_anchor_prompt = none;
  };
  depends_on = [];
  template_id = some "t";
}

request_goes_first : with_defaults release_notes (of_template "go").meta ≡ record {
  title = some "Notes";
  task_type = some TaskType.plan;
  priority = none;
  tags = "docs" ∷ [];
  loop_anchor_prompt = none;
}
unfolding with_defaults
request_goes_first = refl

-- A request that leaves the instructions to its template is refused.
template_has_no_say :
    (post_project_task
      (settings [])
      (λ id. some release_notes)
      no_hook
      two_tasks
      "p"
      (of_template " ")
      1).1
    ≡ TaskReply.invalid_argument
unfolding post_project_task is_blank trim_space
template_has_no_say = refl
