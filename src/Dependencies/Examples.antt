-- ===== src/Dependencies/Examples.antt =====
-- Dependencies among three tasks.
use cocopilot.Prelude.{ℕ, ◌≡◌, ◌↔◌, ◌⊎◌, refl, true, none, List, arith, [], ◌∷◌}
use cocopilot.Models.{TaskStatus}
use cocopilot.Dbstore.{Db, create_event}
use cocopilot.Dbstore.Tasks.{get_task_v2, update_task}
use cocopilot.Automation.{try_create}
use cocopilot.Automation.Guards.{process_rules}
use cocopilot.Dbstore.Fixtures.{row, db_of, no_hook}
use cocopilot.Dependencies.{Edges, creates_cycle, post_dependency, created}
use cocopilot.Dependencies.Reach.{Reach, IsAcyclic}
use cocopilot.Dependencies.Decides.{creates_cycle_iff}
use cocopilot.Dependencies.Replies.{IsAccepted, post_dependency-created_iff}
use cocopilot.Dependencies.Acyclic.{
  Request, posts, deletes, creates, request, requests, AllPast, requests-IsOrderly,
}
use cocopilot.Dependencies.Orderly.{IsOrderly}
use cocopilot.Dependencies.Server.{server_hook-KeepsDependencies}
use cocopilot.Prelude.Int.{ℤ, pos, negsuc}
use cocopilot.Prelude.Text.{trim_space, is_blank}
use cocopilot.ProjectTasks.{TaskRequest}
use cocopilot.Automation.Examples.{settings}
use cocopilot.Automation.Hook.{server_hook, process_automation_event}
use cocopilot.Dbstore.Creation.{next_id, create_task_v2_with_meta}

abbrev chain : Edges
chain = (1, 2) ∷ (2, 3) ∷ []

closing_the_chain : creates_cycle chain 3 1 ≡ true
unfolding creates_cycle
closing_the_chain = refl

creates_cycle_iff_example : (creates_cycle chain 3 1 ≡ true) ↔ ((◌≡◌ {A = ℕ} 3 1) ⊎ Reach chain 1 3)
creates_cycle_iff_example = creates_cycle_iff chain 3 1

abbrev three : Db
three =
    db_of
      (row 1 TaskStatus.not_picked ∷ row 2 TaskStatus.not_picked ∷ row 3 TaskStatus.not_picked ∷ [])

post_dependency-created_iff_example :
    ((post_dependency no_hook three 3 1 9).1 ≡ created (3, 1)) ↔ IsAccepted three 3 1
post_dependency-created_iff_example = post_dependency-created_iff no_hook three 3 1 9

-- Runs of the server, without templates.
abbrev serve : Db → List (ℕ × Request) → Db
serve = requests (settings []) (λ id. none) (server_hook (settings []) 3)

abbrev task_with : List ℤ → TaskRequest
task_with depends_on = record {
  instructions = " do ";
  parent_task_id = none;
  project_id = "";
  requires_approval = true;
  meta = record {
    title = none;
    task_type = none;
    priority = none;
    tags = [];
    loop_anchor_prompt = none;
  };
  depends_on = depends_on;
  template_id = none;
}

abbrev asked : List (ℕ × Request)
asked =
    (1, creates "p" (task_with (pos 1 ∷ pos 1 ∷ negsuc 7 ∷ pos 3 ∷ [])))
    ∷ (2, posts 1 2)
    ∷ (3, posts 2 3)
    ∷ (4, posts 3 1)
    ∷ (5, deletes 1 2)
    ∷ (6, posts 3 1)
    ∷ (7, posts 1 4)
    ∷ []

four_are_stored : (serve three asked).task_dependencies ≡ (4, 1) ∷ (4, 3) ∷ (2, 3) ∷ (3, 1) ∷ []
unfolding requests request create_event get_task_v2 next_id server_hook process_automation_event
    try_create update_task process_rules is_blank trim_space create_task_v2_with_meta
four_are_stored = refl

-- Two creations, each with the id that the other will have: tasks 4 and 5 wait for each other.
a_circle_of_new_tasks :
    (serve three (
      (1, creates "p" (task_with (pos 5 ∷ [])))
      ∷ (2, creates "p" (task_with (pos 4 ∷ [])))
      ∷ [])).task_dependencies
    ≡ (4, 5) ∷ (5, 4) ∷ []
unfolding requests request create_event get_task_v2 next_id server_hook process_automation_event
    try_create update_task process_rules is_blank trim_space create_task_v2_with_meta
a_circle_of_new_tasks = refl

nothing-IsAcyclic : IsAcyclic []
nothing-IsAcyclic a (Reach.direct e) = cc
nothing-IsAcyclic a (Reach.through r e) = cc

three-IsOrderly : IsOrderly three
three-IsOrderly = record { acyclic = nothing-IsAcyclic; below = λ a b e. cc }

asked-AllPast : AllPast (settings []) (λ id. none) (server_hook (settings []) 3) three asked
unfolding next_id
asked-AllPast = (
  (omega arith, (omega arith, (omega arith, (omega arith, tt)))),
  (tt, (tt, (tt, (tt, (tt, (tt, tt)))))),
)

requests-IsOrderly_example : IsOrderly (serve three asked)
requests-IsOrderly_example =
    requests-IsOrderly (settings []) (λ id. none) (server_hook (settings []) 3)
      (server_hook-KeepsDependencies (settings []) 3) three asked asked-AllPast three-IsOrderly
