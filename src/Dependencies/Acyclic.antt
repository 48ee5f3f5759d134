-- ===== src/Dependencies/Acyclic.antt =====
-- Sequences of the requests that change the dependencies. Besides them only v2SeedDemoHandler of
-- server/handlers_v2_misc.go writes a dependency: one, into an empty table of tasks.
use cocopilot.Prelude.{ℕ, String, Option, List, [], ◌∷◌}
use cocopilot.Dbstore.{Db, EventHook}
use cocopilot.Dbstore.Creation.{next_id}
use cocopilot.Automation.{Config}
use cocopilot.ProjectTasks.{TaskRequest, TaskTemplate, post_project_task}
use cocopilot.ProjectTasks.Growing.{NamesPast}
use cocopilot.ProjectTasks.Keeps.{post_project_task-IsOrderly}
use cocopilot.Dependencies.{delete_task_dependency, post_dependency}
use cocopilot.Dependencies.Later.{KeepsDependencies}
use cocopilot.Dependencies.Orderly.{IsOrderly, post_dependency-IsOrderly, delete-IsOrderly}

-- The requests that change the dependencies: one is added, one is deleted, or a task of a project is
-- created with those that its request lists.
pub data Request : Type 0 where
  posts deletes : ℕ → ℕ → Request
  creates : String → TaskRequest → Request

module _ (cfg : Config) (templates : String → Option TaskTemplate) (hook : EventHook) where
  -- Each request comes with its time.
  unfoldable pub request : Db → ℕ × Request → Db
  unfolding post_dependency delete_task_dependency post_project_task
  request db (now, posts task_id depends_on) = (post_dependency hook db task_id depends_on now).0
  request db (now, deletes task_id depends_on) =
      (delete_task_dependency hook db task_id depends_on now).0
  request db (now, creates project_id r) =
      (post_project_task cfg templates hook db project_id r now).0

  unfoldable pub requests : Db → List (ℕ × Request) → Db
  requests db [] = db
  requests db (r ∷ rs) = requests (request db r) rs

  -- No creation request lists a task that is still to come when it is handled.
  abbrev pub Past : Db → ℕ × Request → Type 0
  Past db (now, creates project_id r) = NamesPast (next_id db.tasks) r.depends_on
  Past db _ = Unit

  abbrev pub AllPast : Db → List (ℕ × Request) → Type 0
  AllPast db [] = Unit
  AllPast db (r ∷ rs) = Past db r × AllPast (request db r) rs

  request-IsOrderly :
      KeepsDependencies hook
      → (db : Db) (r : ℕ × Request) → Past db r
      → IsOrderly db
      → IsOrderly (request db r)
  unfolding request
  request-IsOrderly keeps db (now, posts task_id depends_on) past h =
      post_dependency-IsOrderly hook keeps db task_id depends_on now h
  request-IsOrderly keeps db (now, deletes task_id depends_on) past h =
      delete-IsOrderly hook keeps db task_id depends_on now h
  request-IsOrderly keeps db (now, creates project_id r) past h =
      post_project_task-IsOrderly hook keeps r now cfg templates db project_id past h

  -- Requests add dependencies, delete them, or create tasks with a list of those they wait for. If no
  -- such list names an id that is not given out yet when its request is handled, and if the event
  -- hook leaves the dependencies alone and deletes no task, then any sequence of requests keeps this:
  -- no task depends on itself, directly or through others, and all dependencies are among ids that
  -- were given out.
  pub requests-IsOrderly :
      KeepsDependencies hook
      → (db : Db) (rs : List (ℕ × Request)) → AllPast db rs
      → IsOrderly db
      → IsOrderly (requests db rs)
  unfolding requests
  requests-IsOrderly keeps db [] past h = h
  requests-IsOrderly keeps db (r ∷ rs) past h =
      requests-IsOrderly keeps (request db r) rs past.1 (request-IsOrderly keeps db r past.0 h)
