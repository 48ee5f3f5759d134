-- ===== src/Dependencies.antt =====
-- internal/dbstore/tasks.go and server/handlers_v2_tasks.go: the dependencies between tasks. A row is a pair of
-- a task and the task that it depends on. The recursive query of the cycle check is the queue that
-- SQLite runs it with: a row is taken out, and the rows that it leads to are added unless they were
-- added before. Its fuel is the number of dependencies.
pub mod Reach
pub mod Search
pub mod Decides
pub mod Later
pub mod Orderly
pub mod Fresh
pub mod Acyclic
pub mod Server
pub mod Replies
mod Examples
use cocopilot.Prelude.{
  ℕ, zero, suc, String, Bool, true, false, not, ◌&&◌, ◌||◌, Option, none, some, List, [], ◌∷◌, ◌++◌,
  map, keep, any, length, ltb, ◌==◌, if◌then◌else◌,
}
use cocopilot.Prelude.Dict.{Dict}
use cocopilot.Models.{is_terminal}
use cocopilot.Dbstore.{
  Db, Value, num, decimal, pair, EventHook, Result, ok, err, task_dependency_exists, create_event,
  resolve_task_project_id,
}
use cocopilot.Dbstore.Tasks.{TaskV2, get_task_v2}

abbrev pub Edges : Type 0
Edges = List (ℕ × ℕ)

abbrev pub mem : ℕ → List ℕ → Bool
mem x ys = any (λ y. y == x) ys

abbrev pub has_edge : ℕ → ℕ → Edges → Bool
has_edge a b es = any (λ e. e.0 == a && e.1 == b) es

-- SELECT depends_on_task_id FROM task_dependencies WHERE task_id = ?
unfoldable pub targets : ℕ → Edges → List ℕ
targets a es = map (λ e. e.1) (keep (λ e. e.0 == a) es)

-- UNION: the rows that were not seen are appended to the queue.
unfoldable pub enqueue : List ℕ → List ℕ → List ℕ → List ℕ × List ℕ
enqueue [] queue seen = (queue, seen)
enqueue (t ∷ ts) queue seen =
    let fresh = enqueue ts (queue ++ t ∷ []) (t ∷ seen) in
    let known = enqueue ts queue seen in if mem t seen then known else fresh

-- The rows of `deps` once the queue is empty.
unfoldable pub deps : ℕ → Edges → List ℕ → List ℕ → List ℕ
unfolding targets enqueue
deps zero es queue seen = seen
deps (suc fuel) es [] seen = seen
deps (suc fuel) es (d ∷ queue) seen =
    let (queue', seen') = enqueue (targets d es) queue seen in deps fuel es queue' seen'

-- TaskDependencyCreatesCycle
unfoldable pub creates_cycle : Edges → ℕ → ℕ → Bool
unfolding targets enqueue deps
creates_cycle es task_id depends_on =
    let (queue, seen) = enqueue (targets depends_on es) [] [] in
    if task_id == depends_on then true else mem task_id (deps (length es) es queue seen)

-- emitTaskDependencyEvent
unfoldable pub emit_dependency_event : EventHook → Db → String → ℕ → ℕ → ℕ → Db
unfolding create_event
emit_dependency_event hook db kind task_id depends_on now =
    create_event hook db (resolve_task_project_id db task_id) kind "task_dependency"
      (pair task_id depends_on) (("task_id", num task_id) ∷ ("depends_on_id", num depends_on) ∷ [])
      now

abbrev pub project_of : Option TaskV2 → String
project_of none = ""
project_of (some t) = t.project_id

abbrev pub emit_blocked : EventHook → Db → ℕ → ℕ → ℕ → Option TaskV2 → Db
emit_blocked hook db task_id depends_on now none = db
emit_blocked hook db task_id depends_on now (some other) =
    if is_terminal other.status_v2
    then db
    else create_event hook db (project_of (get_task_v2 db task_id)) "task.blocked" "task"
        (decimal task_id) (("task_id", num task_id) ∷ ("blocked_by_task_id", num depends_on) ∷ [])
        now

-- CreateTaskDependency: the primary key and the check of the table are its constraints.
unfoldable pub create_task_dependency : EventHook → Db → ℕ → ℕ → ℕ → Db × Result (ℕ × ℕ)
unfolding emit_dependency_event
create_task_dependency hook db task_id depends_on now =
    let inserted = record db {
      task_dependencies = db.task_dependencies ++ (task_id, depends_on) ∷ [];
    } in
    let db' =
      emit_dependency_event hook inserted "task.dependency.created" task_id depends_on now in
    if has_edge task_id depends_on db.task_dependencies || task_id == depends_on
    then (db, err task_dependency_exists)
    else (
      emit_blocked hook db' task_id depends_on now (get_task_v2 db' depends_on),
      ok (task_id, depends_on),
    )

-- DeleteTaskDependency, with whether a row was there.
unfoldable pub delete_task_dependency : EventHook → Db → ℕ → ℕ → ℕ → Db × Bool
unfolding emit_dependency_event
delete_task_dependency hook db task_id depends_on now =
    let deleted = record db {
      task_dependencies =
          keep (λ e. not (e.0 == task_id && e.1 == depends_on)) db.task_dependencies;
    } in
    if has_edge task_id depends_on db.task_dependencies
    then (emit_dependency_event hook deleted "task.dependency.deleted" task_id depends_on now, true)
    else (deleted, false)

-- TaskExists
abbrev pub task_exists : Db → ℕ → Bool
task_exists db id = any (λ t. t.id == id) db.tasks

-- What the handler answers.
pub data Reply : Type 0 where
  invalid_argument not_found conflict : Reply
  created : ℕ × ℕ → Reply

abbrev pub reply_to : Db × Result (ℕ × ℕ) → Db × Reply
reply_to (db, ok dependency) = (db, created dependency)
reply_to (db, err e) = (db, conflict)

-- v2TaskDependenciesHandler on a POST whose body decodes; a number that is not positive is written 0.
unfoldable pub post_dependency : EventHook → Db → ℕ → ℕ → ℕ → Db × Reply
unfolding creates_cycle create_task_dependency
post_dependency hook db task_id depends_on now =
    if task_id == 0 || depends_on == 0 || depends_on == task_id
    then (db, invalid_argument)
    else if not (task_exists db task_id && task_exists db depends_on)
    then (db, not_found)
    else if creates_cycle db.task_dependencies task_id depends_on
    then (db, conflict)
    else reply_to (create_task_dependency hook db task_id depends_on now)
