-- ===== src/Dbstore.antt =====
-- internal/dbstore: the tables that tasks are claimed and finished through, and the event log.
-- Every call takes the clock's value as `now`, in microseconds; an operation reads the clock once.
-- Queries and statements succeed, but for the constraints of the tables: the errors of a broken or
-- busy database are not modelled. Foreign keys are not enforced: no connection turns them on. New
-- identifiers come from the uuid package, so they are arguments. An event has no identifier.
pub mod Leases
pub mod Tasks
pub mod Runs
pub mod Rows
pub mod Creation
pub mod Ids
pub mod Memories
pub mod OneLease
pub mod Fixtures
mod Examples
use cocopilot.Prelude.{
  ℕ, zero, suc, String, Bool, true, false, Option, none, some, List, [], ◌∷◌, ◌++◌, ltb, ◌==◌,
  str_eq, find?, ◌||◌, if◌then◌else◌,
}
use cocopilot.Prelude.Int.{ℤ}
use cocopilot.Prelude.Dict.{Dict, lookup}
use cocopilot.Prelude.Text.{trim_space, is_blank}
use cocopilot.Emissions.{Emission}
use cocopilot.RateLimit.{Limiter}
use cocopilot.Circuit.{Breaker}
use cocopilot.Models.{TaskStatus, TaskStatusV2, RunStatus, TaskType}

-- A row of `tasks`. A nullable column is an Option; `tags` is the decoded `tags_json`.
pub record TaskRow : Type 0 where
  pub id : ℕ
  pub project_id : String
  pub title : Option String
  pub instructions : String
  pub task_type : Option TaskType
  pub priority : ℤ
  pub tags : List String
  pub status : TaskStatus
  pub status_v2 : Option TaskStatusV2
  pub parent_task_id : Option ℕ
  pub output : Option String
  pub created_at : ℕ
  pub updated_at : Option ℕ
  pub automation_depth : ℕ
  pub requires_approval : Bool
  pub approval_status : Option String
  pub loop_anchor_prompt : Option String

pub record Lease : Type 0 where
  pub id : String
  pub task_id : ℕ
  pub agent_id : String
  pub mode : String
  pub created_at : ℕ
  pub expires_at : ℕ

pub record Run : Type 0 where
  pub id : String
  pub task_id : ℕ
  pub agent_id : String
  pub status : RunStatus
  pub started_at : ℕ
  pub finished_at : Option ℕ
  pub error : Option String

-- A value of an event's payload.
pub data Value : Type 0 where
  num : ℕ → Value
  text : String → Value
  stamp : ℕ → Value
  v1 : TaskStatus → Value
  v2 : TaskStatusV2 → Value
  run_status : RunStatus → Value
  flag : Bool → Value
  int : ℤ → Value
  texts : List String → Value
  of_type : TaskType → Value
  percent : ℕ → Value

-- The id of an event's entity: the decimal digits of a number, those of two numbers with a colon
-- between, or a text that is no number.
pub data EntityId : Type 0 where
  decimal : ℕ → EntityId
  pair : ℕ → ℕ → EntityId
  name : String → EntityId

-- A row of `run_summaries`, without its id; what an agent says of the work that it completed.
pub record CompletionRunSummary : Type 0 where
  pub run_id : String
  pub task_id : ℕ
  pub status : RunStatus
  pub summary : String
  pub changes_made : List String
  pub files_touched : List String
  pub commands_run : List String
  pub tests_run : List String
  pub risks : List String
  pub created_at : ℕ

-- A row of `memory`, without its id and its references.
pub record Memory : Type 0 where
  pub project_id : String
  pub scope : String
  pub key : String
  pub value : Dict Value
  pub updated_at : ℕ

pub record Event : Type 0 where
  pub project_id : String
  pub kind : String
  pub entity_type : String
  pub entity_id : EntityId
  pub created_at : ℕ
  pub payload : Dict Value

-- The tables, with what the automation keeps in the process's memory: its rate limiter and its circuit
-- breaker, which may be missing.
pub record Db : Type 0 where
  pub tasks : List TaskRow
  pub leases : List Lease
  pub runs : List Run
  pub events : List Event
  pub task_dependencies : List (ℕ × ℕ)
  pub automation_emissions : List Emission
  pub memories : List Memory
  pub run_summaries : List CompletionRunSummary
  pub limiter : Limiter
  pub circuit : Option Breaker

pub data Error : Type 0 where
  lease_conflict lease_not_found task_not_found terminal_state task_dependency_exists
        constraint_failed :
      Error

pub data Result {ℓ} (A : Type ℓ) : Type ℓ where
  ok : A → Result A
  err : Error → Result A

infixl 5 ◌>>=◌
abbrev pub ◌>>=◌ {ℓ κ} : {A : Type ℓ} {B : Type κ} → Result A → (A → Result B) → Result B
ok a >>= f = f a
err e >>= f = err e

-- OnEventCreated, which the server sets; the database is an argument, and comes back changed.
abbrev pub EventHook : Type 0
EventHook = Db → Event → Db

abbrev pub default_project_id : String
default_project_id = "proj_default"

-- ParseEventTaskID: Atoi of the digits, refused unless positive.
abbrev pub parse_event_task_id : EntityId → Option ℕ
parse_event_task_id (decimal zero) = none
parse_event_task_id (decimal (suc n)) = some (suc n)
parse_event_task_id (pair a b) = none
parse_event_task_id (name s) = none

-- TaskIDFromPayload: a payload that the code builds holds the id as a number.
abbrev positive_num : Option Value → Option ℕ
positive_num (some (num (suc n))) = some (suc n)
positive_num _ = none

unfoldable pub task_id_from_payload : Dict Value → Option ℕ
task_id_from_payload payload = positive_num (lookup "task_id" payload)

unfoldable pub find_task : ℕ → List TaskRow → Option TaskRow
find_task id = find? (λ t. t.id == id)

abbrev project_or_default : Option TaskRow → String
project_or_default none = default_project_id
project_or_default (some t) = if is_blank t.project_id then default_project_id else t.project_id

unfoldable pub resolve_task_project_id : Db → ℕ → String
unfolding find_task
resolve_task_project_id db id = project_or_default (find_task id db.tasks)

abbrev resolve_or_default : Db → Option ℕ → String
resolve_or_default db none = default_project_id
resolve_or_default db (some id) = resolve_task_project_id db id

abbrev or_else : Option ℕ → Option ℕ → Option ℕ
or_else none b = b
or_else (some a) b = some a

-- resolveEventProjectID. For a dependency whose payload names no task the code reads the part of
-- the entity id before its colon; the two such events of the code name the task in their payload.
unfoldable pub resolve_event_project_id : Db → String → String → EntityId → Dict Value → String
unfolding task_id_from_payload resolve_task_project_id
resolve_event_project_id db project_id entity_type entity_id payload =
    if is_blank project_id
    then (if str_eq entity_type "task"
        then resolve_or_default db (parse_event_task_id entity_id)
        else if str_eq entity_type "task_dependency" || str_eq entity_type "lease"
        then resolve_or_default db (task_id_from_payload payload)
        else default_project_id)
    else trim_space project_id

abbrev pub log_event : Db → Event → Db
log_event db e = record db { events = db.events ++ e ∷ [] }

-- CreateEvent: the row is inserted, then the hook runs.
unfoldable pub create_event :
    EventHook → Db → String → String → String → EntityId → Dict Value → ℕ → Db
unfolding resolve_event_project_id
create_event hook db project_id kind entity_type entity_id payload now =
    let event : Event = record {
      project_id = resolve_event_project_id db project_id entity_type entity_id payload;
      kind = kind;
      entity_type = entity_type;
      entity_id = entity_id;
      created_at = now;
      payload = payload;
    } in
    hook (log_event db event) event

-- CreateEventTx: OnEventCreatedTx only publishes to listeners, so no hook changes the database.
unfoldable pub create_event_tx : Db → String → String → String → EntityId → Dict Value → ℕ → Db
create_event_tx db project_id kind entity_type entity_id payload now = log_event db (record {
  project_id = if is_blank project_id then default_project_id else project_id;
  kind = kind;
  entity_type = entity_type;
  entity_id = entity_id;
  created_at = now;
  payload = payload;
})
