-- ===== src/Lib.antt =====
-- Cocopilot: a server that hands out tasks to coding agents. Tasks, leases, runs and events are
-- tables of an SQLite database; agents claim a task, which gives it a lease and a run, and complete,
-- fail or cancel it; every change files an event, and events drive the automation, which creates
-- further tasks. A rate limiter and a circuit breaker bound what agents and rules may do.
--
-- The parts, and what stands for them:
--   internal/models: the statuses and their mappings (Models), and the timestamps, which are texts
--     that the database compares as texts (Timestamps).
--   internal/dbstore: the tables as lists of rows in the record Db (Dbstore), with the event log
--   (create_event), the leases (Dbstore/Leases), the task rows (Dbstore/Tasks) and the runs
--   (Dbstore/Runs). An operation takes the database and returns it with its result.
--   server/assignment.go: ClaimTaskByID (Assignment), ClaimNext with the queries of
--   server/handlers_v2_tasks.go (ClaimNext), CompleteTask and FailTask, with CancelTask of
--   server/finalization.go (Finish).
--   internal/dbstore/tasks.go and the handler of dependencies (Dependencies), and
--   GetTaskParentChain (Parents).
--   server/handlers_v2_projects.go: the request that creates a task of a project, with the
--   dependencies it lists (ProjectTasks).
--   internal/policy: the rules and their evaluation (Policy).
--   internal/ratelimit: the sliding-window limiter (RateLimit).
--   server/assignment.go: enforceContextBudget (ContextBudget).
--   server/operations.go and processLeaseExpiredEvent of server/automation.go (Requeue).
--   server/automation.go: the records of emissions (Emissions) and the circuit breaker of the rules
--   (Circuit).
--   server/automation.go: processAutomationEvent. Its settings, the policies that block and the tasks
--   for humans (Automation), the text templates (Automation/Template), the rules and their actions
--   (Automation/Rules), the guards before them (Automation/Guards), the workers for the system's own
--   events (Automation/Workers), and the whole, as server/db_v2.go sets it (Automation/Hook). It creates
--   tasks (Dbstore/Creation), memories (Dbstore/Memories) and events.
--   server/finalization.go: CompleteTaskWithPayload and FailTaskWithError (Finalization/Paths), the
--   memories they leave (Finalization/Extraction), and redactSecrets (Finalization/Redaction).
--   internal/dbstore: ListTasksV2 and the lists of events, with their pruning (Listing).
--   internal/migrate: the migrations and their run (Migrate).
--   server/auth.go: the keys and scopes of requests (Auth).
-- Functions keep the names of the code in snake case. A transaction that fails gives back the
-- database it began with. The clock and new identifiers are arguments. What CreateEvent calls after an
-- event is an argument too, a function from the database and the event to the database; theorems that
-- depend on it name what they need of it. The automation is such a function, server_hook.
--
-- Bounds: numbers are unbounded. Loops run over lists, but for five on fuel, which is shown to be
-- enough: the recursive query of the cycle check, with the number of dependencies, the trimming of
-- a context, with its number of entries, the walk up the parents, with the number of tasks and one
-- more, the loop of the redaction, with the length of the text, and the calls of the automation to
-- itself, with three. The digits of a number are on fuel too, the number itself. A status column
-- holds one of the declared constants. The clock stands still while an event is handled.
-- Errors of the database but for its constraints are not modelled, nor are foreign keys, which no
-- connection of the program turns on.
--
-- Not modelled: the HTTP layer, pages, broadcast, the worker client, the configuration and the
-- storage that only inserts and lists; planning is not modelled either, nor are the tables of
-- repository files and context packs, with the scan that fills them. The decoding of JSON, digests,
-- LIKE and the execution of SQL statements are arguments. So is the order of rows that a query leaves
-- open: of those that are equal in its ORDER BY, and of all where it has none.
mod Prelude
pub mod Models
pub mod Timestamps
pub mod Dbstore
pub mod Assignment
pub mod ClaimNext
pub mod Dependencies
pub mod Finish
pub mod RateLimit
pub mod Policy
pub mod ContextBudget
pub mod Emissions
pub mod Requeue
pub mod Parents
pub mod Auth
pub mod Circuit
pub mod Automation
pub mod ProjectTasks
pub mod Finalization
pub mod Migrate
pub mod Listing
