-- ===== src/Dbstore/Runs.antt =====
-- internal/dbstore/runs.go and GetLatestRunByTaskID: the ledger of execution attempts.
use cocopilot.Prelude.{
  ℕ, String, not, Option, none, some, List, [], ◌∷◌, ◌++◌, map, keep, any, find?, ◌==◌, str_eq,
  if◌then◌else◌,
}
use cocopilot.Prelude.Dict.{Dict}
use cocopilot.Models.{RunStatus}
use cocopilot.Timestamps.{stamp_ltb}
use cocopilot.Dbstore.{
  Db, Run, Value, num, text, run_status, name, EventHook, create_event, Result, ok, err,
  constraint_failed,
}
use cocopilot.Dbstore.Tasks.{TaskV2, get_task_v2}

abbrev pub new_run : ℕ → String → String → ℕ → Run
new_run task_id agent_id run_id now = record {
  id = run_id;
  task_id = task_id;
  agent_id = agent_id;
  status = RunStatus.running;
  started_at = now;
  finished_at = none;
  error = none;
}

-- INSERT INTO runs, refused if the id is taken.
unfoldable pub insert_run : Run → Db → Result Db
insert_run run db =
    if any (λ r. str_eq r.id run.id) db.runs
    then err constraint_failed
    else ok (record db { runs = db.runs ++ run ∷ [] })

-- GetRun
unfoldable pub get_run : Db → String → Option Run
get_run db run_id = find? (λ r. str_eq r.id run_id) db.runs

-- The row that ORDER BY started_at DESC LIMIT 1 returns; of equal ones, the first.
unfoldable pub latest : List Run → Option Run
latest [] = none
latest (r ∷ rs) = elim (latest rs) [
  | none ↦ some r
  | some s ↦ if stamp_ltb r.started_at s.started_at then some s else some r
]

-- GetLatestRunByTaskID
unfoldable pub get_latest_run : Db → ℕ → Option Run
unfolding latest
get_latest_run db task_id = latest (keep (λ r. r.task_id == task_id) db.runs)

-- The UPDATE of UpdateRunStatus: it has no guard on the run's present status.
unfoldable pub finish_run : String → RunStatus → Option String → ℕ → Db → Db
finish_run run_id status error now db = record db {
  runs =
      map
        (λ r.
          if str_eq r.id run_id
          then record r { status = status; finished_at = some now; error = error }
          else r)
        db.runs;
}

abbrev pub run_event_kind : RunStatus → String
run_event_kind RunStatus.failed = "run.failed"
run_event_kind _ = "run.completed"

abbrev error_payload : Option String → Dict Value
error_payload none = []
error_payload (some e) = ("error", text e) ∷ []

abbrev pub emit_run_event :
    EventHook → Db → String → RunStatus → Option String → ℕ → Option Run → Db
emit_run_event hook db run_id status error now none = db
emit_run_event hook db run_id status error now (some run) = elim (get_task_v2 db run.task_id) [
  | none ↦ db
  | some task ↦
      create_event hook db task.project_id (run_event_kind status) "run" (name run_id)
        (("run_id", text run_id)
          ∷ ("task_id", num run.task_id)
          ∷ ("status", run_status status)
          ∷ error_payload error)
        now
]

-- UpdateRunStatus
unfoldable pub update_run_status : EventHook → Db → String → RunStatus → Option String → ℕ → Db
unfolding finish_run get_run
update_run_status hook db run_id status error now =
    let db' = finish_run run_id status error now db in
    emit_run_event hook db' run_id status error now (get_run db' run_id)

-- DeleteRun
unfoldable pub delete_run : Db → String → Db
delete_run db run_id = record db { runs = keep (λ r. not (str_eq r.id run_id)) db.runs }

abbrev emit_started : EventHook → Db → Run → ℕ → Option TaskV2 → Db
emit_started hook db run now none = db
emit_started hook db run now (some task) =
    create_event hook db task.project_id "run.started" "run" (name run.id)
      (("task_id", num run.task_id)
        ∷ ("agent_id", text run.agent_id)
        ∷ ("run_id", text run.id)
        ∷ [])
      now

-- CreateRun
unfoldable pub create_run : EventHook → Db → ℕ → String → String → ℕ → Db × Result Run
unfolding insert_run
create_run hook db task_id agent_id run_id now =
    let run = new_run task_id agent_id run_id now in
    elim (insert_run run db) [
      | err e ↦ (db, err e)
      | ok db' ↦ (emit_started hook db' run now (get_task_v2 db' task_id), ok run)
    ]
