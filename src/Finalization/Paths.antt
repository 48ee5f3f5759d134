-- ===== src/Finalization/Paths.antt =====
-- server/finalization.go: CompleteTaskWithPayload and FailTaskWithError. The broadcast to the browsers
-- is left out.
use cocopilot.Prelude.{
  ℕ, String, Bool, true, false, ◌&&◌, Option, none, some, List, [], ◌∷◌, ◌++◌, length,
  if◌then◌else◌,
}
use cocopilot.Prelude.Dict.{Dict}
use cocopilot.Models.{TaskStatus, TaskStatusV2, RunStatus}
use cocopilot.Dbstore.{
  Db, TaskRow, Run, EventHook, Value, num, text, texts, flag, v1, v2, decimal, name, Result, ok,
  err, terminal_state, task_not_found, create_event, CompletionRunSummary,
}
use cocopilot.Dbstore.Tasks.{TaskV2, get_task_v2, update_task}
use cocopilot.Dbstore.Runs.{get_latest_run, update_run_status}
use cocopilot.Finish.{
  not_settled, completed_row, failed_row, affects, any_run, finish_latest, release_current,
}
use cocopilot.Finalization.{Library}
use cocopilot.Finalization.Extraction.{
  extract_summary_from_completion, store_summary, create_memory_from_summary,
  create_memory_from_failure,
}

-- `status_v2 != 'CANCELLED'`, which no NULL satisfies
abbrev pub not_cancelled : Option TaskStatusV2 → Bool
not_cancelled none = false
not_cancelled (some TaskStatusV2.cancelled) = false
not_cancelled (some _) = true

abbrev pub is_open : TaskRow → Bool
is_open t = not_settled t && not_cancelled t.status_v2

abbrev pub store_found : Db → Option CompletionRunSummary → Db
store_found db none = db
store_found db (some summary) = store_summary db summary

-- The run is finished, and what the output says of it is stored.
abbrev pub finish_run_with :
    Library → EventHook → Db → ℕ → Option String → ℕ → Option Run → Db × Option CompletionRunSummary
finish_run_with lib hook db task_id output now none = (db, none)
finish_run_with lib hook db task_id output now (some run) =
    let summary = extract_summary_from_completion lib run.id task_id output now in
    (store_found (update_run_status hook db run.id RunStatus.succeeded none now) summary, summary)

abbrev pub remember : Library → Db → String → ℕ → ℕ → Option CompletionRunSummary → Db
remember lib db project_id task_id now none = db
remember lib db project_id task_id now (some summary) =
    create_memory_from_summary lib db project_id task_id summary now

abbrev output_entry : Option String → Dict Value
output_entry none = []
output_entry (some s) = ("output", text s) ∷ []

abbrev count_entry : List String → Dict Value
count_entry [] = []
count_entry (s ∷ ss) = ("changes_made_count", num (length (s ∷ ss))) ∷ []

abbrev risk_entry : List String → Dict Value
risk_entry [] = []
risk_entry (s ∷ ss) = ("has_risks", flag true) ∷ []

abbrev summary_entries : Option CompletionRunSummary → Dict Value
summary_entries none = []
summary_entries (some summary) =
    ("summary", text summary.summary)
    ∷ (count_entry summary.changes_made ++ risk_entry summary.risks)

abbrev pub tell_files : EventHook → Db → String → ℕ → ℕ → List String → Db
tell_files hook db project_id task_id now [] = db
tell_files hook db project_id task_id now (f ∷ fs) =
    create_event hook db project_id "repo.changed" "repo" (name project_id)
      (("task_id", num task_id)
        ∷ ("changed_files", texts (f ∷ fs))
        ∷ ("trigger", text "task.completed")
        ∷ [])
      now

abbrev pub tell_touched : EventHook → Db → String → ℕ → ℕ → Option CompletionRunSummary → Db
tell_touched hook db project_id task_id now none = db
tell_touched hook db project_id task_id now (some summary) =
    tell_files hook db project_id task_id now summary.files_touched

-- The end of CompleteTaskWithPayload, with the task as it was read.
abbrev pub announce_completed :
    Library
    → EventHook
    → Db
    → ℕ
    → Option String
    → Option CompletionRunSummary
    → ℕ
    → Option TaskV2
    → Db × Result (TaskV2 × Option CompletionRunSummary)
announce_completed lib hook db task_id output summary now none = (db, err task_not_found)
announce_completed lib hook db task_id output summary now (some task) =
    let told =
      create_event hook (remember lib db task.project_id task_id now summary) task.project_id
        "task.completed" "task" (decimal task_id)
        (("task_id", num task_id)
          ∷ ("status_v1", v1 TaskStatus.complete)
          ∷ ("status_v2", v2 TaskStatusV2.succeeded)
          ∷ (output_entry output ++ summary_entries summary))
        now in
    (tell_touched hook told task.project_id task_id now summary, ok (task, summary))

-- What follows the UPDATE of the task.
unfoldable pub complete_updated :
    Library
    → EventHook
    → Db
    → ℕ
    → Option String
    → ℕ
    → Db × Result (TaskV2 × Option CompletionRunSummary)
unfolding release_current
complete_updated lib hook db task_id output now =
    let finished = finish_run_with lib hook db task_id output now (get_latest_run db task_id) in
    let released = release_current hook finished.0 task_id "task_completed" now in
    announce_completed lib hook released task_id output finished.1 now
      (get_task_v2 released task_id)

-- CompleteTaskWithPayload
unfoldable pub complete_task_with_payload :
    Library
    → EventHook
    → Db
    → ℕ
    → Option String
    → ℕ
    → Db × Result (TaskV2 × Option CompletionRunSummary)
unfolding complete_updated affects
complete_task_with_payload lib hook db task_id output now =
    let done =
      complete_updated lib hook (update_task task_id is_open (completed_row output now) db) task_id
        output now in
    if affects task_id is_open db then done else (db, err terminal_state)

abbrev pub announce_failed : EventHook → Db → ℕ → String → ℕ → Option TaskV2 → Db × Result TaskV2
announce_failed hook db task_id err_msg now none = (db, err task_not_found)
announce_failed hook db task_id err_msg now (some task) = (
  create_event hook (create_memory_from_failure db task.project_id task_id err_msg now)
      task.project_id "task.failed" "task" (decimal task_id)
      (("task_id", num task_id)
        ∷ ("status_v1", v1 TaskStatus.failed)
        ∷ ("status_v2", v2 TaskStatusV2.failed)
        ∷ ("error", text err_msg)
        ∷ [])
      now,
  ok task,
)

-- FailTaskWithError: whether the UPDATE affected a row is not looked at.
unfoldable pub fail_task_with_error : EventHook → Db → ℕ → String → ℕ → Db × Result TaskV2
unfolding finish_latest release_current
fail_task_with_error hook db task_id err_msg now =
    let updated = update_task task_id not_settled (failed_row now) db in
    let released =
      release_current hook
        (finish_latest hook any_run updated task_id RunStatus.failed (some err_msg) now) task_id
        "task_failed" now in
    announce_failed hook released task_id err_msg now (get_task_v2 released task_id)
