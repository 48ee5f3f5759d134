-- ===== src/Automation/Workers.antt =====
-- server/automation.go: the workers that the switch of processAutomationEvent calls, with the queries
-- of internal/dbstore/tasks.go that they use. The tables of repository files and of context packs,
-- which some workers refresh, are left out, and so is the scan of the working directory.
use Prim.Native.String
use cocopilot.Prelude.{
  ℕ, ◌+◌, String, Bool, true, false, not, ◌&&◌, ◌||◌, Option, none, some, List, [], ◌∷◌, any, keep,
  map, str_eq, ◌==◌, leb, if◌then◌else◌,
}
use cocopilot.Prelude.Dict.{Dict, lookup}
use cocopilot.Prelude.Text.{contains, to_lower, decimal_text}
use cocopilot.Models.{TaskStatusV2, TaskType, is_terminal, is_active}
use cocopilot.Dbstore.{
  Db, TaskRow, Event, EventHook, Value, num, text, texts, stamp, flag, decimal, name, create_event,
}
use cocopilot.Dbstore.Tasks.{
  without_approval, TaskV2, to_task_v2, get_task_v2, set_task_automation_depth,
}
use cocopilot.Dbstore.Creation.{TaskMeta}
use cocopilot.Dbstore.Memories.{create_memory}
use cocopilot.Dependencies.{has_edge}
use cocopilot.Requeue.{task_id_of}
use cocopilot.Automation.{Config, concat, try_emission, try_create, is_follow_up_duplicate}

-- classifyErrorType
unfoldable pub classify_error_type : String → String
classify_error_type err_msg =
    let lower = to_lower err_msg in
    if contains lower "timeout" || contains lower "deadline"
    then "timeout"
    else if contains lower "compile"
        || contains lower "syntax error"
        || contains lower "build failed"
    then "compilation_error"
    else if contains lower "assertion" || contains lower "expected" || contains lower "assert"
    then "assertion_failure"
    else if contains lower "connection refused" || contains lower "network" || contains lower "dial"
    then "network_error"
    else if contains lower "permission denied" || contains lower "access denied"
    then "permission_error"
    else if contains lower "not found" || contains lower "no such file"
    then "not_found"
    else "runtime_error"

abbrev pub text_or_empty : Option Value → String
text_or_empty (some (text s)) = s
text_or_empty _ = ""

abbrev touched_files : Option Value → String × Value
touched_files (some (texts files)) = ("files_touched", texts files)
touched_files _ = ("files_touched", texts [])

abbrev pub max_follow_up_depth : ℕ
max_follow_up_depth = 3

abbrev labelled : ℕ → Option String → String
labelled task_id none = String.◌++◌ "task " (decimal_text task_id)
labelled task_id (some title) =
    if str_eq title "" then String.◌++◌ "task " (decimal_text task_id) else title

abbrev pub announce_follow_up : EventHook → TaskV2 → ℕ → ℕ → Db × Option TaskV2 → Db
announce_follow_up hook task task_id now (db, none) = db
announce_follow_up hook task task_id now (db, some child) =
    create_event hook (set_task_automation_depth db child.id (task.automation_depth + 1))
      task.project_id "task.created" "task" (decimal child.id)
      (("task_id", num child.id)
        ∷ ("parent_task_id", num task_id)
        ∷ ("auto", flag true)
        ∷ ("trigger", text "run.failed")
        ∷ [])
      now

abbrev auto_task : String → String → TaskMeta
auto_task title tag = record {
  title = some title;
  task_type = some TaskType.analyze;
  priority = none;
  tags = "auto" ∷ tag ∷ [];
  loop_anchor_prompt = none;
}

-- The follow-up, once its emission was recorded.
abbrev pub follow_up : Config → EventHook → TaskV2 → ℕ → String → String → ℕ → Db × Bool → Db
follow_up cfg hook task task_id label err_msg now (db, false) = db
follow_up cfg hook task task_id label err_msg now (db, true) =
    let title = String.◌++◌ "Investigate failure: " label in
    let instructions = concat (
      "Task "
      ∷ decimal_text task_id
      ∷ " ("
      ∷ label
      ∷ ") failed. Please analyse the failure and propose a fix or retry.\n\nTask instructions:\n"
      ∷ task.instructions
      ∷ "\n\nError:\n"
      ∷ err_msg
      ∷ []) in
    if is_follow_up_duplicate db task.project_id task_id title
    then db
    else announce_follow_up hook task task_id now (
        try_create cfg db instructions task.project_id (some task_id)
          (auto_task title "failure-analysis") now)

unfoldable pub investigate : Config → EventHook → Db → Event → ℕ → Option TaskV2 → Db
investigate cfg hook db e task_id none = db
investigate cfg hook db e task_id (some task) =
    let now = e.created_at in
    let err_msg = text_or_empty (lookup "error" e.payload) in
    let label = labelled task_id task.title in
    let remembered =
      create_memory db task.project_id "failure_pattern"
        (String.◌++◌ "failure_" (classify_error_type err_msg))
        (("task_title", text label)
          ∷ ("error_message", text err_msg)
          ∷ touched_files (lookup "files_touched" e.payload)
          ∷ ("timestamp", stamp now)
          ∷ [])
        now in
    if leb max_follow_up_depth task.automation_depth
    then remembered
    else follow_up cfg hook task task_id label err_msg now (
        try_emission cfg remembered task.project_id
          (String.◌++◌ "run.failed.followup." (decimal_text task_id)) (some task_id) now)

abbrev pub investigate_for : Config → EventHook → Db → Event → Option ℕ → Db
investigate_for cfg hook db e none = db
investigate_for cfg hook db e (some task_id) =
    investigate cfg hook db e task_id (get_task_v2 db task_id)

-- processRunFailedEvent
unfoldable pub process_run_failed_event : Config → EventHook → Db → Event → Db
unfolding investigate
process_run_failed_event cfg hook db e = investigate_for cfg hook db e (task_id_of e)

-- GetTasksDependingOn, its rows in the given order; `none` is the error of a query that names a missing
-- column.
unfoldable pub get_tasks_depending_on :
    (List TaskRow → List TaskRow) → Option (TaskRow → Bool) → Db → ℕ → Option (List TaskV2)
unfolding to_task_v2
get_tasks_depending_on order none db completed = none
get_tasks_depending_on order (some is_deleted) db completed = some (
    map (λ t. without_approval (to_task_v2 t))
      (order
        (keep (λ t. has_edge t.id completed db.task_dependencies && not (is_deleted t)) db.tasks)))

abbrev pub is_not_succeeded : Option TaskStatusV2 → Bool
is_not_succeeded (some TaskStatusV2.succeeded) = false
is_not_succeeded _ = true

-- `t.status_v2 IS NULL OR t.status_v2 != 'SUCCEEDED'`
abbrev pub is_unfulfilled : TaskRow → Bool
is_unfulfilled t = is_not_succeeded t.status_v2

-- AreAllDependenciesFulfilled
unfoldable pub are_all_dependencies_fulfilled : Db → ℕ → Bool
are_all_dependencies_fulfilled db task_id = not (
    any (λ d. d.0 == task_id && any (λ t. t.id == d.1 && is_unfulfilled t) db.tasks)
      db.task_dependencies)

abbrev pub is_waiting : TaskV2 → Bool
is_waiting dep = not (is_terminal dep.status_v2) && not (is_active dep.status_v2)

-- The body of the loop over the dependents.
unfoldable pub unblock_one : EventHook → Db → TaskV2 → ℕ → ℕ → Db
unfolding are_all_dependencies_fulfilled
unblock_one hook db dep completed now =
    if is_waiting dep && are_all_dependencies_fulfilled db dep.id
    then create_event hook db dep.project_id "dependency.unblocked" "task" (decimal dep.id)
        (("task_id", num dep.id) ∷ ("unblocked_by_task_id", num completed) ∷ []) now
    else db

unfoldable pub unblock_all : EventHook → Db → List TaskV2 → ℕ → ℕ → Db
unfolding unblock_one
unblock_all hook db [] completed now = db
unblock_all hook db (dep ∷ deps) completed now =
    unblock_all hook (unblock_one hook db dep completed now) deps completed now

abbrev pub unblock_found : EventHook → Db → ℕ → ℕ → Option (List TaskV2) → Db
unblock_found hook db completed now none = db
unblock_found hook db completed now (some deps) = unblock_all hook db deps completed now

abbrev pub unblock_for : Config → EventHook → Db → ℕ → Option ℕ → Db
unblock_for cfg hook db now none = db
unblock_for cfg hook db now (some completed) =
    unblock_found hook db completed now
      (get_tasks_depending_on cfg.join_order cfg.deleted_at db completed)

-- processTaskCompletedDependencies
unfoldable pub process_task_completed_dependencies : Config → EventHook → Db → Event → Db
unfolding unblock_all get_tasks_depending_on
process_task_completed_dependencies cfg hook db e =
    unblock_for cfg hook db e.created_at (task_id_of e)

-- The event about the project that a recorded emission lets through.
abbrev pub announce_project : EventHook → Event → String → Dict Value → Db × Bool → Db
announce_project hook e kind payload (db, false) = db
announce_project hook e kind payload (db, true) =
    create_event hook db e.project_id kind "project" (name e.project_id)
      (("project_id", text e.project_id) ∷ payload) e.created_at

abbrev changed_files : Option Value → Dict Value
changed_files none = []
changed_files (some files) = ("changed_files", files) ∷ []

-- processRepoChangedEvent, after the changed files are stored, for a project without a working directory
unfoldable pub process_repo_changed_event : Config → EventHook → Db → Event → Db
process_repo_changed_event cfg hook db e =
    if str_eq e.project_id ""
    then db
    else announce_project hook e "repo.scanned"
        (("trigger", text "repo.changed")
          ∷ ("source_event_id", text (cfg.event_id e))
          ∷ changed_files (lookup "changed_files" e.payload))
        (try_emission cfg db e.project_id "repo.scanned" none e.created_at)

-- emitContextInvalidatedFromScan, which ends processRepoScannedEvent
unfoldable pub emit_context_invalidated_from_scan : Config → EventHook → Db → Event → Db
emit_context_invalidated_from_scan cfg hook db e =
    announce_project hook e "context.invalidated"
      (("trigger", text "repo.scanned") ∷ ("source_event_id", text (cfg.event_id e)) ∷ [])
      (try_emission cfg db e.project_id "context.invalidated" none e.created_at)

-- processMemoryCreatedEvent
unfoldable pub process_memory_created_event : Config → EventHook → Db → Event → Db
process_memory_created_event cfg hook db e =
    let scope = text_or_empty (lookup "scope" e.payload) in
    if str_eq e.project_id ""
    then db
    else if not
        (str_eq scope "convention" || str_eq scope "constraint" || str_eq scope "fix_pattern")
    then db
    else announce_project hook e "context.invalidated"
        (("trigger", text "memory.created")
          ∷ ("scope", text scope)
          ∷ ("source_event_id", text (cfg.event_id e))
          ∷ [])
        (try_emission cfg db e.project_id "context.invalidated" none e.created_at)

-- processProjectIdleEvent
unfoldable pub process_project_idle_event : Config → EventHook → Db → Event → Db
process_project_idle_event cfg hook db e =
    if str_eq e.project_id ""
    then db
    else announce_project hook e "notification"
        ((
          "message",
          text (concat ("Project " ∷ e.project_id ∷ " has been idle with no active tasks." ∷ [])),
        )
          ∷ ("trigger", text "project.idle")
          ∷ [])
        (try_emission cfg db e.project_id "project.idle.notified" none e.created_at)

abbrev pub announce_refresh : EventHook → Event → Db × Option TaskV2 → Db
announce_refresh hook e (db, none) = db
announce_refresh hook e (db, some child) =
    create_event hook db e.project_id "task.created" "task" (decimal child.id)
      (("task_id", num child.id)
        ∷ ("auto", flag true)
        ∷ ("trigger", text "context.invalidated")
        ∷ [])
      e.created_at

-- What the verb %s prints for the trigger of the payload.
abbrev trigger_text : Option Value → String
trigger_text (some (text s)) = s
trigger_text _ = "%!s(<nil>)"

abbrev pub refresh : Config → EventHook → Event → Db × Bool → Db
refresh cfg hook e (db, false) = db
refresh cfg hook e (db, true) =
    let instructions = concat (
      "The project context for project "
      ∷ e.project_id
      ∷ " has been invalidated (trigger: "
      ∷ trigger_text (lookup "trigger" e.payload)
      ∷ ").\n\nPlease:\n1. Scan the project working directory\n2. Regenerate context packs for queued/active tasks\n3. Update relevant memory entries with new file state"
      ∷ []) in
    announce_refresh hook e (
      try_create cfg db instructions e.project_id none
        (auto_task "Refresh project context" "context-refresh") e.created_at)

-- processContextInvalidatedEvent, after the context packs are marked and rebuilt
unfoldable pub process_context_invalidated_event : Config → EventHook → Db → Event → Db
process_context_invalidated_event cfg hook db e =
    if str_eq e.project_id ""
    then db
    else refresh cfg hook e
        (try_emission cfg db e.project_id "context.refresh.queued" none e.created_at)
