-- ===== src/Automation/Hook.antt =====
-- server/automation.go and server/db_v2.go: processAutomationEvent, which is called on every event that
-- is created, also by itself. The nesting of the calls is on fuel. The streams that listen to events are
-- left out.
use cocopilot.Prelude.{ℕ, zero, suc, str_eq, if◌then◌else◌}
use cocopilot.Dbstore.{Db, Event, EventHook}
use cocopilot.Requeue.{process_lease_expired_event}
use cocopilot.Automation.{Config}
use cocopilot.Automation.Guards.{process_rules}
use cocopilot.Automation.Workers.{
  process_run_failed_event, process_task_completed_dependencies, process_repo_changed_event,
  emit_context_invalidated_from_scan, process_context_invalidated_event,
  process_memory_created_event, process_project_idle_event,
}

-- processRepoScannedEvent for a project without a working directory
abbrev scanned : Config → EventHook → Db → Event → Db
scanned cfg hook db e =
    if str_eq e.project_id ""
    then db
    else if cfg.has_project e.project_id
    then emit_context_invalidated_from_scan cfg hook db e
    else db

-- The switch on the kind of the event.
unfoldable pub system_worker : Config → EventHook → Db → Event → Db
system_worker cfg hook db e =
    if str_eq e.kind "run.failed"
    then process_run_failed_event cfg hook db e
    else if str_eq e.kind "task.failed"
    then process_run_failed_event cfg hook db e
    else if str_eq e.kind "task.completed"
    then process_task_completed_dependencies cfg hook db e
    else if str_eq e.kind "repo.changed"
    then process_repo_changed_event cfg hook db e
    else if str_eq e.kind "repo.scanned"
    then scanned cfg hook db e
    else if str_eq e.kind "context.invalidated"
    then process_context_invalidated_event cfg hook db e
    else if str_eq e.kind "memory.created"
    then process_memory_created_event cfg hook db e
    else if str_eq e.kind "lease.expired"
    then process_lease_expired_event hook db e e.created_at
    else if str_eq e.kind "project.idle"
    then process_project_idle_event cfg hook db e
    else db

-- processAutomationEvent
unfoldable pub process_automation_event : Config → EventHook → Db → Event → Db
unfolding system_worker
process_automation_event cfg hook db e = process_rules cfg hook (system_worker cfg hook db e) e

-- The hook that the server sets, with calls nested to the depth of the fuel.
unfoldable pub server_hook : Config → ℕ → EventHook
unfolding process_automation_event
server_hook cfg zero db e = db
server_hook cfg (suc fuel) db e = process_automation_event cfg (server_hook cfg fuel) db e
