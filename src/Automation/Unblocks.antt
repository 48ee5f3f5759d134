-- ===== src/Automation/Unblocks.antt =====
-- Which tasks are reported as unblocked when a task completes.
use cocopilot.Prelude.{ℕ, Bool, not, ◌&&◌, Option, none, some, List, [], ◌∷◌, ◌++◌, keep, map}
use cocopilot.Dbstore.{Db, TaskRow, Event, num, decimal, resolve_event_project_id}
use cocopilot.Dbstore.Tasks.{without_approval, TaskV2, to_task_v2}
use cocopilot.Dependencies.{has_edge}
use cocopilot.Automation.Workers.{is_waiting, are_all_dependencies_fulfilled}

-- A task that waits, and all of whose dependencies have succeeded.
abbrev pub is_ready : Db → TaskV2 → Bool
is_ready db dep = is_waiting dep && are_all_dependencies_fulfilled db dep.id

abbrev pub dependents : (List TaskRow → List TaskRow) → (TaskRow → Bool) → Db → ℕ → List TaskV2
dependents order is_deleted db completed =
    map (λ t. without_approval (to_task_v2 t))
      (order
        (keep (λ t. has_edge t.id completed db.task_dependencies && not (is_deleted t)) db.tasks))

abbrev pub unblocked_event : Db → ℕ → ℕ → TaskV2 → Event
unblocked_event db completed now dep =
    let payload = ("task_id", num dep.id) ∷ ("unblocked_by_task_id", num completed) ∷ [] in
    record {
      project_id = resolve_event_project_id db dep.project_id "task" (decimal dep.id) payload;
      kind = "dependency.unblocked";
      entity_type = "task";
      entity_id = decimal dep.id;
      created_at = now;
      payload = payload;
    }

-- The events of the tasks in order, and nothing else.
abbrev pub report_all : Db → ℕ → ℕ → List TaskV2 → Db
report_all db completed now deps = record db {
  events = db.events ++ map (unblocked_event db completed now) deps;
}

-- What is filed, with the column that a query needs or without it.
abbrev pub reported : (List TaskRow → List TaskRow) → Option (TaskRow → Bool) → Db → ℕ → ℕ → Db
reported order none db completed now = db
reported order (some is_deleted) db completed now =
    report_all db completed now (keep (is_ready db) (dependents order is_deleted db completed))
