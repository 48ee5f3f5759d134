-- ===== src/Automation/Keeps/Workers.antt =====
-- The workers keep what is closed under their changes.
use Prim.Native.String
use cocopilot.Prelude.{
  if_P, ℕ, ◌+◌, ◌≤◌, ◌≡◌, refl, String, Bool, true, false, not, ◌&&◌, ◌||◌, Option, none, some,
  List, [], ◌∷◌, arith, str_eq, if◌then◌else◌, leb,
}
use cocopilot.Prelude.Dict.{Dict, lookup}
use cocopilot.Dbstore.{Db, Event, EventHook, Value}
use cocopilot.Dbstore.Tasks.{update_task, TaskV2, to_task_v2, get_task_v2}
use cocopilot.Dbstore.Memories.{create_memory}
use cocopilot.Models.{is_active}
use cocopilot.Requeue.{
  task_id_of, row_is_active, queued_row, requeue_task, requeue_for, process_lease_expired_event,
}
use cocopilot.Automation.{Config, try_emission, is_follow_up_duplicate}
use cocopilot.Automation.Workers.{
  follow_up, announce_follow_up, investigate, investigate_for, max_follow_up_depth, unblock_one,
  unblock_all, unblock_found, unblock_for, announce_project, announce_refresh, refresh,
  get_tasks_depending_on, process_run_failed_event, process_task_completed_dependencies,
  process_repo_changed_event, emit_context_invalidated_from_scan, is_waiting,
  are_all_dependencies_fulfilled, text_or_empty, process_context_invalidated_event,
  process_memory_created_event, process_project_idle_event,
}
use cocopilot.Automation.Hook.{system_worker}
use cocopilot.Automation.Keeps.{
  IsKept, Creation, refused, inserted, try_create-Creation, create_event-P, try_emission-P,
}

module _ (cfg : Config) (P : Db → Type 0) (limit : ℕ) (hook : EventHook)
    (k : IsKept cfg P limit hook) where
  announce_follow_up-P :
      (task : TaskV2) (task_id now : ℕ) (db : Db) (r : Db × Option TaskV2)
      → Creation db r
      → task.automation_depth + 1 ≤ limit
      → P db
      → P (announce_follow_up hook task task_id now r)
  unfolding to_task_v2
  announce_follow_up-P task task_id now db r refused low h = h
  announce_follow_up-P task task_id now db r (inserted row new flat) low h =
      create_event-P cfg P limit hook k _ _ _ _ _ _ now refl
        (k.closed.deepened db row _ new flat low h)

  follow_up-P :
      (task : TaskV2) (task_id : ℕ) (label message : String) (now : ℕ) (r : Db × Bool)
      → task.automation_depth + 1 ≤ limit
      → P r.0
      → P (follow_up cfg hook task task_id label message now r)
  follow_up-P task task_id label message now (db, false) low h = h
  follow_up-P task task_id label message now (db, true) low h =
      if_P P
        (is_follow_up_duplicate db task.project_id task_id
          (String.◌++◌ "Investigate failure: " label))
        _ _ (λ _. h)
        (λ _.
          announce_follow_up-P task task_id now db _ (try_create-Creation cfg db _ _ _ _ now) low h)

  investigate-P :
      (db : Db) (e : Event) (task_id : ℕ) (o : Option TaskV2)
      → P db
      → P (investigate cfg hook db e task_id o)
  unfolding investigate create_memory
  investigate-P db e task_id none h = h
  investigate-P db e task_id (some task) h =
      let shallow = k.shallow in
      let remembered = k.closed.remembered db _ h in
      if_P P (leb max_follow_up_depth task.automation_depth) _ _ (λ _. remembered)
        (λ low.
          follow_up-P task task_id _ _ e.created_at _ (ground arith)
            (try_emission-P cfg P limit hook k _ _ _ _ e.created_at remembered))

  investigate_for-P :
      (db : Db) (e : Event) (o : Option ℕ) → P db → P (investigate_for cfg hook db e o)
  investigate_for-P db e none h = h
  investigate_for-P db e (some id) h = investigate-P db e id (get_task_v2 db id) h

  unblock_one-P :
      (db : Db) (dep : TaskV2) (completed now : ℕ)
      → P db
      → P (unblock_one hook db dep completed now)
  unfolding unblock_one
  unblock_one-P db dep completed now h =
      if_P P (is_waiting dep && are_all_dependencies_fulfilled db dep.id) _ _
        (λ _. create_event-P cfg P limit hook k db _ _ _ _ _ now refl h) (λ _. h)

  unblock_all-P :
      (db : Db) (deps : List TaskV2) (completed now : ℕ)
      → P db
      → P (unblock_all hook db deps completed now)
  unfolding unblock_all
  unblock_all-P db [] completed now h = h
  unblock_all-P db (dep ∷ deps) completed now h =
      unblock_all-P (unblock_one hook db dep completed now) deps completed now
        (unblock_one-P db dep completed now h)

  unblock_found-P :
      (db : Db) (completed now : ℕ) (o : Option (List TaskV2))
      → P db
      → P (unblock_found hook db completed now o)
  unblock_found-P db completed now none h = h
  unblock_found-P db completed now (some deps) h = unblock_all-P db deps completed now h

  unblock_for-P : (db : Db) (now : ℕ) (o : Option ℕ) → P db → P (unblock_for cfg hook db now o)
  unblock_for-P db now none h = h
  unblock_for-P db now (some id) h =
      unblock_found-P db id now (get_tasks_depending_on cfg.join_order cfg.deleted_at db id) h

  announce_project-P :
      (e : Event) (kind : String) (payload : Dict Value) (r : Db × Bool)
      → str_eq kind "lease.expired" ≡ false
      → P r.0
      → P (announce_project hook e kind payload r)
  announce_project-P e kind payload (db, false) quiet h = h
  announce_project-P e kind payload (db, true) quiet h =
      create_event-P cfg P limit hook k db _ kind _ _ _ _ quiet h

  -- One event about the project, if its emission is new.
  emitted-P :
      (db : Db) (e : Event) (kind emission : String) (payload : Dict Value)
      → str_eq kind "lease.expired" ≡ false
      → P db
      → P (
          announce_project hook e kind payload
            (try_emission cfg db e.project_id emission none e.created_at))
  emitted-P db e kind emission payload quiet h =
      announce_project-P e kind payload _ quiet
        (try_emission-P cfg P limit hook k db _ _ _ e.created_at h)

  announce_refresh-P :
      (e : Event) (db : Db) (r : Db × Option TaskV2)
      → Creation db r
      → P db
      → P (announce_refresh hook e r)
  announce_refresh-P e db r refused h = h
  announce_refresh-P e db r (inserted row new flat) h =
      create_event-P cfg P limit hook k _ _ _ _ _ _ _ refl (k.closed.created db row new flat h)

  refresh-P : (e : Event) (r : Db × Bool) → P r.0 → P (refresh cfg hook e r)
  refresh-P e (db, false) h = h
  refresh-P e (db, true) h =
      announce_refresh-P e db _ (try_create-Creation cfg db _ _ _ _ e.created_at) h

  -- A lease that expired puts one row back.
  requeue-P :
      (db : Db) (now task_id : ℕ) (o : Option TaskV2)
      → P (update_task task_id row_is_active (queued_row now) db)
      → P db
      → P (requeue_task hook db task_id now o)
  requeue-P db now task_id none back h = h
  requeue-P db now task_id (some task) back h =
      if_P P (is_active task.status_v2) _ _
        (λ _. create_event-P cfg P limit hook k _ _ _ _ _ _ now refl back) (λ _. h)

  requeue_for-P :
      (db : Db) (now : ℕ) (o : Option ℕ)
      → ((id : ℕ) → P (update_task id row_is_active (queued_row now) db))
      → P db
      → P (requeue_for hook db now o)
  requeue_for-P db now none back h = h
  requeue_for-P db now (some id) back h = requeue-P db now id (get_task_v2 db id) (back id) h

  pub lease_expired-P :
      (db : Db) (e : Event)
      → ((id : ℕ) → P (update_task id row_is_active (queued_row e.created_at) db))
      → P db
      → P (process_lease_expired_event hook db e e.created_at)
  unfolding process_lease_expired_event
  lease_expired-P db e back h = requeue_for-P db e.created_at (task_id_of e) back h

  pub system_worker-P :
      (db : Db) (e : Event)
      → (str_eq e.kind "lease.expired" ≡ true
          → P (process_lease_expired_event hook db e e.created_at))
      → P db
      → P (system_worker cfg hook db e)
  unfolding system_worker process_run_failed_event process_task_completed_dependencies
      process_repo_changed_event emit_context_invalidated_from_scan
      process_context_invalidated_event process_memory_created_event process_project_idle_event
  system_worker-P db e leased h =
      let failed = investigate_for-P db e (task_id_of e) h in
      let emitted =
        λ (kind emission : String) (payload : Dict Value) (q : str_eq kind "lease.expired" ≡ false).
          emitted-P db e kind emission payload q h in
      let named : (x : Db) → P x → P (if str_eq e.project_id "" then db else x) =
        λ x p. if_P P (str_eq e.project_id "") db x (λ _. h) (λ _. p) in
      let scope = text_or_empty (lookup "scope" e.payload) in
      if_P P (str_eq e.kind "run.failed") _ _ (λ _. failed)
        (λ _.
          if_P P (str_eq e.kind "task.failed") _ _ (λ _. failed)
            (λ _.
              if_P P (str_eq e.kind "task.completed") _ _
                (λ _. unblock_for-P db e.created_at (task_id_of e) h)
                (λ _.
                  if_P P (str_eq e.kind "repo.changed") _ _ (λ _. named _ (emitted _ _ _ refl))
                    (λ _.
                      if_P P (str_eq e.kind "repo.scanned") _ _
                        (λ _. named _ (
                          if_P P (cfg.has_project e.project_id) _ _ (λ _. emitted _ _ _ refl)
                            (λ _. h)))
                        (λ _.
                          if_P P (str_eq e.kind "context.invalidated") _ _
                            (λ _. named _ (
                              refresh-P e _
                                (try_emission-P cfg P limit hook k db _ _ _ e.created_at h)))
                            (λ _.
                              if_P P (str_eq e.kind "memory.created") _ _
                                (λ _. named _ (
                                  if_P P
                                    (not (
                                      str_eq scope "convention"
                                      || str_eq scope "constraint"
                                      || str_eq scope "fix_pattern"))
                                    _ _ (λ _. h) (λ _. emitted _ _ _ refl)))
                                (λ _. if_P P (str_eq e.kind "lease.expired") _ _ leased (λ _.
                                  if_P P (str_eq e.kind "project.idle") _ _
                                    (λ _. named _ (emitted _ _ _ refl)) (λ _. h)))))))))
