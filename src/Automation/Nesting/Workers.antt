-- ===== src/Automation/Nesting/Workers.antt =====
-- The workers create only events of a smaller rank than that of their event.
use cocopilot.Prelude.{
  ℕ, suc, ◌≤◌, ◌≡◌, refl, ap, ◌∙◌, String, Bool, true, false, not, ◌&&◌, ◌||◌, Option, none, some,
  List, [], ◌∷◌, arith, str_eq, eq_iff, if◌then◌else◌,
}
use cocopilot.Prelude.Dict.{Dict, lookup}
use cocopilot.Models.{is_active}
use cocopilot.Dbstore.{Db, Event, EventHook, Value}
use cocopilot.Dbstore.Tasks.{TaskV2, get_task_v2}
use cocopilot.Requeue.{task_id_of, requeue_task, requeue_for, process_lease_expired_event}
use cocopilot.Automation.{Config, try_emission}
use cocopilot.Automation.Workers.{
  follow_up, announce_follow_up, investigate, investigate_for, unblock_one, unblock_all,
  unblock_found, unblock_for, is_waiting, are_all_dependencies_fulfilled, text_or_empty,
  announce_project, announce_refresh, refresh, get_tasks_depending_on, process_run_failed_event,
  process_task_completed_dependencies, process_repo_changed_event,
  emit_context_invalidated_from_scan, process_context_invalidated_event,
  process_memory_created_event, process_project_idle_event,
}
use cocopilot.Automation.Hook.{system_worker}
use cocopilot.Automation.Nesting.{rank, Agree, if_same, create_event-Agree}
use cocopilot.Automation.Nesting.Rules.{leaf-Agree}

module _ (cfg : Config) (n : ℕ) (h1 h2 : EventHook) (agree : Agree n h1 h2) where
  announce_follow_up-Agree :
      (task : TaskV2) (task_id now : ℕ) (r : Db × Option TaskV2)
      → announce_follow_up h1 task task_id now r ≡ announce_follow_up h2 task task_id now r
  unfolding rank
  announce_follow_up-Agree task task_id now (db, none) = refl
  announce_follow_up-Agree task task_id now (db, some child) =
      leaf-Agree cfg n h1 h2 agree _ _ _ _ _ _ now refl

  follow_up-Agree :
      (task : TaskV2) (task_id : ℕ) (label message : String) (now : ℕ) (r : Db × Bool)
      → follow_up cfg h1 task task_id label message now r
        ≡ follow_up cfg h2 task task_id label message now r
  follow_up-Agree task task_id label message now (db, false) = refl
  follow_up-Agree task task_id label message now (db, true) =
      search (if_same, announce_follow_up-Agree)

  investigate-Agree :
      (db : Db) (e : Event) (task_id : ℕ) (o : Option TaskV2)
      → investigate cfg h1 db e task_id o ≡ investigate cfg h2 db e task_id o
  unfolding investigate
  investigate-Agree db e task_id none = refl
  investigate-Agree db e task_id (some task) = search (if_same, follow_up-Agree)

  investigate_for-Agree :
      (db : Db) (e : Event) (o : Option ℕ)
      → investigate_for cfg h1 db e o ≡ investigate_for cfg h2 db e o
  investigate_for-Agree db e none = refl
  investigate_for-Agree db e (some id) = investigate-Agree db e id (get_task_v2 db id)

  unblock_one-Agree :
      (db : Db) (dep : TaskV2) (completed now : ℕ)
      → 1 ≤ n
      → unblock_one h1 db dep completed now ≡ unblock_one h2 db dep completed now
  unfolding unblock_one rank
  unblock_one-Agree db dep completed now low =
      if_same (is_waiting dep && are_all_dependencies_fulfilled db dep.id)
        (λ _. create_event-Agree n h1 h2 agree db _ _ _ _ _ now low) (λ _. refl)

  unblock_all-Agree :
      (db : Db) (deps : List TaskV2) (completed now : ℕ)
      → 1 ≤ n
      → unblock_all h1 db deps completed now ≡ unblock_all h2 db deps completed now
  unfolding unblock_all
  unblock_all-Agree db [] completed now low = refl
  unblock_all-Agree db (dep ∷ deps) completed now low =
      unblock_all-Agree (unblock_one h1 db dep completed now) deps completed now low
      ∙ ap (λ d. unblock_all h2 d deps completed now) (unblock_one-Agree db dep completed now low)

  unblock_found-Agree :
      (db : Db) (completed now : ℕ) (o : Option (List TaskV2))
      → 1 ≤ n
      → unblock_found h1 db completed now o ≡ unblock_found h2 db completed now o
  unblock_found-Agree db completed now none low = refl
  unblock_found-Agree db completed now (some deps) low = unblock_all-Agree db deps completed now low

  unblock_for-Agree :
      (db : Db) (now : ℕ) (o : Option ℕ)
      → 1 ≤ n
      → unblock_for cfg h1 db now o ≡ unblock_for cfg h2 db now o
  unblock_for-Agree db now none low = refl
  unblock_for-Agree db now (some id) low =
      unblock_found-Agree db id now (get_tasks_depending_on cfg.join_order cfg.deleted_at db id) low

  announce_project-Agree :
      (e : Event) (kind : String) (payload : Dict Value) (r : Db × Bool)
      → rank kind ≤ n
      → announce_project h1 e kind payload r ≡ announce_project h2 e kind payload r
  announce_project-Agree e kind payload (db, false) low = refl
  announce_project-Agree e kind payload (db, true) low =
      create_event-Agree n h1 h2 agree db _ _ _ _ _ _ low

  emitted-Agree :
      (db : Db) (e : Event) (kind emission : String) (payload : Dict Value)
      → rank kind ≤ n
      → announce_project h1 e kind payload
          (try_emission cfg db e.project_id emission none e.created_at)
        ≡ announce_project h2 e kind payload
            (try_emission cfg db e.project_id emission none e.created_at)
  emitted-Agree db e kind emission payload low =
      announce_project-Agree e kind payload
        (try_emission cfg db e.project_id emission none e.created_at) low

  announce_refresh-Agree :
      (e : Event) (r : Db × Option TaskV2) → announce_refresh h1 e r ≡ announce_refresh h2 e r
  unfolding rank
  announce_refresh-Agree e (db, none) = refl
  announce_refresh-Agree e (db, some child) = leaf-Agree cfg n h1 h2 agree db _ _ _ _ _ _ refl

  refresh-Agree : (e : Event) (r : Db × Bool) → refresh cfg h1 e r ≡ refresh cfg h2 e r
  refresh-Agree e (db, false) = refl
  refresh-Agree e (db, true) = search announce_refresh-Agree

  requeue-Agree :
      (db : Db) (now id : ℕ) (o : Option TaskV2)
      → requeue_task h1 db id now o ≡ requeue_task h2 db id now o
  unfolding rank
  requeue-Agree db now id none = refl
  requeue-Agree db now id (some task) =
      if_same (is_active task.status_v2) (λ _. leaf-Agree cfg n h1 h2 agree _ _ _ _ _ _ now refl)
        (λ _. refl)

  requeue_for-Agree :
      (db : Db) (now : ℕ) (o : Option ℕ) → requeue_for h1 db now o ≡ requeue_for h2 db now o
  requeue_for-Agree db now none = refl
  requeue_for-Agree db now (some id) = requeue-Agree db now id (get_task_v2 db id)

  -- Only a known worker is called, and its events are of smaller rank.
  pub system_worker-Agree :
      (db : Db) (e : Event)
      → rank e.kind ≤ suc n
      → system_worker cfg h1 db e ≡ system_worker cfg h2 db e
  unfolding system_worker process_run_failed_event process_task_completed_dependencies
      process_repo_changed_event emit_context_invalidated_from_scan
      process_context_invalidated_event process_memory_created_event process_project_idle_event
      process_lease_expired_event rank
  system_worker-Agree db e low =
      let ranked : (s : String) → str_eq e.kind s ≡ true → rank s ≤ suc n =
        λ s same. rw (← (eq_iff e.kind s).0 same) low in
      let named : (x y : Db)
          → x ≡ y
          → (if str_eq e.project_id "" then db else x)
            ≡ (if str_eq e.project_id "" then db else y) =
        λ x y p. ap (λ z. if str_eq e.project_id "" then db else z) p in
      let scope = text_or_empty (lookup "scope" e.payload) in
      if_same (str_eq e.kind "run.failed") (λ _. investigate_for-Agree db e (task_id_of e))
        (λ _.
          if_same (str_eq e.kind "task.failed") (λ _. investigate_for-Agree db e (task_id_of e))
            (λ _.
              if_same (str_eq e.kind "task.completed")
                (λ same.
                  unblock_for-Agree db e.created_at (task_id_of e)
                    (omega (arith, ranked "task.completed" same)))
                (λ _.
                  if_same (str_eq e.kind "repo.changed")
                    (λ same. named _ _ (
                      emitted-Agree db e "repo.scanned" _ _
                        (omega (arith, ranked "repo.changed" same))))
                    (λ _.
                      if_same (str_eq e.kind "repo.scanned")
                        (λ same. named _ _ (
                          if_same (cfg.has_project e.project_id)
                            (λ _.
                              emitted-Agree db e "context.invalidated" _ _
                                (omega (arith, ranked "repo.scanned" same)))
                            (λ _. refl)))
                        (λ _.
                          if_same (str_eq e.kind "context.invalidated")
                            (λ _. named _ _ (
                              refresh-Agree e (
                                try_emission cfg db e.project_id "context.refresh.queued" none
                                  e.created_at)))
                            (λ _.
                              if_same (str_eq e.kind "memory.created")
                                (λ same. named _ _ (
                                  if_same
                                    (not (
                                      str_eq scope "convention"
                                      || str_eq scope "constraint"
                                      || str_eq scope "fix_pattern"))
                                    (λ _. refl)
                                    (λ _.
                                      emitted-Agree db e "context.invalidated" _ _
                                        (omega (arith, ranked "memory.created" same)))))
                                (λ _.
                                  if_same (str_eq e.kind "lease.expired")
                                    (λ _. requeue_for-Agree db e.created_at (task_id_of e))
                                    (λ _.
                                      if_same (str_eq e.kind "project.idle")
                                        (λ _.
                                          named _ _
                                            (emitted-Agree db e "notification" _ _ (omega arith)))
                                        (λ _. refl)))))))))
