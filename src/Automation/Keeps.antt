-- ===== src/Automation/Keeps.antt =====
-- What holds of the database before an event and is closed under what the automation does to it, holds
-- after the event.
pub mod Rules
pub mod Workers
use cocopilot.Prelude.{
  if_P, ℕ, zero, suc, ◌+◌, ◌≤◌, ◌≡◌, refl, ap, ◌∙◌, ◌⊎◌, inl, inr, String, Bool, true, false, not,
  ◌&&◌, ◌||◌, Option, none, some, List, [], ◌∷◌, arith, any, str_eq, if◌then◌else◌, Bool-cases,
  Option-cases, leb, ◌==◌,
}
use cocopilot.Prelude.Int.{ℤ, pos, ltb_ℤ}
use cocopilot.Prelude.Dict.{Dict}
use cocopilot.RateLimit.{Limiter, check_rate_limit}
use cocopilot.Circuit.{Breaker}
use cocopilot.Emissions.{Emission}
use cocopilot.Policy.{Policy}
use cocopilot.Dbstore.{
  Db, TaskRow, Event, EventHook, EntityId, Value, Memory, num, decimal, find_task, log_event,
  create_event,
}
use cocopilot.Dbstore.Tasks.{TaskV2, to_task_v2, get_task_v2, set_task_automation_depth}
use cocopilot.Dbstore.Creation.{
  TaskMeta, next_id, row_with_meta, insert_task, create_task_v2_with_meta,
  create_task_v2_with_meta-inserted, find_task-insert_task,
}
use cocopilot.Dbstore.Memories.{create_memory}
use cocopilot.Requeue.{task_id_of}
use cocopilot.Automation.{
  Action, Rule, Config, try_create, try_emission, announce_task, policy_blocks, blocked_by_policies,
  emit_policy_denied_event, is_automation_blocked_by_policies, create_automation_escalate_task,
  create_automation_review_task,
}
use cocopilot.Automation.Rules.{
  allow, succeed, fail, tell_opened, settle_child, run_action, run_actions, fire, run_rule,
  run_rules,
}
use cocopilot.Automation.Guards.{
  after_policies, rate_exceeded, after_burst, after_hourly, depth_exceeded, govern, govern_for,
  process_rules,
}
use cocopilot.Automation.Workers.{
  follow_up, announce_follow_up, investigate, investigate_for, max_follow_up_depth, unblock_one,
  unblock_all, unblock_found, unblock_for, announce_project, announce_refresh, refresh,
  get_tasks_depending_on, process_run_failed_event, process_task_completed_dependencies,
  process_repo_changed_event, emit_context_invalidated_from_scan, process_context_invalidated_event,
  process_memory_created_event, process_project_idle_event,
}
use cocopilot.Automation.Hook.{system_worker}

-- Closed under every change that the automation makes: rows of other tables, and a new task, whose depth
-- may then be set up to the limit.
pub record IsClosed (P : Db → Type 0) (limit : ℕ) : Type 0 where
  pub logged : (db : Db) (e : Event) → P db → P (log_event db e)
  pub emitted : (db : Db) (es : List Emission) → P db → P (record db { automation_emissions = es })
  pub remembered : (db : Db) (ms : List Memory) → P db → P (record db { memories = ms })
  pub limited : (db : Db) (limiter : Limiter) → P db → P (record db { limiter = limiter })
  pub tripped : (db : Db) (circuit : Option Breaker) → P db → P (record db { circuit = circuit })
  pub created :
      (db : Db) (row : TaskRow)
      → row.id ≡ next_id db.tasks
      → row.automation_depth ≡ 0
      → P db
      → P (insert_task db row)
  pub deepened :
      (db : Db) (row : TaskRow) (depth : ℕ)
      → row.id ≡ next_id db.tasks
      → row.automation_depth ≡ 0
      → depth ≤ limit
      → P db
      → P (set_task_automation_depth (insert_task db row) row.id depth)

-- The outcomes of an insertion.
pub data Creation (db : Db) : Db × Option TaskV2 → Type 0 where
  refused : Creation db (db, none)
  inserted :
      (row : TaskRow)
      → row.id ≡ next_id db.tasks
      → row.automation_depth ≡ 0
      → Creation db (insert_task db row, some (to_task_v2 row))

pub try_create-Creation :
    (cfg : Config) (db : Db) (instructions project_id : String) (parent : Option ℕ)
    (meta : TaskMeta) (now : ℕ)
    → Creation db (try_create cfg db instructions project_id parent meta now)
unfolding try_create row_with_meta
try_create-Creation cfg db instructions project_id parent meta now =
    elim (Bool-cases (cfg.insert_fails db)) [
      | inl fails ↦ rw fails refused
      | inr works ↦
          rw (works, create_task_v2_with_meta-inserted db instructions project_id parent meta now)
            (inserted (row_with_meta (next_id db.tasks) instructions project_id parent meta now)
              refl refl)
    ]

-- What the lemmas below are about: the property, the limit on depths, which is not below those of the
-- configuration and of follow-ups, and a hook that keeps the property.
pub record IsKept (cfg : Config) (P : Db → Type 0) (limit : ℕ) (hook : EventHook) : Type 0 where
  pub closed : IsClosed P limit
  pub deep : (n : ℕ) → ltb_ℤ cfg.max_depth (pos n) ≡ false → n ≤ limit
  pub shallow : max_follow_up_depth ≤ limit
  pub keeps : (db : Db) (e : Event) → str_eq e.kind "lease.expired" ≡ false → P db → P (hook db e)

module _ (cfg : Config) (P : Db → Type 0) (limit : ℕ) (hook : EventHook)
    (k : IsKept cfg P limit hook) where
  pub create_event-P :
      (db : Db) (project kind entity : String) (id : EntityId) (payload : Dict Value) (now : ℕ)
      → str_eq kind "lease.expired" ≡ false
      → P db
      → P (create_event hook db project kind entity id payload now)
  unfolding create_event
  create_event-P db project kind entity id payload now quiet h =
      k.keeps _ _ quiet (k.closed.logged db _ h)

  pub announce_task-P :
      (project : String) (extra : Dict Value) (now : ℕ) (db : Db) (r : Db × Option TaskV2)
      → Creation db r
      → P db
      → P (announce_task hook project extra now r)
  announce_task-P project extra now db r refused h = h
  announce_task-P project extra now db r (inserted row new flat) h =
      create_event-P _ _ _ _ _ _ now refl (k.closed.created db row new flat h)

  pub escalate-P :
      (db : Db) (task : TaskV2) (reason : String) (now : ℕ)
      → P db
      → P (create_automation_escalate_task cfg hook db task reason now)
  unfolding create_automation_escalate_task
  escalate-P db task reason now h =
      announce_task-P _ _ now db _ (try_create-Creation cfg db _ _ _ _ now) h

  pub review-P :
      (db : Db) (task : TaskV2) (reason : String) (now : ℕ)
      → P db
      → P (create_automation_review_task cfg hook db task reason now)
  unfolding create_automation_review_task
  review-P db task reason now h =
      announce_task-P _ _ now db _ (try_create-Creation cfg db _ _ _ _ now) h

  pub try_emission-P :
      (db : Db) (project kind : String) (id : Option ℕ) (now : ℕ)
      → P db
      → P (try_emission cfg db project kind id now).0
  unfolding try_emission
  try_emission-P db project kind id now h = k.closed.emitted db _ h

  pub allow-P :
      (db : Db) (rule : String) (now : ℕ) (o : Option Breaker) → P db → P (allow db rule now o).0
  allow-P db rule now none h = h
  allow-P db rule now (some cb) h = k.closed.tripped db _ h

  pub tell_opened-P :
      (task : TaskV2) (rule : String) (now : ℕ) (r : Db × Bool)
      → P r.0
      → P (tell_opened cfg hook task rule now r)
  tell_opened-P task rule now (db, false) h = h
  tell_opened-P task rule now (db, true) h =
      escalate-P _ task _ now (create_event-P db _ _ _ _ _ now refl h)

  pub fail-P :
      (task : TaskV2) (rule : String) (now : ℕ) (db : Db) (o : Option Breaker)
      → P db
      → P (fail cfg hook task rule now db o)
  fail-P task rule now db none h = h
  fail-P task rule now db (some cb) h = tell_opened-P task rule now _ (k.closed.tripped db _ h)

  -- A success changes the breaker only, and the depth the tasks only.
  pub succeed-P :
      (db : Db) (row : TaskRow) (rule : String) (depth : ℕ) (o : Option Breaker)
      → row.id ≡ next_id db.tasks
      → row.automation_depth ≡ 0
      → depth ≤ limit
      → P db
      → P (set_task_automation_depth (succeed (insert_task db row) rule o) row.id depth)
  unfolding set_task_automation_depth
  succeed-P db row rule depth none new flat low h = k.closed.deepened db row depth new flat low h
  succeed-P db row rule depth (some cb) new flat low h =
      k.closed.tripped _ _ (k.closed.deepened db row depth new flat low h)
