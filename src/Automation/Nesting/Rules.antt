-- ===== src/Automation/Nesting/Rules.antt =====
-- The rules create only events of rank 0.
use cocopilot.Prelude.{
  ℕ, ◌+◌, ◌*◌, ◌≡◌, refl, ap, ◌∙◌, inl, inr, String, Bool, true, false, not, ◌&&◌, ◌||◌, Option,
  none, some, List, [], ◌∷◌, arith, any, str_eq, Bool-cases, Option-cases,
}
use cocopilot.Prelude.Int.{ℤ, pos, ltb_ℤ}
use cocopilot.Prelude.Dict.{Dict}
use cocopilot.RateLimit.{Limiter, check_rate_limit}
use cocopilot.Circuit.{Breaker, record_failure}
use cocopilot.Policy.{Policy}
use cocopilot.Dbstore.{Db, Event, EventHook, EntityId, Value, create_event}
use cocopilot.Dbstore.Tasks.{TaskV2, get_task_v2}
use cocopilot.Requeue.{task_id_of}
use cocopilot.Automation.{
  Action, Rule, Config, is_automation_rule_enabled, announce_task, policy_blocks,
  blocked_by_policies, emit_policy_denied_event, is_automation_blocked_by_policies,
  create_automation_escalate_task, create_automation_review_task,
}
use cocopilot.Automation.Rules.{
  allow, fail, tell_opened, settle_child, run_action, run_actions, fire, run_rule, run_rules,
}
use cocopilot.Automation.Guards.{
  after_policies, rate_exceeded, after_burst, after_hourly, depth_exceeded, govern, govern_for,
  process_rules, rule_triggers, has_rules,
}
use cocopilot.Automation.Nesting.{rank, Agree, if_same, create_event-Agree}

module _ (cfg : Config) (n : ℕ) (h1 h2 : EventHook) (agree : Agree n h1 h2) where
  pub leaf-Agree :
      (db : Db) (project kind entity : String) (id : EntityId) (payload : Dict Value) (now : ℕ)
      → rank kind ≡ 0
      → create_event h1 db project kind entity id payload now
        ≡ create_event h2 db project kind entity id payload now
  leaf-Agree db project kind entity id payload now low =
      create_event-Agree n h1 h2 agree db project kind entity id payload now (omega (arith, low))

  announce_task-Agree :
      (project : String) (extra : Dict Value) (now : ℕ) (r : Db × Option TaskV2)
      → announce_task h1 project extra now r ≡ announce_task h2 project extra now r
  unfolding rank
  announce_task-Agree project extra now (db, none) = refl
  announce_task-Agree project extra now (db, some child) = leaf-Agree db _ _ _ _ _ now refl

  escalate_same :
      (db : Db) (task : TaskV2) (reason : String) (now : ℕ)
      → create_automation_escalate_task cfg h1 db task reason now
        ≡ create_automation_escalate_task cfg h2 db task reason now
  unfolding create_automation_escalate_task
  escalate_same db task reason now = search announce_task-Agree

  escalate-Agree :
      (db db' : Db) (task : TaskV2) (reason : String) (now : ℕ)
      → db ≡ db'
      → create_automation_escalate_task cfg h1 db task reason now
        ≡ create_automation_escalate_task cfg h2 db' task reason now
  escalate-Agree db db' task reason now e =
      escalate_same db task reason now
      ∙ ap (λ d. create_automation_escalate_task cfg h2 d task reason now) e

  review_same :
      (db : Db) (task : TaskV2) (reason : String) (now : ℕ)
      → create_automation_review_task cfg h1 db task reason now
        ≡ create_automation_review_task cfg h2 db task reason now
  unfolding create_automation_review_task
  review_same db task reason now = search announce_task-Agree

  review-Agree :
      (db db' : Db) (task : TaskV2) (reason : String) (now : ℕ)
      → db ≡ db'
      → create_automation_review_task cfg h1 db task reason now
        ≡ create_automation_review_task cfg h2 db' task reason now
  review-Agree db db' task reason now e =
      review_same db task reason now
      ∙ ap (λ d. create_automation_review_task cfg h2 d task reason now) e

  tell_opened-Agree :
      (task : TaskV2) (rule : String) (now : ℕ) (r : Db × Bool)
      → tell_opened cfg h1 task rule now r ≡ tell_opened cfg h2 task rule now r
  unfolding rank
  tell_opened-Agree task rule now (db, false) = refl
  tell_opened-Agree task rule now (db, true) =
      escalate-Agree _ _ task _ now (leaf-Agree db _ _ _ _ _ now refl)

  fail-Agree :
      (task : TaskV2) (rule : String) (now : ℕ) (db : Db) (o : Option Breaker)
      → fail cfg h1 task rule now db o ≡ fail cfg h2 task rule now db o
  fail-Agree task rule now db none = refl
  fail-Agree task rule now db (some cb) =
      let (cb', just_opened) = record_failure cb rule (now * 1000) in
      tell_opened-Agree task rule now (record db { circuit = some cb' }, just_opened)

  settle_child-Agree :
      (task : TaskV2) (rule : String) (parent : Option ℕ) (now : ℕ) (r : Db × Option TaskV2)
      → settle_child cfg h1 task rule parent now r ≡ settle_child cfg h2 task rule parent now r
  unfolding rank
  settle_child-Agree task rule parent now (db, none) = fail-Agree task rule now db db.circuit
  settle_child-Agree task rule parent now (db, some child) = leaf-Agree _ _ _ _ _ _ now refl

  run_action-Agree :
      (e : Event) (task_id : ℕ) (task : TaskV2) (rule : String) (db : Db) (action : Action)
      → run_action cfg h1 e task_id task rule db action
        ≡ run_action cfg h2 e task_id task rule db action
  unfolding run_action
  run_action-Agree e task_id task rule db action = search (if_same, settle_child-Agree)

  run_actions-Agree :
      (e : Event) (task_id : ℕ) (task : TaskV2) (rule : String) (db : Db) (actions : List Action)
      → run_actions cfg h1 e task_id task rule db actions
        ≡ run_actions cfg h2 e task_id task rule db actions
  unfolding run_actions
  run_actions-Agree e task_id task rule db [] = refl
  run_actions-Agree e task_id task rule db (action ∷ actions) =
      run_actions-Agree e task_id task rule (run_action cfg h1 e task_id task rule db action)
        actions
      ∙ ap (λ d. run_actions cfg h2 e task_id task rule d actions)
          (run_action-Agree e task_id task rule db action)

  fire-Agree :
      (e : Event) (task_id : ℕ) (task : TaskV2) (rule : Rule) (r : Db × Bool)
      → fire cfg h1 e task_id task rule r ≡ fire cfg h2 e task_id task rule r
  unfolding rank
  fire-Agree e task_id task rule (db, false) = leaf-Agree db _ _ _ _ _ _ refl
  fire-Agree e task_id task rule (db, true) =
      run_actions-Agree e task_id task rule.name _ rule.actions
      ∙ ap (λ d. run_actions cfg h2 e task_id task rule.name d rule.actions)
          (leaf-Agree db _ _ _ _ _ _ refl)

  run_rule-Agree :
      (e : Event) (task_id : ℕ) (task : TaskV2) (db : Db) (rule : Rule)
      → run_rule cfg h1 e task_id task db rule ≡ run_rule cfg h2 e task_id task db rule
  unfolding run_rule
  run_rule-Agree e task_id task db rule =
      if_same (not (is_automation_rule_enabled rule) || not (str_eq rule.trigger e.kind))
        (λ _. refl)
        (λ _. fire-Agree e task_id task rule (allow db rule.name e.created_at db.circuit))

  run_rules-Agree :
      (e : Event) (task_id : ℕ) (task : TaskV2) (db : Db) (rules : List Rule)
      → run_rules cfg h1 e task_id task db rules ≡ run_rules cfg h2 e task_id task db rules
  unfolding run_rules
  run_rules-Agree e task_id task db [] = refl
  run_rules-Agree e task_id task db (rule ∷ rules) =
      run_rules-Agree e task_id task (run_rule cfg h1 e task_id task db rule) rules
      ∙ ap (λ d. run_rules cfg h2 e task_id task d rules) (run_rule-Agree e task_id task db rule)

  blocked-Agree :
      (db : Db) (project kind action : String) (ps : List Policy) (now : ℕ)
      → blocked_by_policies h1 db project kind action ps now
        ≡ blocked_by_policies h2 db project kind action ps now
  unfolding blocked_by_policies emit_policy_denied_event rank
  blocked-Agree db project kind action [] now = refl
  blocked-Agree db project kind action (p ∷ ps) now = elim (Bool-cases p.enabled) [
    | inr idle ↦ rw idle (blocked-Agree db project kind action ps now)
    | inl enabled ↦ elim (Option-cases (policy_blocks kind p.rules)) [
      | inl passes ↦ rw (enabled, passes) (blocked-Agree db project kind action ps now)
      | inr (reason, blocks) ↦
          rw (enabled, blocks) (ap (λ d. (d, some reason)) (leaf-Agree db _ _ _ _ _ now refl))
    ]
  ]

  after_policies-Agree :
      (e : Event) (task_id : ℕ) (task : TaskV2) (r : Db × Option String)
      → after_policies cfg h1 e task_id task r ≡ after_policies cfg h2 e task_id task r
  unfolding rank
  after_policies-Agree e task_id task (db, some reason) = leaf-Agree db _ _ _ _ _ _ refl
  after_policies-Agree e task_id task (db, none) = run_rules-Agree e task_id task db cfg.rules

  rate_exceeded-Agree :
      (task : TaskV2) (allowed : ℤ) (window reason : String) (db : Db) (now : ℕ)
      → rate_exceeded cfg h1 task allowed window reason db now
        ≡ rate_exceeded cfg h2 task allowed window reason db now
  unfolding rate_exceeded rank
  rate_exceeded-Agree task allowed window reason db now =
      review-Agree _ _ task reason now (leaf-Agree db _ _ _ _ _ now refl)

  after_burst-Agree :
      (e : Event) (task_id : ℕ) (task : TaskV2) (db : Db) (r : Limiter × Bool)
      → after_burst cfg h1 e task_id task db r ≡ after_burst cfg h2 e task_id task db r
  unfolding is_automation_blocked_by_policies
  after_burst-Agree e task_id task db (limiter, false) =
      rate_exceeded-Agree task _ _ _ _ e.created_at
  after_burst-Agree e task_id task db (limiter, true) =
      after_policies-Agree e task_id task (
        is_automation_blocked_by_policies cfg h1 (record db { limiter = limiter }) task.project_id
          e.created_at)
      ∙ ap (after_policies cfg h2 e task_id task)
          (blocked-Agree _ task.project_id _ _ (cfg.policies task.project_id) e.created_at)

  after_hourly-Agree :
      (e : Event) (task_id : ℕ) (task : TaskV2) (db : Db) (r : Limiter × Bool)
      → after_hourly cfg h1 e task_id task db r ≡ after_hourly cfg h2 e task_id task db r
  after_hourly-Agree e task_id task db (limiter, false) =
      rate_exceeded-Agree task _ _ _ _ e.created_at
  after_hourly-Agree e task_id task db (limiter, true) =
      after_burst-Agree e task_id task (record db { limiter = limiter })
        (check_rate_limit limiter task.project_id "burst" cfg.burst_limit_minute 60000000000
          (e.created_at * 1000))

  govern-Agree :
      (e : Event) (task_id : ℕ) (db : Db) (o : Option TaskV2)
      → govern cfg h1 e task_id db o ≡ govern cfg h2 e task_id db o
  unfolding govern depth_exceeded rank
  govern-Agree e task_id db none = refl
  govern-Agree e task_id db (some task) =
      if_same (ltb_ℤ cfg.max_depth (pos (task.automation_depth + 1)))
        (λ _. escalate-Agree _ _ task _ _ (leaf-Agree db _ _ _ _ _ _ refl))
        (λ _. after_hourly-Agree e task_id task db (
          check_rate_limit db.limiter task.project_id "" cfg.rate_limit_hour 3600000000000
            (e.created_at * 1000)))

  govern_for-Agree :
      (e : Event) (db : Db) (o : Option ℕ) → govern_for cfg h1 e db o ≡ govern_for cfg h2 e db o
  govern_for-Agree e db none = refl
  govern_for-Agree e db (some id) = govern-Agree e id db (get_task_v2 db id)

  pub process_rules-Agree :
      (db : Db) (e : Event) → process_rules cfg h1 db e ≡ process_rules cfg h2 db e
  unfolding process_rules
  process_rules-Agree db e =
      if_same (any (str_eq e.kind) rule_triggers && has_rules cfg.rules)
        (λ _. govern_for-Agree e db (task_id_of e)) (λ _. refl)
