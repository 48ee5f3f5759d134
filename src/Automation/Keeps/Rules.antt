-- ===== src/Automation/Keeps/Rules.antt =====
-- The guards and the loops over the rules keep what is closed under their changes.
use cocopilot.Prelude.{
  if_P, ℕ, ◌+◌, ◌*◌, ◌≤◌, refl, inl, inr, String, Bool, true, false, not, ◌&&◌, ◌||◌, Option, none,
  some, List, [], ◌∷◌, any, str_eq, Bool-cases, Option-cases,
}
use cocopilot.Prelude.Int.{ℤ, pos, ltb_ℤ}
use cocopilot.RateLimit.{Limiter, check_rate_limit}
use cocopilot.Policy.{Policy}
use cocopilot.Dbstore.{Db, Event, EventHook}
use cocopilot.Dbstore.Tasks.{TaskV2, to_task_v2, get_task_v2}
use cocopilot.Dbstore.Creation.{TaskMeta}
use cocopilot.Requeue.{task_id_of}
use cocopilot.Automation.{
  Action, Rule, Config, is_automation_rule_enabled, policy_blocks, blocked_by_policies,
  emit_policy_denied_event, is_automation_blocked_by_policies,
}
use cocopilot.Automation.Rules.{settle_child, run_action, run_actions, fire, run_rule, run_rules}
use cocopilot.Automation.Guards.{
  after_policies, rate_exceeded, after_burst, after_hourly, depth_exceeded, govern, govern_for,
  process_rules, rule_triggers, has_rules,
}
use cocopilot.Automation.Keeps.{
  IsKept, Creation, refused, inserted, try_create-Creation, create_event-P, escalate-P, review-P,
  allow-P, fail-P, succeed-P,
}

module _ (cfg : Config) (P : Db → Type 0) (limit : ℕ) (hook : EventHook)
    (k : IsKept cfg P limit hook) where
  settle_child-P :
      (task : TaskV2) (rule : String) (parent : Option ℕ) (now : ℕ) (db : Db)
      (r : Db × Option TaskV2)
      → Creation db r
      → task.automation_depth + 1 ≤ limit
      → P db
      → P (settle_child cfg hook task rule parent now r)
  unfolding to_task_v2
  settle_child-P task rule parent now db r refused low h =
      fail-P cfg P limit hook k task rule now db db.circuit h
  settle_child-P task rule parent now db r (inserted row new flat) low h =
      create_event-P cfg P limit hook k _ _ _ _ _ _ now refl
        (succeed-P cfg P limit hook k db row rule _ db.circuit new flat low h)

  run_action-P :
      (e : Event) (task_id : ℕ) (task : TaskV2) (rule : String) (db : Db) (action : Action)
      → task.automation_depth + 1 ≤ limit
      → P db
      → P (run_action cfg hook e task_id task rule db action)
  unfolding run_action
  run_action-P e task_id task rule db action low h =
      let settled = λ (parent : Option ℕ) (instructions : String) (meta : TaskMeta).
        settle_child-P task rule parent e.created_at db _
          (try_create-Creation cfg db instructions task.project_id parent meta e.created_at) low
          h in
      search (if_P P, settled, h)

  run_actions-P :
      (e : Event) (task_id : ℕ) (task : TaskV2) (rule : String) (db : Db) (actions : List Action)
      → task.automation_depth + 1 ≤ limit
      → P db
      → P (run_actions cfg hook e task_id task rule db actions)
  unfolding run_actions
  run_actions-P e task_id task rule db [] low h = h
  run_actions-P e task_id task rule db (action ∷ actions) low h =
      run_actions-P e task_id task rule (run_action cfg hook e task_id task rule db action) actions
        low (run_action-P e task_id task rule db action low h)

  fire-P :
      (e : Event) (task_id : ℕ) (task : TaskV2) (rule : Rule) (r : Db × Bool)
      → task.automation_depth + 1 ≤ limit
      → P r.0
      → P (fire cfg hook e task_id task rule r)
  fire-P e task_id task rule (db, false) low h =
      create_event-P cfg P limit hook k db _ _ _ _ _ _ refl h
  fire-P e task_id task rule (db, true) low h =
      run_actions-P e task_id task rule.name _ rule.actions low
        (create_event-P cfg P limit hook k db _ _ _ _ _ _ refl h)

  run_rule-P :
      (e : Event) (task_id : ℕ) (task : TaskV2) (db : Db) (rule : Rule)
      → task.automation_depth + 1 ≤ limit
      → P db
      → P (run_rule cfg hook e task_id task db rule)
  unfolding run_rule
  run_rule-P e task_id task db rule low h =
      if_P P (not (is_automation_rule_enabled rule) || not (str_eq rule.trigger e.kind)) _ _
        (λ _. h)
        (λ _.
          fire-P e task_id task rule _ low
            (allow-P cfg P limit hook k db rule.name e.created_at db.circuit h))

  run_rules-P :
      (e : Event) (task_id : ℕ) (task : TaskV2) (db : Db) (rules : List Rule)
      → task.automation_depth + 1 ≤ limit
      → P db
      → P (run_rules cfg hook e task_id task db rules)
  unfolding run_rules
  run_rules-P e task_id task db [] low h = h
  run_rules-P e task_id task db (rule ∷ rules) low h =
      run_rules-P e task_id task (run_rule cfg hook e task_id task db rule) rules low
        (run_rule-P e task_id task db rule low h)

  blocked-P :
      (db : Db) (project kind action : String) (ps : List Policy) (now : ℕ)
      → P db
      → P (blocked_by_policies hook db project kind action ps now).0
  unfolding blocked_by_policies emit_policy_denied_event
  blocked-P db project kind action [] now h = h
  blocked-P db project kind action (p ∷ ps) now h = elim (Bool-cases p.enabled) [
    | inr idle ↦ rw idle (blocked-P db project kind action ps now h)
    | inl enabled ↦ elim (Option-cases (policy_blocks kind p.rules)) [
      | inl passes ↦ rw (enabled, passes) (blocked-P db project kind action ps now h)
      | inr (reason, blocks) ↦
          rw (enabled, blocks) (create_event-P cfg P limit hook k db _ _ _ _ _ now refl h)
    ]
  ]

  after_policies-P :
      (e : Event) (task_id : ℕ) (task : TaskV2) (r : Db × Option String)
      → task.automation_depth + 1 ≤ limit
      → P r.0
      → P (after_policies cfg hook e task_id task r)
  after_policies-P e task_id task (db, some reason) low h =
      create_event-P cfg P limit hook k db _ _ _ _ _ _ refl h
  after_policies-P e task_id task (db, none) low h = run_rules-P e task_id task db cfg.rules low h

  rate_exceeded-P :
      (task : TaskV2) (allowed : ℤ) (window reason : String) (db : Db) (now : ℕ)
      → P db
      → P (rate_exceeded cfg hook task allowed window reason db now)
  unfolding rate_exceeded
  rate_exceeded-P task allowed window reason db now h =
      review-P cfg P limit hook k _ task reason now
        (create_event-P cfg P limit hook k db _ _ _ _ _ now refl h)

  after_burst-P :
      (e : Event) (task_id : ℕ) (task : TaskV2) (db : Db) (r : Limiter × Bool)
      → task.automation_depth + 1 ≤ limit
      → P db
      → P (after_burst cfg hook e task_id task db r)
  unfolding is_automation_blocked_by_policies
  after_burst-P e task_id task db (limiter, false) low h =
      rate_exceeded-P task _ _ _ _ e.created_at (k.closed.limited db limiter h)
  after_burst-P e task_id task db (limiter, true) low h = after_policies-P e task_id task _ low (
      blocked-P _ task.project_id _ _ (cfg.policies task.project_id) e.created_at
        (k.closed.limited db limiter h))

  after_hourly-P :
      (e : Event) (task_id : ℕ) (task : TaskV2) (db : Db) (r : Limiter × Bool)
      → task.automation_depth + 1 ≤ limit
      → P db
      → P (after_hourly cfg hook e task_id task db r)
  after_hourly-P e task_id task db (limiter, false) low h =
      rate_exceeded-P task _ _ _ _ e.created_at (k.closed.limited db limiter h)
  after_hourly-P e task_id task db (limiter, true) low h =
      after_burst-P e task_id task _ _ low (k.closed.limited db limiter h)

  govern-P :
      (e : Event) (task_id : ℕ) (db : Db) (o : Option TaskV2)
      → P db
      → P (govern cfg hook e task_id db o)
  unfolding govern depth_exceeded
  govern-P e task_id db none h = h
  govern-P e task_id db (some task) h =
      if_P P (ltb_ℤ cfg.max_depth (pos (task.automation_depth + 1))) _ _
        (λ _.
          escalate-P cfg P limit hook k _ task _ _
            (create_event-P cfg P limit hook k db _ _ _ _ _ _ refl h))
        (λ low.
          after_hourly-P e task_id task db
            (check_rate_limit db.limiter task.project_id "" cfg.rate_limit_hour 3600000000000
              (e.created_at * 1000))
            (k.deep (task.automation_depth + 1) low) h)

  govern_for-P : (e : Event) (db : Db) (o : Option ℕ) → P db → P (govern_for cfg hook e db o)
  govern_for-P e db none h = h
  govern_for-P e db (some id) h = govern-P e id db (get_task_v2 db id) h

  pub process_rules-P : (e : Event) (db : Db) → P db → P (process_rules cfg hook db e)
  unfolding process_rules
  process_rules-P e db h =
      if_P P (any (str_eq e.kind) rule_triggers && has_rules cfg.rules) _ _
        (λ _. govern_for-P e db (task_id_of e) h) (λ _. h)
