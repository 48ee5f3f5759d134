-- ===== src/Automation/Guards.antt =====
-- server/automation.go: the guards of depth, rates and policies, which an event of a task passes
-- before the rules see it.
use Prim.Native.String
use cocopilot.Prelude.{
  ℕ, ◌+◌, ◌*◌, String, Bool, true, false, ◌&&◌, Option, none, some, List, [], ◌∷◌, any, str_eq,
  if◌then◌else◌,
}
use cocopilot.Prelude.Int.{ℤ, pos, ltb_ℤ}
use cocopilot.Prelude.Text.{decimal_text}
use cocopilot.RateLimit.{Limiter, check_rate_limit}
use cocopilot.Dbstore.{Db, Event, EventHook, num, int, text, name, create_event}
use cocopilot.Dbstore.Tasks.{TaskV2, get_task_v2}
use cocopilot.Requeue.{task_id_of}
use cocopilot.Automation.{
  Rule, Config, concat, is_automation_blocked_by_policies, create_automation_escalate_task,
  create_automation_review_task,
}
use cocopilot.Automation.Rules.{run_rules}

abbrev pub after_policies : Config → EventHook → Event → ℕ → TaskV2 → Db × Option String → Db
after_policies cfg hook e task_id task (db, some reason) =
    create_event hook db task.project_id "automation.blocked" "automation" (name "")
      (("reason", text "policy_blocked") ∷ ("task_id", num task.id) ∷ ("detail", text reason) ∷ [])
      e.created_at
after_policies cfg hook e task_id task (db, none) = run_rules cfg hook e task_id task db cfg.rules

-- The event and the task for a person that a spent rate limit leads to.
unfoldable pub rate_exceeded : Config → EventHook → TaskV2 → ℤ → String → String → Db → ℕ → Db
rate_exceeded cfg hook task limit window reason db now =
    create_automation_review_task cfg hook
      (create_event hook db task.project_id "automation.blocked" "automation" (name "")
        (("reason", text "rate_limit_exceeded")
          ∷ ("task_id", num task.id)
          ∷ ("limit", int limit)
          ∷ ("window", text window)
          ∷ [])
        now)
      task reason now

-- A negative number is printed with its sign.
abbrev int_text : ℤ → String
int_text (pos n) = decimal_text n
int_text (ℤ.negsuc n) = String.◌++◌ "-" (decimal_text (n + 1))

abbrev pub after_burst : Config → EventHook → Event → ℕ → TaskV2 → Db → Limiter × Bool → Db
after_burst cfg hook e task_id task db (limiter, false) =
    rate_exceeded cfg hook task cfg.burst_limit_minute "minute"
      (concat (
        "Automation burst rate limit exceeded ("
        ∷ int_text cfg.burst_limit_minute
        ∷ "/minute) for project "
        ∷ task.project_id
        ∷ []))
      (record db { limiter = limiter }) e.created_at
after_burst cfg hook e task_id task db (limiter, true) = after_policies cfg hook e task_id task (
    is_automation_blocked_by_policies cfg hook (record db { limiter = limiter }) task.project_id
      e.created_at)

abbrev pub after_hourly : Config → EventHook → Event → ℕ → TaskV2 → Db → Limiter × Bool → Db
after_hourly cfg hook e task_id task db (limiter, false) =
    rate_exceeded cfg hook task cfg.rate_limit_hour "hour"
      (concat (
        "Automation hourly rate limit exceeded ("
        ∷ int_text cfg.rate_limit_hour
        ∷ "/hour) for project "
        ∷ task.project_id
        ∷ []))
      (record db { limiter = limiter }) e.created_at
after_hourly cfg hook e task_id task db (limiter, true) =
    after_burst cfg hook e task_id task (record db { limiter = limiter })
      (check_rate_limit limiter task.project_id "burst" cfg.burst_limit_minute 60000000000
        (e.created_at * 1000))

unfoldable pub depth_exceeded : Config → EventHook → TaskV2 → Db → ℕ → Db
depth_exceeded cfg hook task db now =
    create_automation_escalate_task cfg hook
      (create_event hook db task.project_id "automation.blocked" "automation" (name "")
        (("reason", text "recursion_depth_exceeded")
          ∷ ("task_id", num task.id)
          ∷ ("depth", num (task.automation_depth + 1))
          ∷ ("max", int cfg.max_depth)
          ∷ [])
        now)
      task
      (concat (
        "Automation recursion depth exceeded (depth "
        ∷ decimal_text (task.automation_depth + 1)
        ∷ " > max "
        ∷ int_text cfg.max_depth
        ∷ ")"
        ∷ []))
      now

-- The guards, in order, and the rules.
unfoldable pub govern : Config → EventHook → Event → ℕ → Db → Option TaskV2 → Db
unfolding run_rules rate_exceeded depth_exceeded
govern cfg hook e task_id db none = db
govern cfg hook e task_id db (some task) =
    if ltb_ℤ cfg.max_depth (pos (task.automation_depth + 1))
    then depth_exceeded cfg hook task db e.created_at
    else after_hourly cfg hook e task_id task db (
        check_rate_limit db.limiter task.project_id "" cfg.rate_limit_hour 3600000000000
          (e.created_at * 1000))

abbrev pub govern_for : Config → EventHook → Event → Db → Option ℕ → Db
govern_for cfg hook e db none = db
govern_for cfg hook e db (some task_id) = govern cfg hook e task_id db (get_task_v2 db task_id)

abbrev pub rule_triggers : List String
rule_triggers =
    "task.completed" ∷ "task.failed" ∷ "run.failed" ∷ "lease.expired" ∷ "repo.changed"
    ∷ "repo.scanned" ∷ "context.invalidated" ∷ "memory.created" ∷ "dependency.unblocked"
    ∷ "project.idle" ∷ []

abbrev pub has_rules : List Rule → Bool
has_rules [] = false
has_rules (rule ∷ rules) = true

-- The rules for an event.
unfoldable pub process_rules : Config → EventHook → Db → Event → Db
unfolding govern
process_rules cfg hook db e =
    if any (str_eq e.kind) rule_triggers && has_rules cfg.rules
    then govern_for cfg hook e db (task_id_of e)
    else db
