-- ===== src/Automation/Nesting.antt =====
-- How deep the calls of the hook nest: an event of rank n creates only events of smaller rank.
pub mod Rules
pub mod Workers
pub mod Enough
use Prim.Native.String
use cocopilot.Prelude.{
  ℕ, zero, suc, ◌+◌, ◌*◌, ◌≤◌, ◌≡◌, refl, ap, ◌∙◌, inl, inr, String, Bool, true, false, not, ◌&&◌,
  ◌||◌, Option, none, some, List, [], ◌∷◌, arith, any, str_eq, eq_iff, if◌then◌else◌, Bool-cases,
  Option-cases, leb,
}
use cocopilot.Prelude.Int.{ℤ, pos, ltb_ℤ}
use cocopilot.Prelude.Dict.{Dict, lookup}
use cocopilot.Models.{is_active}
use cocopilot.RateLimit.{Limiter, check_rate_limit}
use cocopilot.Circuit.{Breaker, record_failure}
use cocopilot.Policy.{Policy}
use cocopilot.Dbstore.{Db, Event, EventHook, EntityId, Value, create_event, log_event}
use cocopilot.Dbstore.Tasks.{TaskV2, get_task_v2, update_task}
use cocopilot.Requeue.{
  task_id_of, requeue_task, requeue_for, process_lease_expired_event, row_is_active, queued_row,
}
use cocopilot.Automation.{
  Action, Rule, Config, is_automation_rule_enabled, try_create, try_emission, announce_task,
  policy_blocks, blocked_by_policies, emit_policy_denied_event, is_automation_blocked_by_policies,
  create_automation_escalate_task, create_automation_review_task, is_follow_up_duplicate,
}
use cocopilot.Automation.Rules.{
  allow, succeed, fail, tell_opened, settle_child, run_action, run_actions, fire, run_rule,
  run_rules,
}
use cocopilot.Automation.Guards.{
  after_policies, rate_exceeded, after_burst, after_hourly, depth_exceeded, govern, govern_for,
  process_rules, rule_triggers, has_rules,
}
use cocopilot.Automation.Workers.{
  follow_up, announce_follow_up, investigate, investigate_for, max_follow_up_depth, unblock_one,
  unblock_all, unblock_found, unblock_for, is_waiting, are_all_dependencies_fulfilled,
  text_or_empty, announce_project, announce_refresh, refresh, get_tasks_depending_on,
  process_run_failed_event, process_task_completed_dependencies, process_repo_changed_event,
  emit_context_invalidated_from_scan, process_context_invalidated_event,
  process_memory_created_event, process_project_idle_event,
}
use cocopilot.Automation.Hook.{system_worker, process_automation_event, server_hook}

-- How many calls of the hook may be open for an event, this one not counted.
unfoldable pub rank : String → ℕ
rank kind =
    if str_eq kind "repo.changed"
    then 3
    else if any (str_eq kind) ("task.completed" ∷ "repo.scanned" ∷ "memory.created" ∷ [])
    then 2
    else if any (str_eq kind) rule_triggers
    then 1
    else 0

-- Two hooks that do the same with events up to a rank.
abbrev pub Agree : ℕ → EventHook → EventHook → Type 0
Agree n h1 h2 = (db : Db) (e : Event) → rank e.kind ≤ n → h1 db e ≡ h2 db e

pub if_same {ℓ} :
    {A : Type ℓ} (b : Bool) {x x' y y' : A}
    → (b ≡ true → x ≡ x')
    → (b ≡ false → y ≡ y')
    → (if b then x else y) ≡ (if b then x' else y')
if_same true p q = p refl
if_same false p q = q refl

pub create_event-Agree :
    (n : ℕ) (h1 h2 : EventHook)
    → Agree n h1 h2
    → (db : Db) (project kind entity : String) (id : EntityId) (payload : Dict Value) (now : ℕ)
    → rank kind ≤ n
    → create_event h1 db project kind entity id payload now
      ≡ create_event h2 db project kind entity id payload now
unfolding create_event
create_event-Agree n h1 h2 agree db project kind entity id payload now low = agree _ _ low
