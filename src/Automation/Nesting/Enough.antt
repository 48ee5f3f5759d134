-- ===== src/Automation/Nesting/Enough.antt =====
-- Three open calls are enough for every event.
use cocopilot.Prelude.{
  ℕ, zero, suc, ◌+◌, ◌≤◌, ◌≡◌, refl, ap, sym, ◌∙◌, arith, String, inl, inr, false, str_eq, eq_iff,
  Bool-cases,
}
use cocopilot.Dbstore.{Db, Event, EventHook}
use cocopilot.Automation.{Config}
use cocopilot.Automation.Guards.{process_rules}
use cocopilot.Automation.Hook.{system_worker, process_automation_event, server_hook}
use cocopilot.Automation.Nesting.{rank, Agree}
use cocopilot.Automation.Nesting.Rules.{process_rules-Agree}
use cocopilot.Automation.Nesting.Workers.{system_worker-Agree}

-- An event of rank zero is of no known kind.
unlike : (kind s : String) → rank kind ≤ 0 → 1 ≤ rank s → str_eq kind s ≡ false
unlike kind s low known = elim (Bool-cases (str_eq kind s)) [
  | inl same ↦ absurd (omega (arith, ap rank ((eq_iff kind s).0 same)))
  | inr other ↦ other
]

-- Nothing is done with an event that is not known.
worker-other :
    (cfg : Config) (hook : EventHook) (db : Db) (e : Event)
    → rank e.kind ≤ 0
    → system_worker cfg hook db e ≡ db
unfolding system_worker rank
worker-other cfg hook db e low =
    let other = λ (s : String) (known : 1 ≤ rank s). unlike e.kind s low known in
    rw
      (
        other "run.failed" (omega arith),
        other "task.failed" (omega arith),
        other "task.completed" (omega arith),
        other "repo.changed" (omega arith),
        other "repo.scanned" (omega arith),
        other "context.invalidated" (omega arith),
        other "memory.created" (omega arith),
        other "lease.expired" (omega arith),
        other "project.idle" (omega arith),
      )
      refl

rules-other :
    (cfg : Config) (hook : EventHook) (db : Db) (e : Event)
    → rank e.kind ≤ 0
    → process_rules cfg hook db e ≡ db
unfolding process_rules rank
rules-other cfg hook db e low =
    let other = λ (s : String) (known : 1 ≤ rank s). unlike e.kind s low known in
    rw
      (
        other "task.completed" (omega arith),
        other "task.failed" (omega arith),
        other "run.failed" (omega arith),
        other "lease.expired" (omega arith),
        other "repo.changed" (omega arith),
        other "repo.scanned" (omega arith),
        other "context.invalidated" (omega arith),
        other "memory.created" (omega arith),
        other "dependency.unblocked" (omega arith),
        other "project.idle" (omega arith),
      )
      refl

process-other :
    (cfg : Config) (hook : EventHook) (db : Db) (e : Event)
    → rank e.kind ≤ 0
    → process_automation_event cfg hook db e ≡ db
unfolding process_automation_event
process-other cfg hook db e low =
    rw (worker-other cfg hook db e low) (rules-other cfg hook db e low)

rank-le : (kind : String) → rank kind ≤ 3
unfolding rank
rank-le kind = ground arith

server_hook-step :
    (cfg : Config) (n : ℕ) (db : Db) (e : Event)
    → rank e.kind ≤ n
    → server_hook cfg (suc n) db e ≡ server_hook cfg n db e
unfolding server_hook process_automation_event
server_hook-step cfg zero db e low = process-other cfg (server_hook cfg zero) db e low
server_hook-step cfg (suc n) db e low =
    let agree : Agree n (server_hook cfg (suc n)) (server_hook cfg n) =
      λ db' e' low'. server_hook-step cfg n db' e' low' in
    process_rules-Agree cfg n (server_hook cfg (suc n)) (server_hook cfg n) agree _ e
    ∙ ap (λ d. process_rules cfg (server_hook cfg n) d e)
        (system_worker-Agree cfg n (server_hook cfg (suc n)) (server_hook cfg n) agree db e low)

server_hook_from_three :
    (cfg : Config) (n : ℕ) (db : Db) (e : Event)
    → server_hook cfg (n + 3) db e ≡ server_hook cfg 3 db e
server_hook_from_three cfg zero db e = refl
server_hook_from_three cfg (suc n) db e =
    let top = rank-le e.kind in
    ap (λ m. server_hook cfg m db e) (omega arith)
    ∙ server_hook-step cfg (n + 3) db e (omega arith)
    ∙ server_hook_from_three cfg n db e

-- For every configuration, database and event: three open calls of the hook are enough. More change
-- nothing, and with three the hook is what processAutomationEvent does where each event that it creates
-- comes to the same hook again, so the nesting always ends.
pub server_hook_is_enough :
    (cfg : Config) (n : ℕ) (db : Db) (e : Event)
    → (server_hook cfg (n + 3) db e ≡ server_hook cfg 3 db e)
      × (server_hook cfg 3 db e ≡ process_automation_event cfg (server_hook cfg 3) db e)
unfolding server_hook
server_hook_is_enough cfg n db e =
    (server_hook_from_three cfg n db e, sym (server_hook-step cfg 3 db e (rank-le e.kind)))
