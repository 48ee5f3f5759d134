-- ===== src/Automation/Promises.antt =====
-- What the server's hook promises to those who create events.
use cocopilot.Prelude.{ℕ, zero, suc, ◌+◌, ◌≤◌, ◌≡◌, refl, ◌∙◌, false, some, arith, str_eq, ◌==◌}
use cocopilot.Prelude.Int.{ℤ, pos, negsuc, pos_part, ltb_ℤ}
use cocopilot.Dbstore.{Db, TaskRow, Event, EventHook, find_task}
use cocopilot.Dbstore.Tasks.{update_task, set_task_automation_depth, always}
use cocopilot.Dbstore.Rows.{find_task-update_task}
use cocopilot.Dbstore.Creation.{next_id, next_id-lt, insert_task, find_task-insert_task}
use cocopilot.Requeue.{row_is_active, queued_row}
use cocopilot.Finish.Keeps.{IsAdditive, Extends, Extends-refl}
use cocopilot.Automation.{Config}
use cocopilot.Automation.Workers.{max_follow_up_depth}
use cocopilot.Automation.Hook.{process_automation_event, server_hook}
use cocopilot.Automation.Guards.{process_rules}
use cocopilot.Automation.Keeps.{IsClosed, IsKept}
use cocopilot.Automation.Keeps.Rules.{process_rules-P}
use cocopilot.Automation.Keeps.Workers.{lease_expired-P, system_worker-P}

deep_enough : (z : ℤ) (limit n : ℕ) → pos_part z ≤ limit → ltb_ℤ z (pos n) ≡ false → n ≤ limit
deep_enough (pos m) limit n h e = ground arith
deep_enough (negsuc m) limit n h e = ground arith

module _ (cfg : Config) (P : Db → Type 0) (limit : ℕ) (closed : IsClosed P limit)
    (deep : pos_part cfg.max_depth ≤ limit) (shallow : max_follow_up_depth ≤ limit) where
  quiet_hook-IsKept :
      (hook : EventHook)
      → ((db : Db) (e : Event) → str_eq e.kind "lease.expired" ≡ false → P db → P (hook db e))
      → IsKept cfg P limit hook
  quiet_hook-IsKept hook keeps = record {
    closed = closed;
    deep = λ n. deep_enough cfg.max_depth limit n deep;
    shallow = shallow;
    keeps = keeps;
  }

  server_hook-quiet :
      (fuel : ℕ) (db : Db) (e : Event)
      → str_eq e.kind "lease.expired" ≡ false
      → P db
      → P (server_hook cfg fuel db e)
  unfolding server_hook process_automation_event
  server_hook-quiet zero db e quiet h = h
  server_hook-quiet (suc fuel) db e quiet h =
      let k = quiet_hook-IsKept (server_hook cfg fuel) (λ db' e'. server_hook-quiet fuel db' e') in
      process_rules-P cfg P limit (server_hook cfg fuel) k e _
        (system_worker-P cfg P limit (server_hook cfg fuel) k db e (λ loud. absurd (cc)) h)

  hook-IsKept : (fuel : ℕ) → IsKept cfg P limit (server_hook cfg fuel)
  hook-IsKept fuel = quiet_hook-IsKept (server_hook cfg fuel) (server_hook-quiet fuel)

  pub server_hook-P :
      (fuel : ℕ) (db : Db) (e : Event)
      → ((id : ℕ) → P (update_task id row_is_active (queued_row e.created_at) db))
      → P db
      → P (server_hook cfg fuel db e)
  unfolding server_hook process_automation_event
  server_hook-P zero db e back h = h
  server_hook-P (suc fuel) db e back h =
      process_rules-P cfg P limit (server_hook cfg fuel) (hook-IsKept fuel) e _ (
        system_worker-P cfg P limit (server_hook cfg fuel) (hook-IsKept fuel) db e
          (λ _. lease_expired-P cfg P limit (server_hook cfg fuel) (hook-IsKept fuel) db e back h)
          h)

-- Some limit on depths that is not below any of the configuration's.
abbrev some_limit : Config → ℕ
some_limit cfg = pos_part cfg.max_depth + max_follow_up_depth

module _ (db0 : Db) (limit : ℕ) where
  found_before :
      (db : Db) (row : TaskRow) (id : ℕ) (t : TaskRow)
      → row.id ≡ next_id db.tasks
      → find_task id db.tasks ≡ some t
      → find_task id (insert_task db row).tasks ≡ some t
  found_before db row id t new e =
      let other = next_id-lt db.tasks id t e in find_task-insert_task db row id new ∙ ground arith

  found_deepened :
      (db : Db) (row : TaskRow) (depth id : ℕ) (t : TaskRow)
      → row.id ≡ next_id db.tasks
      → find_task id db.tasks ≡ some t
      → find_task id (set_task_automation_depth (insert_task db row) row.id depth).tasks ≡ some t
  unfolding set_task_automation_depth
  found_deepened db row depth id t new e =
      let below = next_id-lt db.tasks id t e in
      let other : (id == row.id) ≡ false = ground arith in
      find_task-update_task row.id always (λ u. record u { automation_depth = depth }) (λ u. refl)
        id (insert_task db row)
      ∙ rw other (found_before db row id t new e)

  Extends-IsClosed : IsClosed (Extends db0) limit
  unfolding set_task_automation_depth update_task
  Extends-IsClosed = record {
    logged = λ db e h. record { leases = h.leases; runs = h.runs; tasks = h.tasks };
    emitted = λ db es h. record { leases = h.leases; runs = h.runs; tasks = h.tasks };
    remembered = λ db ms h. record { leases = h.leases; runs = h.runs; tasks = h.tasks };
    limited = λ db l h. record { leases = h.leases; runs = h.runs; tasks = h.tasks };
    tripped = λ db c h. record { leases = h.leases; runs = h.runs; tasks = h.tasks };
    created = λ db row new flat h. record {
      leases = h.leases;
      runs = h.runs;
      tasks = λ id t e. found_before db row id t new (h.tasks id t e);
    };
    deepened = λ db row depth new flat low h. record {
      leases = h.leases;
      runs = h.runs;
      tasks = λ id t e. found_deepened db row depth id t new (h.tasks id t e);
    };
  }

  -- The leases and the runs stay as they are.
  abbrev SameWork : Db → Type 0
  SameWork db = (db.leases ≡ db0.leases) × (db.runs ≡ db0.runs)

  SameWork-IsClosed : IsClosed SameWork limit
  unfolding set_task_automation_depth update_task
  SameWork-IsClosed = record {
    logged = λ db e h. h;
    emitted = λ db es h. h;
    remembered = λ db ms h. h;
    limited = λ db l h. h;
    tripped = λ db c h. h;
    created = λ db row new flat h. h;
    deepened = λ db row depth new flat low h. h;
  }

server_hook-SameWork :
    (cfg : Config) (fuel : ℕ) (db : Db) (e : Event) → SameWork db 0 (server_hook cfg fuel db e)
unfolding update_task
server_hook-SameWork cfg fuel db e =
    server_hook-P cfg (SameWork db (some_limit cfg)) (some_limit cfg)
      (SameWork-IsClosed db (some_limit cfg)) (omega arith) (omega arith) fuel db e
      (λ id. (refl, refl)) (refl, refl)

-- For every configuration: the server's hook is additive. It changes no lease and no run, and on an
-- event of another kind than `lease.expired` it changes no task that is there.
pub server_hook-IsAdditive : (cfg : Config) (fuel : ℕ) → IsAdditive (server_hook cfg fuel)
server_hook-IsAdditive cfg fuel = record {
  leases = λ db e. (server_hook-SameWork cfg fuel db e).0;
  runs = λ db e. (server_hook-SameWork cfg fuel db e).1;
  tasks = λ db e id t quiet found.
      (server_hook-quiet cfg (Extends db) (some_limit cfg) (Extends-IsClosed db (some_limit cfg))
          (omega arith) (omega arith) fuel db e quiet (Extends-refl db)).tasks
        id t found;
}

-- The rules alone keep leases, runs and tasks.
pub process_rules-Extends :
    (cfg : Config) (fuel : ℕ) (db : Db) (e : Event)
    → Extends db (process_rules cfg (server_hook cfg fuel) db e)
process_rules-Extends cfg fuel db e =
    process_rules-P cfg (Extends db) (some_limit cfg) (server_hook cfg fuel)
      (hook-IsKept cfg (Extends db) (some_limit cfg) (Extends-IsClosed db (some_limit cfg))
        (omega arith) (omega arith) fuel)
      e db (Extends-refl db)
