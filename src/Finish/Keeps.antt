-- ===== src/Finish/Keeps.antt =====
-- What the automation may do when an event arrives, and what the steps of a settlement keep.
use cocopilot.Prelude.{
  ℕ, ◌≡◌, refl, inl, inr, Bool, false, not, ◌&&◌, Option, none, some, List, [], ◌∷◌, arith, keep,
  map, find?, String, ◌==◌, str_eq, if◌then◌else◌, Option-cases, Bool-cases,
}
use mathlib.Core.Option
use cocopilot.Prelude.Dict.{Dict, str_eq_refl}
use cocopilot.Models.{RunStatus}
use cocopilot.Dbstore.{
  Db, TaskRow, Run, Lease, Event, EventHook, EntityId, Value, find_task, create_event,
}
use cocopilot.Dbstore.Leases.{
  expired, get_lease_by_id, release_lease, delete_lease, emit_lease_event,
}
use cocopilot.Dbstore.Runs.{
  latest, get_latest_run, finish_run, update_run_status, get_run, emit_run_event, run_event_kind,
}
use cocopilot.Dbstore.Tasks.{get_task_v2}
use cocopilot.Dbstore.OneLease.{OnePerTask, NoRowOf}

-- The server's automation adds tasks and events. It changes an existing task only when a lease
-- expires, and neither leases nor runs.
pub record IsAdditive (hook : EventHook) : Type 0 where
  pub leases : (db : Db) (e : Event) → (hook db e).leases ≡ db.leases
  pub runs : (db : Db) (e : Event) → (hook db e).runs ≡ db.runs
  pub tasks :
      (db : Db) (e : Event) (id : ℕ) (t : TaskRow)
      → str_eq e.kind "lease.expired" ≡ false
      → find_task id db.tasks ≡ some t
      → find_task id (hook db e).tasks ≡ some t

-- The second database has the leases, the runs and the tasks of the first, and maybe more tasks.
pub record Extends (db db' : Db) : Type 0 where
  pub leases : db'.leases ≡ db.leases
  pub runs : db'.runs ≡ db.runs
  pub tasks :
      (id : ℕ) (t : TaskRow) → find_task id db.tasks ≡ some t → find_task id db'.tasks ≡ some t

pub Extends-refl : (db : Db) → Extends db db
Extends-refl db = record { leases = refl; runs = refl; tasks = λ id t h. h }

pub create_event-Extends :
    (hook : EventHook)
    → IsAdditive hook
    → (db : Db) (project kind entity : String) (id : EntityId) (payload : Dict Value) (now : ℕ)
    → str_eq kind "lease.expired" ≡ false
    → Extends db (create_event hook db project kind entity id payload now)
unfolding create_event
create_event-Extends hook additive db project kind entity id payload now h = record {
  leases = additive.leases _ _;
  runs = additive.runs _ _;
  tasks = λ i t e. additive.tasks _ _ i t h e;
}

-- The row of a run after it is finished.
abbrev pub finished : String → RunStatus → Option String → ℕ → Run → Run
finished run_id status error now r =
    if str_eq r.id run_id
    then record r { status = status; finished_at = some now; error = error }
    else r

module _ (run_id : String) (status : RunStatus) (error : Option String) (now : ℕ) where
  latest-finished :
      (rs : List Run)
      → latest (map (finished run_id status error now) rs)
        ≡ Option.map (finished run_id status error now) (latest rs)
  unfolding latest
  latest-finished [] = refl
  latest-finished (r ∷ rs) = elim (Option-cases (latest rs)) [
    | inl e ↦ rw (latest-finished rs, e) refl
    | inr (s, e) ↦ rw (latest-finished rs, e) (ground arith)
  ]

  keep-finished :
      (task_id : ℕ) (rs : List Run)
      → keep (λ r. r.task_id == task_id) (map (finished run_id status error now) rs)
        ≡ map (finished run_id status error now) (keep (λ r. r.task_id == task_id) rs)
  keep-finished task_id [] = refl
  keep-finished task_id (r ∷ rs) = ground (arith, keep-finished task_id rs)

  -- Finishing a run changes no time of start, so the latest run of a task is the same run.
  pub get_latest_run-finish_run :
      (db : Db) (task_id : ℕ)
      → get_latest_run (finish_run run_id status error now db) task_id
        ≡ Option.map (finished run_id status error now) (get_latest_run db task_id)
  unfolding get_latest_run finish_run
  get_latest_run-finish_run db task_id =
      rw (keep-finished task_id db.runs)
        (latest-finished (keep (λ r. r.task_id == task_id) db.runs))

run_event_quiet : (status : RunStatus) → str_eq (run_event_kind status) "lease.expired" ≡ false
run_event_quiet RunStatus.running = refl
run_event_quiet RunStatus.succeeded = refl
run_event_quiet RunStatus.failed = refl
run_event_quiet RunStatus.cancelled = refl

emit_run_event-Extends :
    (hook : EventHook)
    → IsAdditive hook
    → (db : Db) (run_id : String) (status : RunStatus) (error : Option String) (now : ℕ)
      (o : Option Run)
    → Extends db (emit_run_event hook db run_id status error now o)
emit_run_event-Extends hook additive db run_id status error now none = Extends-refl db
emit_run_event-Extends hook additive db run_id status error now (some run) =
    elim (Option-cases (get_task_v2 db run.task_id)) [
      | inl e ↦ rw (e, emit_run_event) (Extends-refl db)
      | inr (task, e) ↦
          rw (e, emit_run_event)
            (create_event-Extends hook additive db _ _ _ _ _ now (run_event_quiet status))
    ]

-- What finishing a run does: its row, and nothing else but an event.
pub update_run_status-Extends :
    (hook : EventHook)
    → IsAdditive hook
    → (db : Db) (run_id : String) (status : RunStatus) (error : Option String) (now : ℕ)
    → Extends
        (finish_run run_id status error now db)
        (update_run_status hook db run_id status error now)
unfolding update_run_status
update_run_status-Extends hook additive db run_id status error now =
    emit_run_event-Extends hook additive (finish_run run_id status error now db) run_id status error
      now (get_run (finish_run run_id status error now db) run_id)

-- What releasing a lease that is there does: its row, and nothing else but an event.
pub release_lease-Extends :
    (hook : EventHook)
    → IsAdditive hook
    → (db : Db) (lease_id reason : String) (now : ℕ) (l : Lease)
    → get_lease_by_id db lease_id ≡ some l
    → Extends (delete_lease db lease_id) (release_lease hook db lease_id reason now).0
unfolding release_lease emit_lease_event
release_lease-Extends hook additive db lease_id reason now l e =
    rw (e, release_lease)
      (create_event-Extends hook additive (delete_lease db lease_id) _ _ _ _ _ now refl)

none_of :
    (task_id now : ℕ) (p : Lease → Bool) (ls : List Lease)
    → NoRowOf task_id ls
    → find? (λ l. l.task_id == task_id && not (expired now l)) (keep p ls) ≡ none
none_of task_id now p [] h = refl
none_of task_id now p (l ∷ ls) h = ground (arith, none_of task_id now p ls h.1, h.0)

pub none_left :
    (task_id now : ℕ) (ls : List Lease) (l : Lease)
    → OnePerTask ls
    → find? (λ x. x.task_id == task_id && not (expired now x)) ls ≡ some l
    → find?
        (λ x. x.task_id == task_id && not (expired now x))
        (keep (λ x. not (str_eq x.id l.id)) ls)
      ≡ none
none_left task_id now [] l h e = refl
none_left task_id now (x ∷ xs) l h e = ground (
  arith,
  none_of task_id now (λ y. not (str_eq y.id l.id)) xs,
  none_left task_id now xs l h.1,
  str_eq_refl l.id,
  h.0,
)

pub find_by_id :
    (p : Lease → Bool) (ls : List Lease) (l : Lease)
    → find? p ls ≡ some l
    → (m : Lease) × (find? (λ x. str_eq x.id l.id) ls ≡ some m)
find_by_id p [] l e = cc
find_by_id p (x ∷ xs) l e = elim (Bool-cases (str_eq x.id l.id)) [
  | inl same ↦ (x, rw same refl)
  | inr other ↦
      let (m, found) = find_by_id p xs l (ground (arith, str_eq_refl l.id)) in (m, rw other found)
]
