-- ===== src/Dbstore/OneLease.antt =====
-- Every operation on the leases keeps at most one row for each task, stale rows included.
use cocopilot.Prelude.{
  ℕ, ◌≡◌, ◌≢◌, refl, ◌∙◌, ◌⊎◌, inl, inr, Bool, false, not, ◌&&◌, List, [], ◌∷◌, ◌++◌, map, arith,
  keep, All, String, ◌==◌, Option-cases,
}
use cocopilot.Prelude.Dict.{Dict}
use cocopilot.Dbstore.{
  Db, Event, EventHook, EntityId, Value, text, Lease, create_event, create_event_tx,
}
use cocopilot.Dbstore.Leases.{
  expired, clean_stale, conflicts, create_lease, new_lease, get_lease_by_id, delete_lease,
  emit_lease_event, release_lease, cleanup_tx, emit_expired, delete_expired_leases, extend_lease,
}

-- No row of the list is for the task.
abbrev pub NoRowOf : ℕ → List Lease → Type 0
NoRowOf task_id = All (λ l. l.task_id ≢ task_id)

abbrev pub OnePerTask : List Lease → Type 0
OnePerTask [] = Unit {0}
OnePerTask (l ∷ ls) = NoRowOf l.task_id ls × OnePerTask ls

NoRowOf-keep :
    (p : Lease → Bool) (task_id : ℕ) (ls : List Lease)
    → NoRowOf task_id ls
    → NoRowOf task_id (keep p ls)
NoRowOf-keep p task_id [] h = tt
NoRowOf-keep p task_id (l ∷ ls) h = ground (arith, NoRowOf-keep p task_id ls h.1)

pub OnePerTask-keep : (p : Lease → Bool) (ls : List Lease) → OnePerTask ls → OnePerTask (keep p ls)
OnePerTask-keep p [] h = tt
OnePerTask-keep p (l ∷ ls) h =
    ground (arith, OnePerTask-keep p ls h.1, NoRowOf-keep p l.task_id ls h.0)

module _ (f : Lease → Lease) (keeps : (l : Lease) → (f l).task_id ≡ l.task_id) where
  NoRowOf-map : (task_id : ℕ) (ls : List Lease) → NoRowOf task_id ls → NoRowOf task_id (map f ls)
  NoRowOf-map task_id [] h = tt
  NoRowOf-map task_id (l ∷ ls) h = (rw keeps h.0, NoRowOf-map task_id ls h.1)

  OnePerTask-map : (ls : List Lease) → OnePerTask ls → OnePerTask (map f ls)
  OnePerTask-map [] h = tt
  OnePerTask-map (l ∷ ls) h = (rw keeps (NoRowOf-map l.task_id ls h.0), OnePerTask-map ls h.1)

NoRowOf-append :
    (task_id : ℕ) (ls : List Lease) (new : Lease)
    → NoRowOf task_id ls
    → new.task_id ≢ task_id
    → NoRowOf task_id (ls ++ new ∷ [])
NoRowOf-append task_id [] new h d = (d, tt)
NoRowOf-append task_id (l ∷ ls) new h d = (h.0, NoRowOf-append task_id ls new h.1 d)

pub OnePerTask-append :
    (ls : List Lease) (new : Lease)
    → OnePerTask ls
    → conflicts new ls ≡ false
    → OnePerTask (ls ++ new ∷ [])
unfolding conflicts
OnePerTask-append [] new h free = (tt, tt)
OnePerTask-append (l ∷ ls) new h free = (
  NoRowOf-append l.task_id ls new h.0 (ground arith),
  OnePerTask-append ls new h.1 (ground arith),
)

-- The hook leaves the leases alone, as the server's automation does.
abbrev pub KeepsLeases : EventHook → Type 0
KeepsLeases hook = (db : Db) (e : Event) → (hook db e).leases ≡ db.leases

create_lease-OnePerTask :
    (db : Db) (task_id : ℕ) (agent_id mode lease_id : String) (now : ℕ)
    → OnePerTask db.leases
    → OnePerTask (create_lease db task_id agent_id mode lease_id now).0.leases
unfolding create_lease create_event_tx
create_lease-OnePerTask db task_id agent_id mode lease_id now h = ground (
  arith,
  OnePerTask-keep (λ l. not (l.task_id == task_id && expired now l)) db.leases h,
  OnePerTask-append (clean_stale task_id now db.leases)
      (new_lease task_id agent_id mode lease_id now),
)

pub create_event-leases :
    (hook : EventHook)
    → KeepsLeases hook
    → (db : Db) (project kind entity : String) (id : EntityId) (payload : Dict Value) (now : ℕ)
    → (create_event hook db project kind entity id payload now).leases ≡ db.leases
unfolding create_event
create_event-leases hook keeps db project kind entity id payload now = keeps _ _

pub release_lease-leases :
    (hook : EventHook)
    → KeepsLeases hook
    → (db : Db) (lease_id reason : String) (now : ℕ)
    → (((release_lease hook db lease_id reason now).0.leases ≡ (delete_lease db lease_id).leases)
        ⊎ ((release_lease hook db lease_id reason now).0.leases ≡ db.leases))
unfolding release_lease
release_lease-leases hook keeps db lease_id reason now =
    elim (Option-cases (get_lease_by_id db lease_id)) [
      | inl e ↦ rw (e, release_lease) (inr refl)
      | inr (l, e) ↦ rw (e, release_lease) (inl (create_event-leases hook keeps _ _ _ _ _ _ now))
    ]

release_lease-OnePerTask :
    (hook : EventHook)
    → KeepsLeases hook
    → (db : Db) (lease_id reason : String) (now : ℕ) → OnePerTask db.leases
    → OnePerTask (release_lease hook db lease_id reason now).0.leases
release_lease-OnePerTask hook keeps db lease_id reason now h =
    elim (release_lease-leases hook keeps db lease_id reason now) [
      | inl e ↦ rw e (unfold delete_lease in OnePerTask-keep _ db.leases h)
      | inr e ↦ rw e h
    ]

pub emit_expired-leases :
    (hook : EventHook)
    → KeepsLeases hook
    → (db : Db) (ls : List Lease) (now : ℕ) → (emit_expired hook db ls now).leases ≡ db.leases
unfolding emit_expired emit_lease_event
emit_expired-leases hook keeps db [] now = refl
emit_expired-leases hook keeps db (l ∷ ls) now =
    emit_expired-leases hook keeps
      (emit_lease_event hook db "lease.expired" l (("reason", text "expired") ∷ []) now) ls now
    ∙ create_event-leases hook keeps db _ _ _ _ _ now

-- Given that the event hook leaves the leases alone: the cleanup removes the stale leases and no
-- other.
pub delete_expired-leases :
    (hook : EventHook)
    → KeepsLeases hook
    → (db : Db) (now : ℕ)
    → (delete_expired_leases hook db now).0.leases ≡ keep (λ l. not (expired now l)) db.leases
unfolding delete_expired_leases
delete_expired-leases hook keeps db now =
    emit_expired-leases hook keeps (cleanup_tx db now) (keep (expired now) db.leases) now

extend_lease-OnePerTask :
    (db : Db) (lease_id : String) (duration now : ℕ)
    → OnePerTask db.leases
    → OnePerTask (extend_lease db lease_id duration now).0.leases
unfolding extend_lease
extend_lease-OnePerTask db lease_id duration now h =
    elim (Option-cases (get_lease_by_id db lease_id)) [
      | inl e ↦ rw (e, extend_lease) h
      | inr (l, e) ↦ rw (e, extend_lease) (OnePerTask-map _ (λ x. ground arith) db.leases h)
    ]

-- The calls that change the leases, each at its time.
pub data LeaseCall : Type 0 where
  creates : ℕ → String → String → String → LeaseCall
  releases : String → String → LeaseCall
  cleans : LeaseCall
  extends : String → ℕ → LeaseCall

unfoldable pub lease_step : EventHook → Db → ℕ × LeaseCall → Db
unfolding create_lease release_lease delete_expired_leases extend_lease
lease_step hook db (now, creates task_id agent_id mode lease_id) =
    (create_lease db task_id agent_id mode lease_id now).0
lease_step hook db (now, releases lease_id reason) = (release_lease hook db lease_id reason now).0
lease_step hook db (now, cleans) = (delete_expired_leases hook db now).0
lease_step hook db (now, extends lease_id duration) = (extend_lease db lease_id duration now).0

unfoldable pub lease_run : EventHook → Db → List (ℕ × LeaseCall) → Db
lease_run hook db [] = db
lease_run hook db (c ∷ cs) = lease_run hook (lease_step hook db c) cs

lease_step-OnePerTask :
    (hook : EventHook)
    → KeepsLeases hook
    → (db : Db) (c : ℕ × LeaseCall) → OnePerTask db.leases
    → OnePerTask (lease_step hook db c).leases
unfolding lease_step
lease_step-OnePerTask hook keeps db (now, creates task_id agent_id mode lease_id) h =
    create_lease-OnePerTask db task_id agent_id mode lease_id now h
lease_step-OnePerTask hook keeps db (now, releases lease_id reason) h =
    release_lease-OnePerTask hook keeps db lease_id reason now h
lease_step-OnePerTask hook keeps db (now, cleans) h =
    rw (delete_expired-leases hook keeps db now) (OnePerTask-keep _ db.leases h)
lease_step-OnePerTask hook keeps db (now, extends lease_id duration) h =
    extend_lease-OnePerTask db lease_id duration now h

-- Given that the event hook leaves the leases alone: after any lease calls a task has at most one
-- lease row, if it had at most one before them.
pub lease_run-OnePerTask :
    (hook : EventHook)
    → KeepsLeases hook
    → (db : Db) (cs : List (ℕ × LeaseCall)) → OnePerTask db.leases
    → OnePerTask (lease_run hook db cs).leases
unfolding lease_run
lease_run-OnePerTask hook keeps db [] h = h
lease_run-OnePerTask hook keeps db (c ∷ cs) h =
    lease_run-OnePerTask hook keeps (lease_step hook db c) cs
      (lease_step-OnePerTask hook keeps db c h)
