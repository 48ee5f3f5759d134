-- ===== src/Dbstore/Leases.antt =====
-- internal/dbstore/leases.go. The unique index on `task_id` and the primary key are the constraints
-- that an insertion can break; a broken one is reported as a lease conflict.
use cocopilot.Prelude.{
  ℕ, ◌+◌, String, Bool, true, false, not, ◌&&◌, ◌||◌, Option, none, some, List, [], ◌∷◌, ◌++◌, map,
  any, keep, find?, length, ltb, ◌==◌, str_eq, if◌then◌else◌,
}
use cocopilot.Prelude.Dict.{Dict}
use cocopilot.Models.{TaskStatus}
use cocopilot.Timestamps.{is_stale, lease_duration}
use cocopilot.Dbstore.{
  Db, TaskRow, Lease, Value, num, text, stamp, name, EventHook, Result, ok, err, lease_conflict,
  lease_not_found, resolve_task_project_id, create_event, create_event_tx,
}

abbrev pub mode_or_exclusive : String → String
mode_or_exclusive mode = if str_eq mode "" then "exclusive" else mode

-- `expires_at <= now` on a row
abbrev pub expired : ℕ → Lease → Bool
expired now l = is_stale now l.expires_at

-- DELETE FROM leases WHERE task_id = ? AND expires_at <= ?
unfoldable pub clean_stale : ℕ → ℕ → List Lease → List Lease
clean_stale task_id now = keep (λ l. not (l.task_id == task_id && expired now l))

-- Whether a row would break a constraint of the table.
unfoldable pub conflicts : Lease → List Lease → Bool
conflicts lease = any (λ l. l.task_id == lease.task_id || str_eq l.id lease.id)

abbrev pub lease_payload : Lease → Dict Value
lease_payload l =
    ("lease_id", text l.id)
    ∷ ("task_id", num l.task_id)
    ∷ ("agent_id", text l.agent_id)
    ∷ ("mode", text l.mode)
    ∷ ("created_at", stamp l.created_at)
    ∷ ("expires_at", stamp l.expires_at)
    ∷ []

abbrev pub new_lease : ℕ → String → String → String → ℕ → Lease
new_lease task_id agent_id mode lease_id now = record {
  id = lease_id;
  task_id = task_id;
  agent_id = agent_id;
  mode = mode_or_exclusive mode;
  created_at = now;
  expires_at = now + lease_duration;
}

-- CreateLeaseTx. On an error the caller rolls the transaction back.
unfoldable pub create_lease_tx : Db → ℕ → String → String → String → ℕ → Result (Db × Lease)
unfolding clean_stale conflicts
create_lease_tx db task_id agent_id mode lease_id now =
    let lease = new_lease task_id agent_id mode lease_id now in
    let rest = clean_stale task_id now db.leases in
    if conflicts lease rest
    then err lease_conflict
    else ok (
      create_event_tx (record db { leases = rest ++ lease ∷ [] })
          (resolve_task_project_id db task_id) "lease.created" "lease" (name lease_id)
          (lease_payload lease) now,
      lease,
    )

abbrev committed : Db → Result (Db × Lease) → Db × Result Lease
committed db (err e) = (db, err e)
committed db (ok (db', lease)) = (db', ok lease)

-- CreateLease: one transaction, rolled back on an error.
unfoldable pub create_lease : Db → ℕ → String → String → String → ℕ → Db × Result Lease
unfolding create_lease_tx
create_lease db task_id agent_id mode lease_id now =
    committed db (create_lease_tx db task_id agent_id mode lease_id now)

-- GetLeaseByTaskID: the lease of the task that has not expired.
unfoldable pub get_lease_by_task_id : Db → ℕ → ℕ → Option Lease
get_lease_by_task_id db task_id now =
    find? (λ l. l.task_id == task_id && not (expired now l)) db.leases

-- GetLeaseByID
unfoldable pub get_lease_by_id : Db → String → Option Lease
get_lease_by_id db lease_id = find? (λ l. str_eq l.id lease_id) db.leases

-- DeleteLease
unfoldable pub delete_lease : Db → String → Db
delete_lease db lease_id = record db { leases = keep (λ l. not (str_eq l.id lease_id)) db.leases }

-- EmitLeaseLifecycleEvent
unfoldable pub emit_lease_event : EventHook → Db → String → Lease → Dict Value → ℕ → Db
emit_lease_event hook db kind lease extra now =
    create_event hook db (resolve_task_project_id db lease.task_id) kind "lease" (name lease.id)
      (lease_payload lease ++ extra) now

abbrev reason_payload : String → Dict Value
reason_payload reason = if str_eq reason "" then [] else ("reason", text reason) ∷ []

-- ReleaseLease: the lease that was released, or none.
unfoldable pub release_lease : EventHook → Db → String → String → ℕ → Db × Option Lease
unfolding delete_lease emit_lease_event
release_lease hook db lease_id reason now = elim (get_lease_by_id db lease_id) [
  | none ↦ (db, none)
  | some lease ↦ (
    emit_lease_event hook (delete_lease db lease_id) "lease.released" lease (reason_payload reason)
        now,
    some lease,
  )
]

abbrev is_in_progress : TaskStatus → Bool
is_in_progress TaskStatus.in_progress = true
is_in_progress _ = false

-- The first statement of the cleanup: it sets the v1 status only.
unfoldable pub requeue_abandoned : List Lease → TaskRow → TaskRow
requeue_abandoned gone t =
    if is_in_progress t.status && any (λ l. l.task_id == t.id) gone
    then record t { status = TaskStatus.not_picked }
    else t

unfoldable pub emit_expired : EventHook → Db → List Lease → ℕ → Db
unfolding emit_lease_event
emit_expired hook db [] now = db
emit_expired hook db (l ∷ ls) now =
    emit_expired hook
      (emit_lease_event hook db "lease.expired" l (("reason", text "expired") ∷ []) now) ls now

-- The transaction of DeleteExpiredLeases.
unfoldable pub cleanup_tx : Db → ℕ → Db
unfolding requeue_abandoned
cleanup_tx db now = record db {
  tasks = map (requeue_abandoned (keep (expired now) db.leases)) db.tasks;
  leases = keep (λ l. not (expired now l)) db.leases;
}

-- DeleteExpiredLeases: the events follow the commit.
unfoldable pub delete_expired_leases : EventHook → Db → ℕ → Db × ℕ
unfolding cleanup_tx emit_expired
delete_expired_leases hook db now =
    let gone = keep (expired now) db.leases in
    (emit_expired hook (cleanup_tx db now) gone now, length gone)

abbrev later_of : ℕ → ℕ → ℕ
later_of now current = if ltb now current then current else now

-- ExtendLease: the times are compared as times here, not as texts.
unfoldable pub extend_lease : Db → String → ℕ → ℕ → Db × Result ℕ
unfolding get_lease_by_id
extend_lease db lease_id duration now = elim (get_lease_by_id db lease_id) [
  | none ↦ (db, err lease_not_found)
  | some lease ↦
      let expires_at = later_of now lease.expires_at + duration in
      (
        record db {
          leases =
              map (λ l. if str_eq l.id lease_id then record l { expires_at = expires_at } else l)
                db.leases;
        },
        ok expires_at,
      )
]
