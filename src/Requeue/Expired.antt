-- ===== src/Requeue/Expired.antt =====
-- A task whose agent let its lease run out comes back to the queue.
use cocopilot.Prelude.{
  ℕ, zero, suc, ◌≡◌, ◌≢◌, refl, ap, ◌∙◌, inl, inr, Bool, true, false, Option, none, some, List, [],
  ◌∷◌, arith, any, keep, map, ◌==◌, Bool-cases, ==_iff,
}
use cocopilot.Prelude.Dict.{lookup}
use cocopilot.Models.{is_active}
use cocopilot.Dbstore.{
  Db, TaskRow, Lease, EventHook, find_task, create_event, decimal, num, text, log_event,
  task_id_from_payload, parse_event_task_id,
}
use cocopilot.Dbstore.Tasks.{TaskV2, to_task_v2, get_task_v2, update_task}
use cocopilot.Dbstore.Leases.{
  expired, emit_lease_event, emit_expired, requeue_abandoned, cleanup_tx, delete_expired_leases,
}
use cocopilot.Finish.Settled.{get_task_v2-found}
use cocopilot.Finish.Keeps.{IsAdditive, create_event-Extends}
use cocopilot.Requeue.{
  row_is_active, queued_row, process_lease_expired_event, requeue_task, requeue_for,
}
use cocopilot.Automation.{Config}
use cocopilot.Automation.Hook.{system_worker, process_automation_event, server_hook}
use cocopilot.Automation.Promises.{server_hook-IsAdditive, process_rules-Extends}
use cocopilot.Requeue.Stuck.{put_back, update-put_back, put_back_twice}

inactive :
    (t : TaskRow) (task : TaskV2)
    → some task ≡ some (to_task_v2 t)
    → is_active task.status_v2 ≡ false
    → row_is_active t ≡ false
unfolding to_task_v2
inactive t task e h = ground arith

module _ (next : EventHook) (additive : IsAdditive next) (now id : ℕ) (positive : id ≢ 0) where
  kept :
      (task_id : ℕ) (t : TaskRow) (task : TaskV2)
      → is_active task.status_v2 ≡ false
      → (task_id ≡ id → some task ≡ some (to_task_v2 t))
      → t ≡ put_back (task_id == id) now t
  kept task_id t task idle same = elim (Bool-cases (task_id == id)) [
    | inl this ↦
        let still = inactive t task (same ((==_iff task_id id).0 this)) idle in
        ground (arith, this, still)
    | inr other ↦ rw other refl
  ]

  -- A task that is read for another one, or not at all, is not changed.
  requeue_task-put_back :
      (db : Db) (task_id : ℕ) (t : TaskRow) (o : Option TaskV2)
      → find_task id db.tasks ≡ some t
      → (task_id ≡ id → o ≡ some (to_task_v2 t))
      → find_task id (requeue_task next db task_id now o).tasks
        ≡ some (put_back (task_id == id) now t)
  requeue_task-put_back db task_id t none e same = elim (Bool-cases (task_id == id)) [
    | inl this ↦ cc (same ((==_iff task_id id).0 this))
    | inr other ↦ rw other e
  ]
  requeue_task-put_back db task_id t (some task) e same =
      elim (Bool-cases (is_active task.status_v2)) [
        | inl active ↦
            rw (active, requeue_task)
              ((create_event-Extends next additive
                  (update_task task_id row_is_active (queued_row now) db) task.project_id
                  "task.requeued" "task" (decimal task_id)
                  (("task_id", num task_id) ∷ ("trigger", text "lease.expired") ∷ []) now
                  refl).tasks
                id _ (update-put_back next additive now id db task_id t e))
        | inr idle ↦ rw (idle, requeue_task) (e ∙ ap some (kept task_id t task idle same))
      ]

  requeue_num-put_back :
      (n : ℕ) (db : Db) (t : TaskRow)
      → find_task id db.tasks ≡ some t
      → find_task id (requeue_for next db now (parse_event_task_id (decimal n))).tasks
        ≡ some (put_back (n == id) now t)
  requeue_num-put_back zero db t e =
      let other : (0 == id) ≡ false = ground (arith, positive) in rw other e
  requeue_num-put_back (suc m) db t e =
      requeue_task-put_back db (suc m) t (get_task_v2 db (suc m)) e
        (λ same. rw same (get_task_v2-found db id t e))

abbrev of_id : ℕ → List Lease → Bool
of_id id ls = any (λ l. l.task_id == id) ls

module _ (cfg : Config) (fuel now id : ℕ) (positive : id ≢ 0) where
  -- The worker, and then the rules, which change no task that is there.
  worker-put_back :
      (db : Db) (l : Lease) (t : TaskRow)
      → find_task id db.tasks ≡ some t
      → find_task id
          (emit_lease_event
            (server_hook cfg (suc fuel))
            db
            "lease.expired"
            l
            (("reason", text "expired") ∷ [])
            now).tasks
        ≡ some (put_back (l.task_id == id) now t)
  unfolding emit_lease_event create_event server_hook process_automation_event system_worker
      process_lease_expired_event lookup task_id_from_payload
  worker-put_back db l t e = (process_rules-Extends cfg fuel _ _).tasks id _ (
      requeue_num-put_back (server_hook cfg fuel) (server_hook-IsAdditive cfg fuel) now id positive
        l.task_id (log_event db _) t e)

  emit_expired-put_back :
      (ls : List Lease) (db : Db) (t : TaskRow)
      → find_task id db.tasks ≡ some t
      → find_task id (emit_expired (server_hook cfg (suc fuel)) db ls now).tasks
        ≡ some (put_back (of_id id ls) now t)
  unfolding emit_expired
  emit_expired-put_back [] db t e = e
  emit_expired-put_back (l ∷ ls) db t e =
      emit_expired-put_back ls
        (emit_lease_event (server_hook cfg (suc fuel)) db "lease.expired" l
          (("reason", text "expired") ∷ []) now)
        (put_back (l.task_id == id) now t) (worker-put_back db l t e)
      ∙ rw
          (put_back_twice (server_hook cfg fuel) (server_hook-IsAdditive cfg fuel) now id
            (l.task_id == id) (of_id id ls) t)
          refl

abandoned_same : (gone : List Lease) (t : TaskRow) → (requeue_abandoned gone t).id ≡ t.id
unfolding requeue_abandoned
abandoned_same gone t = ground arith

find_task-abandoned :
    (gone : List Lease) (id : ℕ) (ts : List TaskRow) (t : TaskRow)
    → find_task id ts ≡ some t
    → find_task id (map (requeue_abandoned gone) ts) ≡ some (requeue_abandoned gone t)
unfolding find_task
find_task-abandoned gone id [] t e = cc
find_task-abandoned gone id (x ∷ xs) t e = elim (Bool-cases (x.id == id)) [
  | inl same ↦
      let here : some x ≡ some t = rw same at e in
      let this : x ≡ t = cc here in
      let test : ((requeue_abandoned gone x).id == id) ≡ true = rw (abandoned_same gone x) same in
      rw test (ap (λ u. some (requeue_abandoned gone u)) this)
  | inr other ↦
      let there : find_task id xs ≡ some t = rw other at e in
      let test : ((requeue_abandoned gone x).id == id) ≡ false = rw (abandoned_same gone x) other in
      rw test (find_task-abandoned gone id xs t there)
]

put_back-abandoned :
    (gone : List Lease) (now : ℕ) (t : TaskRow)
    → row_is_active t ≡ true
    → put_back true now (requeue_abandoned gone t) ≡ queued_row now t
unfolding requeue_abandoned
put_back-abandoned gone now t h = ground arith

-- With the server's hook, for every configuration: the cleanup of leases makes a task that is CLAIMED or
-- RUNNING and whose lease has expired NOT_PICKED and QUEUED again. Its number is positive.
pub cleanup_requeues :
    (cfg : Config) (db : Db) (now id : ℕ) (t : TaskRow)
    → id ≢ 0
    → find_task id db.tasks ≡ some t
    → row_is_active t ≡ true
    → any (λ l. l.task_id == id) (keep (expired now) db.leases) ≡ true
    → find_task id (delete_expired_leases (server_hook cfg 3) db now).0.tasks
      ≡ some (queued_row now t)
unfolding delete_expired_leases cleanup_tx
cleanup_requeues cfg db now id t positive found active gone =
    emit_expired-put_back cfg 2 now id positive (keep (expired now) db.leases) (cleanup_tx db now)
      (requeue_abandoned (keep (expired now) db.leases) t)
      (find_task-abandoned (keep (expired now) db.leases) id db.tasks t found)
    ∙ rw (gone, put_back-abandoned (keep (expired now) db.leases) now t active) refl
