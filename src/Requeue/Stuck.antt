-- ===== src/Requeue/Stuck.antt =====
-- The requeueing puts back exactly the stuck tasks.
use cocopilot.Prelude.{
  ℕ, ◌≡◌, refl, ap, ◌∙◌, inl, inr, Bool, true, false, ◌&&◌, ◌||◌, some, List, [], ◌∷◌, arith, any,
  keep, ◌==◌, if◌then◌else◌, Bool-cases, ==_iff,
}
use mathlib.Core.Option
use cocopilot.Dbstore.{Db, TaskRow, EventHook, find_task, decimal, num, text}
use cocopilot.Dbstore.Tasks.{update_task}
use cocopilot.Dbstore.Rows.{find_task-update_task}
use cocopilot.Finish.{affects}
use cocopilot.Finish.Keeps.{IsAdditive, create_event-Extends}
use cocopilot.Requeue.{
  row_is_active, is_stuck, detect_stuck_tasks, queued_row, requeue_one, requeue_all,
  requeue_stuck_tasks,
}

abbrev has_id : ℕ → List TaskRow → Bool
has_id id ts = any (λ t. t.id == id) ts

-- A row that is put back if it is still active.
abbrev pub put_back : Bool → ℕ → TaskRow → TaskRow
put_back b now t = if b && row_is_active t then queued_row now t else t

==_comm : (a b : ℕ) → (a == b) ≡ (b == a)
==_comm a b = ground arith

module _ (hook : EventHook) (additive : IsAdditive hook) (now id : ℕ) where
  chosen :
      (b : Bool) (t : TaskRow)
      → (if b
          then Option.map (λ u. if row_is_active u then queued_row now u else u) (some t)
          else some t)
        ≡ some (put_back b now t)
  chosen true t = refl
  chosen false t = refl

  pub update-put_back :
      (db : Db) (task_id : ℕ) (t : TaskRow)
      → find_task id db.tasks ≡ some t
      → find_task id (update_task task_id row_is_active (queued_row now) db).tasks
        ≡ some (put_back (task_id == id) now t)
  update-put_back db task_id t e =
      find_task-update_task task_id row_is_active (queued_row now) (λ u. refl) id db
      ∙ rw (e, ==_comm id task_id) (chosen (task_id == id) t)

  requeue_one-put_back :
      (db : Db) (st t : TaskRow)
      → find_task id db.tasks ≡ some t
      → find_task id (requeue_one hook db st now).0.tasks ≡ some (put_back (st.id == id) now t)
  unfolding requeue_one
  requeue_one-put_back db st t e = elim (Bool-cases (affects st.id row_is_active db)) [
    | inl some_row ↦
        rw (some_row, requeue_one)
          ((create_event-Extends hook additive (update_task st.id row_is_active (queued_row now) db)
              st.project_id "task.stalled" "task" (decimal st.id)
              (("task_id", num st.id) ∷ ("action", text "requeued") ∷ []) now refl).tasks
            id _ (update-put_back db st.id t e))
    | inr no_row ↦ rw (no_row, requeue_one) (update-put_back db st.id t e)
  ]

  pub put_back_twice :
      (b c : Bool) (t : TaskRow) → put_back c now (put_back b now t) ≡ put_back (b || c) now t
  put_back_twice b c t = ground arith

  requeue_all-put_back :
      (sts : List TaskRow) (db : Db) (t : TaskRow) (n : ℕ)
      → find_task id db.tasks ≡ some t
      → find_task id (requeue_all hook db sts now n).0.tasks ≡ some (put_back (has_id id sts) now t)
  unfolding requeue_all
  requeue_all-put_back [] db t n e = e
  requeue_all-put_back (st ∷ sts) db t n e =
      requeue_all-put_back sts (requeue_one hook db st now).0 (put_back (st.id == id) now t) _
        (requeue_one-put_back db st t e)
      ∙ rw (put_back_twice (st.id == id) (has_id id sts) t) refl

-- The rows have different identifiers, as the primary key makes sure.
abbrev pub UniqueIds : List TaskRow → Type 0
UniqueIds [] = Unit {0}
UniqueIds (t ∷ ts) = (has_id t.id ts ≡ false) × UniqueIds ts

has_id-keep :
    (p : TaskRow → Bool) (id : ℕ) (ts : List TaskRow)
    → has_id id ts ≡ false
    → has_id id (keep p ts) ≡ false
has_id-keep p id [] h = refl
has_id-keep p id (t ∷ ts) h = ground (arith, has_id-keep p id ts)

has_id-head :
    (p : TaskRow → Bool) (id : ℕ) (x : TaskRow) (xs : List TaskRow)
    → (x.id == id) ≡ true
    → UniqueIds (x ∷ xs)
    → has_id id (keep p (x ∷ xs)) ≡ p x
has_id-head p id x xs same u =
    let fresh : has_id id (keep p xs) ≡ false =
      has_id-keep p id xs (rw ((==_iff x.id id).0 same) at (u.0)) in
    ground (arith, fresh)

has_id-skip :
    (p : TaskRow → Bool) (id : ℕ) (x : TaskRow) (xs : List TaskRow)
    → (x.id == id) ≡ false
    → has_id id (keep p (x ∷ xs)) ≡ has_id id (keep p xs)
has_id-skip p id x xs other = ground arith

-- Whether the row with an identifier passes is whether the identifier is among those that pass.
has_id-found :
    (p : TaskRow → Bool) (id : ℕ) (ts : List TaskRow) (t : TaskRow)
    → UniqueIds ts
    → find_task id ts ≡ some t
    → has_id id (keep p ts) ≡ p t
unfolding find_task
has_id-found p id [] t u e = cc
has_id-found p id (x ∷ xs) t u e = elim (Bool-cases (x.id == id)) [
  | inl same ↦
      let here : some x ≡ some t = rw same at e in has_id-head p id x xs same u ∙ ap p (cc here)
  | inr other ↦
      let there : find_task id xs ≡ some t = rw other at e in
      has_id-skip p id x xs other ∙ has_id-found p id xs t u.1 there
]

stuck_active :
    (db : Db) (threshold now : ℕ) (t : TaskRow)
    → (is_stuck db threshold now t && row_is_active t) ≡ is_stuck db threshold now t
unfolding is_stuck
stuck_active db threshold now t = ground arith

-- Given an additive event hook and tasks with different identifiers: after the requeueing a task that
-- was CLAIMED or RUNNING, unchanged since before the threshold and without an active lease is
-- NOT_PICKED and QUEUED, and every other task is as it was.
pub requeue_stuck_tasks-rows :
    (hook : EventHook)
    → IsAdditive hook
    → (db : Db) (threshold now id : ℕ) (t : TaskRow) → UniqueIds db.tasks
    → find_task id db.tasks ≡ some t
    → find_task id (requeue_stuck_tasks hook db threshold now).0.tasks
      ≡ some (if is_stuck db threshold now t then queued_row now t else t)
unfolding requeue_stuck_tasks detect_stuck_tasks
requeue_stuck_tasks-rows hook additive db threshold now id t u e =
    requeue_all-put_back hook additive now id (keep (is_stuck db threshold now) db.tasks) db t 0 e
    ∙ rw
        (
          has_id-found (is_stuck db threshold now) id db.tasks t u e,
          stuck_active db threshold now t,
        )
        refl
