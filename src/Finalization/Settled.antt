-- ===== src/Finalization/Settled.antt =====
-- What a task, its latest run and its lease are after CompleteTaskWithPayload and FailTaskWithError.
use Prim.Native.String
use cocopilot.Prelude.{
  ℕ, ◌≡◌, refl, ◌∙◌, ap, true, Option, none, some, List, [], ◌∷◌, String, str_eq, if◌then◌else◌,
  if_P,
}
use cocopilot.Prelude.Dict.{Dict}
use cocopilot.Models.{RunStatus}
use cocopilot.Dbstore.{
  Db, TaskRow, Run, EventHook, Value, decimal, Result, ok, err, find_task, CompletionRunSummary,
}
use cocopilot.Dbstore.Tasks.{TaskV2, to_task_v2, update_task}
use cocopilot.Dbstore.Runs.{get_latest_run, update_run_status}
use cocopilot.Finish.{
  not_settled, completed_row, failed_row, affects, any_run, finish_latest, release_current,
}
use cocopilot.Finish.Keeps.{IsAdditive, Extends, Extends-refl, create_event-Extends}
use cocopilot.Finish.Steps.{
  RunEnded, Released, finish_found-RunEnded, finish_latest-RunEnded, release_current-Released,
  get_lease-leases,
}
use cocopilot.Finish.Settled.{
  IsSettled, get_task_v2-found, after_update, updated, affects-found, get_latest_run-runs,
}
use cocopilot.Dbstore.Memories.{create_memory, get_memory}
use cocopilot.Finalization.Redaction.{redact_secrets}
use cocopilot.Finalization.{Library}
use cocopilot.Finalization.Extraction.{
  MemoryCandidate, sort_candidates, extract_memory_candidates, classify_error_key,
  extract_summary_from_completion, store_summary, store_candidate, store_candidates,
  create_memory_from_summary, create_memory_from_failure, is_duplicate_memory, memory_content_hash,
  is_recent,
}
use cocopilot.Finalization.Paths.{
  is_open, store_found, finish_run_with, remember, tell_touched, tell_files, announce_completed,
  complete_updated, complete_task_with_payload, fail_task_with_error,
}

Extends-trans : {a b c : Db} → Extends a b → Extends b c → Extends a c
Extends-trans h k = record {
  leases = k.leases ∙ h.leases;
  runs = k.runs ∙ h.runs;
  tasks = λ id t e. k.tasks id t (h.tasks id t e);
}

-- Memories are no tasks, leases or runs.
create_memory-Extends :
    (db : Db) (project scope key : String) (value : Dict Value) (now : ℕ)
    → Extends db (create_memory db project scope key value now)
unfolding create_memory
create_memory-Extends db project scope key value now = record {
  leases = refl;
  runs = refl;
  tasks = λ id t h. h;
}

store_candidates-Extends :
    (lib : Library) (db : Db) (project : String) (now : ℕ) (cs : List MemoryCandidate)
    → Extends db (store_candidates lib db project now cs)
unfolding store_candidates store_candidate
store_candidates-Extends lib db project now [] = Extends-refl db
store_candidates-Extends lib db project now (c ∷ cs) =
    let hash = memory_content_hash lib c.value in
    let one : Extends db (store_candidate lib db project now c) =
      if_P (Extends db) (is_duplicate_memory db project c.scope hash) _ _ (λ _. Extends-refl db)
        (λ _.
          if_P (Extends db) (is_recent now (get_memory db project c.scope c.key)) _ _
            (λ _. Extends-refl db) (λ _. create_memory-Extends db _ _ _ _ now)) in
    Extends-trans one
      (store_candidates-Extends lib (store_candidate lib db project now c) project now cs)

remember-Extends :
    (lib : Library) (db : Db) (project : String) (task_id now : ℕ) (o : Option CompletionRunSummary)
    → Extends db (remember lib db project task_id now o)
unfolding create_memory_from_summary
remember-Extends lib db project task_id now none = Extends-refl db
remember-Extends lib db project task_id now (some summary) =
    if_P (Extends db) (str_eq summary.summary "") _ _ (λ _. Extends-refl db)
      (λ _. store_candidates-Extends lib db project now (
        sort_candidates
          (extract_memory_candidates (redact_secrets summary.summary) task_id summary)))

create_memory_from_failure-Extends :
    (db : Db) (project : String) (task_id : ℕ) (message : String) (now : ℕ)
    → Extends db (create_memory_from_failure db project task_id message now)
unfolding create_memory_from_failure
create_memory_from_failure-Extends db project task_id message now =
    if_P (Extends db) (str_eq message "") _ _ (λ _. Extends-refl db)
      (λ _.
        if_P (Extends db)
          (is_recent now (
            get_memory db project "failure_pattern"
              (String.◌++◌ "failure_" (classify_error_key (redact_secrets message)))))
          _ _ (λ _. Extends-refl db) (λ _. create_memory-Extends db _ _ _ _ now))

tell_files-Extends :
    (hook : EventHook)
    → IsAdditive hook
    → (db : Db) (project : String) (task_id now : ℕ) (files : List String)
    → Extends db (tell_files hook db project task_id now files)
tell_files-Extends hook additive db project task_id now [] = Extends-refl db
tell_files-Extends hook additive db project task_id now (f ∷ fs) =
    create_event-Extends hook additive db _ _ _ _ _ now refl

tell_touched-Extends :
    (hook : EventHook)
    → IsAdditive hook
    → (db : Db) (project : String) (task_id now : ℕ) (o : Option CompletionRunSummary)
    → Extends db (tell_touched hook db project task_id now o)
tell_touched-Extends hook additive db project task_id now none = Extends-refl db
tell_touched-Extends hook additive db project task_id now (some summary) =
    tell_files-Extends hook additive db project task_id now summary.files_touched

-- What an output says of the latest run of a task.
abbrev pub summary_from : Library → ℕ → Option String → ℕ → Option Run → Option CompletionRunSummary
summary_from lib task_id output now none = none
summary_from lib task_id output now (some run) =
    extract_summary_from_completion lib run.id task_id output now

store_found-RunEnded :
    (status : RunStatus) (error : Option String) (now task_id : ℕ) (db db' : Db)
    → RunEnded any_run status error now task_id db db'
    → (o : Option CompletionRunSummary)
    → RunEnded any_run status error now task_id db (store_found db' o)
unfolding store_summary get_latest_run
store_found-RunEnded status error now task_id db db' h none = h
store_found-RunEnded status error now task_id db db' h (some summary) = record {
  leases = h.leases;
  latest_run = h.latest_run;
  tasks = h.tasks;
}

finish_run_with-RunEnded :
    (lib : Library) (hook : EventHook)
    → IsAdditive hook
    → (db : Db) (task_id : ℕ) (output : Option String) (now : ℕ) (o : Option Run)
    → get_latest_run db task_id ≡ o
    → RunEnded any_run RunStatus.succeeded none now task_id db
        (finish_run_with lib hook db task_id output now o).0
finish_run_with-RunEnded lib hook additive db task_id output now none e =
    finish_found-RunEnded hook additive any_run db task_id RunStatus.succeeded none now none e
finish_run_with-RunEnded lib hook additive db task_id output now (some run) e =
    store_found-RunEnded RunStatus.succeeded none now task_id db
      (update_run_status hook db run.id RunStatus.succeeded none now)
      (finish_found-RunEnded hook additive any_run db task_id RunStatus.succeeded none now
        (some run) e)
      (extract_summary_from_completion lib run.id task_id output now)

finish_run_with-summary :
    (lib : Library) (hook : EventHook) (db : Db) (task_id : ℕ) (output : Option String) (now : ℕ)
    (o : Option Run)
    → (finish_run_with lib hook db task_id output now o).1 ≡ summary_from lib task_id output now o
finish_run_with-summary lib hook db task_id output now none = refl
finish_run_with-summary lib hook db task_id output now (some run) = refl

-- The run ended, the lease was released, and nothing that came after touched either.
steps-IsSettled :
    (status : RunStatus) (error : Option String) (now task_id : ℕ) (t : TaskRow)
    (db db1 db2 after : Db)
    → RunEnded any_run status error now task_id db db1
    → Released task_id now db1 db2
    → Extends db2 after
    → find_task task_id db.tasks ≡ some t
    → IsSettled any_run status error now task_id t db (after, ok (to_task_v2 t))
steps-IsSettled status error now task_id t db db1 db2 after run lease later found = record {
  returned = refl;
  stored = later.tasks task_id t (lease.tasks task_id t (run.tasks task_id t found));
  others = λ id u other h. later.tasks id u (lease.tasks id u (run.tasks id u h));
  latest_run = get_latest_run-runs _ _ task_id (later.runs ∙ lease.runs) ∙ run.latest_run;
  unheld = λ h. get_lease-leases _ _ task_id now later.leases ∙ lease.unheld (rw run.leases h);
}

-- The task of a result, without the summary.
abbrev pub task_in : Result (TaskV2 × Option CompletionRunSummary) → Result TaskV2
task_in (ok (task, summary)) = ok task
task_in (err e) = err e

module _ (hook : EventHook) (additive : IsAdditive hook) (db : Db) (task_id now : ℕ) (t : TaskRow)
    (found : find_task task_id db.tasks ≡ some t) where
  -- The end of a completion, on the database whose row was updated.
  complete_updated-IsSettled :
      (lib : Library) (output : Option String)
      → let r = complete_updated lib hook db task_id output now in
        let summary = summary_from lib task_id output now (get_latest_run db task_id) in
        (after : Db) × (IsSettled any_run RunStatus.succeeded none now task_id t db
            (after, ok (to_task_v2 t))
          × (r ≡ (after, ok (to_task_v2 t, summary))))
  unfolding complete_updated
  complete_updated-IsSettled lib output =
      let finished = finish_run_with lib hook db task_id output now (get_latest_run db task_id) in
      let run =
        finish_run_with-RunEnded lib hook additive db task_id output now (get_latest_run db task_id)
          refl in
      let released = release_current hook finished.0 task_id "task_completed" now in
      let lease = release_current-Released hook additive finished.0 task_id "task_completed" now in
      let there = lease.tasks task_id t (run.tasks task_id t found) in
      let told =
        Extends-trans
          (remember-Extends lib released (to_task_v2 t).project_id task_id now finished.1)
          (create_event-Extends hook additive _ (to_task_v2 t).project_id "task.completed" "task"
            (decimal task_id) _ now refl) in
      let after =
        announce_completed lib hook released task_id output finished.1 now (some (to_task_v2 t)) in
      (
        after.0,
        (
          steps-IsSettled RunStatus.succeeded none now task_id t db finished.0 released after.0 run
              lease
              (Extends-trans told (
                tell_touched-Extends hook additive _ (to_task_v2 t).project_id task_id now
                  finished.1))
              found,
          ap (announce_completed lib hook released task_id output finished.1 now)
                (get_task_v2-found released task_id t there)
              ∙ ap (λ summary. (after.0, ok (to_task_v2 t, summary)))
                  (finish_run_with-summary lib hook db task_id output now
                    (get_latest_run db task_id)),
        ),
      )

module _ (hook : EventHook) (additive : IsAdditive hook) (db : Db) (task_id now : ℕ) (t : TaskRow)
    (found : find_task task_id db.tasks ≡ some t) where
  -- Given an additive event hook: completing a task that is neither COMPLETE nor FAILED and whose status v2
  -- is set and not CANCELLED stores its output with the statuses COMPLETE and SUCCEEDED and returns that
  -- row, with the summary of its latest run that is read from the output, if there is a run and an
  -- output. The latest run is the same and SUCCEEDED, and if the task had at most one lease it has no
  -- active one. No other task changes, whatever memories are stored and files are reported.
  pub complete_with_payload_settles :
      (lib : Library) (output : Option String)
      → is_open t ≡ true
      → let r = complete_task_with_payload lib hook db task_id output now in
        let row = completed_row output now t in
        (r.1 ≡ ok (to_task_v2 row, summary_from lib task_id output now (get_latest_run db task_id)))
        × IsSettled any_run RunStatus.succeeded none now task_id row db (r.0, task_in r.1)
  unfolding complete_task_with_payload affects update_task get_latest_run
  complete_with_payload_settles lib output unsettled =
      let row = completed_row output now t in
      let db' = update_task task_id is_open (completed_row output now) db in
      let (after, (settled, e)) =
        complete_updated-IsSettled hook additive db' task_id now row
          (updated is_open (completed_row output now) db task_id t (λ u. refl) found
            ∙ rw unsettled refl)
          lib output in
      rw (affects-found task_id is_open db.tasks t found unsettled) (
        rw e (
          refl,
          after_update is_open (completed_row output now) _ _ _ _ _ _ db _ (λ u. refl) settled,
        ))

  -- Given an additive event hook: FailTaskWithError changes the task's row only if it is neither COMPLETE
  -- nor FAILED, and returns the row. In every case the latest run becomes FAILED with the message, and
  -- the active lease is released.
  pub fail_with_error_settles :
      (message : String)
      → IsSettled any_run RunStatus.failed
          (some message)
          now
          task_id
          (if not_settled t then failed_row now t else t)
          db
          (fail_task_with_error hook db task_id message now)
  unfolding fail_task_with_error
  fail_with_error_settles message =
      let row = if not_settled t then failed_row now t else t in
      let db' = update_task task_id not_settled (failed_row now) db in
      let here = updated not_settled (failed_row now) db task_id t (λ u. refl) found in
      let db1 = finish_latest hook any_run db' task_id RunStatus.failed (some message) now in
      let run =
        finish_latest-RunEnded hook additive any_run db' task_id RunStatus.failed (some message)
          now in
      let db2 = release_current hook db1 task_id "task_failed" now in
      let lease = release_current-Released hook additive db1 task_id "task_failed" now in
      rw (get_task_v2-found db2 task_id row (lease.tasks task_id row (run.tasks task_id row here)))
        (after_update not_settled (failed_row now) _ _ _ _ _ _ db _ (λ u. refl)
          (steps-IsSettled RunStatus.failed (some message) now task_id row db' db1 db2 _ run lease
            (Extends-trans
              (create_memory_from_failure-Extends db2 (to_task_v2 row).project_id task_id message
                now)
              (create_event-Extends hook additive _ (to_task_v2 row).project_id "task.failed" "task"
                (decimal task_id) _ now refl))
            here))
