-- ===== src/Automation/Depth.antt =====
-- How deep the tasks get that the automation creates for tasks that it created.
use cocopilot.Prelude.{
  ℕ, ◌≤◌, Bool, List, [], ◌∷◌, ◌++◌, All, map, arith, if◌then◌else◌, ◌==◌, ◌&&◌,
}
use cocopilot.Prelude.Int.{pos_part}
use cocopilot.Dbstore.{Db, TaskRow, Event}
use cocopilot.Dbstore.Tasks.{update_task, set_task_automation_depth, always}
use cocopilot.Requeue.{row_is_active, queued_row}
use cocopilot.Automation.{Config}
use cocopilot.Automation.Hook.{server_hook}
use cocopilot.Automation.Keeps.{IsClosed}
use cocopilot.Automation.Promises.{server_hook-P}

module _ (limit : ℕ) where
  abbrev pub IsShallow : TaskRow → Type 0
  IsShallow t = t.automation_depth ≤ limit

  IsShallow-append :
      (ts : List TaskRow) (row : TaskRow)
      → All IsShallow ts
      → IsShallow row
      → All IsShallow (ts ++ row ∷ [])
  IsShallow-append [] row h r = (r, tt)
  IsShallow-append (t ∷ ts) row h r = (h.0, IsShallow-append ts row h.1 r)

  IsShallow-update :
      (id : ℕ) (guard : TaskRow → Bool) (change : TaskRow → TaskRow) (ts : List TaskRow)
      → ((t : TaskRow) → IsShallow t → IsShallow (change t))
      → All IsShallow ts
      → All IsShallow (map (λ t. if t.id == id && guard t then change t else t) ts)
  IsShallow-update id guard change [] keeps h = tt
  IsShallow-update id guard change (t ∷ ts) keeps h =
      (ground (arith, keeps t h.0), IsShallow-update id guard change ts keeps h.1)

  abbrev pub AllShallow : Db → Type 0
  AllShallow db = All IsShallow db.tasks

  AllShallow-IsClosed : IsClosed AllShallow limit
  unfolding set_task_automation_depth update_task
  AllShallow-IsClosed = record {
    logged = λ db e h. h;
    emitted = λ db es h. h;
    remembered = λ db ms h. h;
    limited = λ db l h. h;
    tripped = λ db c h. h;
    created = λ db row new flat h. IsShallow-append db.tasks row h (rw flat (omega arith));
    deepened = λ db row depth new flat low h.
        IsShallow-update row.id always (λ t. record t { automation_depth = depth })
          (db.tasks ++ row ∷ []) (λ t _. low)
          (IsShallow-append db.tasks row h (rw flat (omega arith)));
  }

-- For every configuration, and a limit that is neither below its maximal depth nor below three, the
-- maximal depth of follow-ups: if no task is deeper than the limit before an event, then none is after
-- it, whatever the event and the rules.
pub server_hook-AllShallow :
    (cfg : Config) (limit fuel : ℕ) (db : Db) (e : Event)
    → pos_part cfg.max_depth ≤ limit
    → 3 ≤ limit
    → AllShallow limit db
    → AllShallow limit (server_hook cfg fuel db e)
unfolding update_task
server_hook-AllShallow cfg limit fuel db e deep shallow h =
    server_hook-P cfg (AllShallow limit) limit (AllShallow-IsClosed limit) deep shallow fuel db e
      (λ id.
        IsShallow-update limit id row_is_active (queued_row e.created_at) db.tasks (λ t s. s) h)
      h
