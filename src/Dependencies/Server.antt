-- ===== src/Dependencies/Server.antt =====
-- The server's automation and the dependencies.
use cocopilot.Prelude.{ℕ, ◌+◌, ◌≡◌, refl, Bool, arith}
use cocopilot.Prelude.Int.{pos_part}
use cocopilot.Dbstore.{Db, TaskRow}
use cocopilot.Dbstore.Tasks.{update_task, set_task_automation_depth, always}
use cocopilot.Dbstore.Creation.{insert_task}
use cocopilot.Dbstore.Ids.{next_id-append_old, next_id-update_task}
use cocopilot.Requeue.{row_is_active, queued_row}
use cocopilot.Automation.{Config}
use cocopilot.Automation.Workers.{max_follow_up_depth}
use cocopilot.Automation.Hook.{server_hook}
use cocopilot.Automation.Keeps.{IsClosed}
use cocopilot.Automation.Promises.{server_hook-P}
use cocopilot.Dependencies.Later.{Since, Since-refl, Later-Since, KeepsDependencies}

insert_task-Since : (db : Db) (row : TaskRow) → Since db (insert_task db row)
insert_task-Since db row = record { dependencies = refl; ids = next_id-append_old db.tasks row }

update_task-Since :
    (id : ℕ) (guard : TaskRow → Bool) (change : TaskRow → TaskRow)
    → ((t : TaskRow) → (change t).id ≡ t.id)
    → (db : Db) → Since db (update_task id guard change db)
unfolding update_task
update_task-Since id guard change keeps db =
    let same = next_id-update_task id guard change keeps db in
    record { dependencies = refl; ids = omega arith }

set_task_automation_depth-Since :
    (db : Db) (id depth : ℕ) → Since db (set_task_automation_depth db id depth)
unfolding set_task_automation_depth
set_task_automation_depth-Since db id depth =
    update_task-Since id always (λ t. record t { automation_depth = depth }) (λ t. refl) db

Since-IsClosed : (db0 : Db) (limit : ℕ) → IsClosed (Since db0) limit
Since-IsClosed db0 limit = record {
  logged = λ db e h. record { dependencies = h.dependencies; ids = h.ids };
  emitted = λ db es h. record { dependencies = h.dependencies; ids = h.ids };
  remembered = λ db ms h. record { dependencies = h.dependencies; ids = h.ids };
  limited = λ db l h. record { dependencies = h.dependencies; ids = h.ids };
  tripped = λ db c h. record { dependencies = h.dependencies; ids = h.ids };
  created = λ db row new flat h. Later-Since h (insert_task-Since db row);
  deepened = λ db row depth new flat low h.
      Later-Since (Later-Since h (insert_task-Since db row))
        (set_task_automation_depth-Since (insert_task db row) row.id depth);
}

pub server_hook-KeepsDependencies :
    (cfg : Config) (fuel : ℕ) → KeepsDependencies (server_hook cfg fuel)
server_hook-KeepsDependencies cfg fuel db e =
    let limit = pos_part cfg.max_depth + max_follow_up_depth in
    server_hook-P cfg (Since db) limit (Since-IsClosed db limit) (omega arith) (omega arith) fuel db
      e (λ id. update_task-Since id row_is_active (queued_row e.created_at) (λ t. refl) db)
      (Since-refl db)
