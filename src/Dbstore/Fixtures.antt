-- ===== src/Dbstore/Fixtures.antt =====
-- Small databases for the runs at concrete values.
use cocopilot.Prelude.{ℕ, false, none, List, [], ◌∷◌}
use cocopilot.Prelude.Int.{pos}
use cocopilot.Models.{TaskStatus}
use cocopilot.Dbstore.{Db, EventHook, TaskRow}

abbrev pub row : ℕ → TaskStatus → TaskRow
row id status = record {
  id = id;
  project_id = "p";
  title = none;
  instructions = "do";
  task_type = none;
  priority = pos 0;
  tags = [];
  status = status;
  status_v2 = none;
  parent_task_id = none;
  output = none;
  created_at = 0;
  updated_at = none;
  automation_depth = 0;
  requires_approval = false;
  approval_status = none;
  loop_anchor_prompt = none;
}

abbrev pub db_of : List TaskRow → Db
db_of ts = record {
  tasks = ts;
  leases = [];
  runs = [];
  events = [];
  task_dependencies = [];
  automation_emissions = [];
  memories = [];
  run_summaries = [];
  limiter = [];
  circuit = none;
}

abbrev pub two_tasks : Db
two_tasks = db_of (row 1 TaskStatus.not_picked ∷ row 2 TaskStatus.complete ∷ [])

-- No server: the hook is not set.
abbrev pub no_hook : EventHook
no_hook db e = db
