-- ===== src/Finalization/Examples.antt =====
-- A task that is completed with a structured output, and texts with secrets in them.
use Prim.Native.String
use cocopilot.Prelude.{◌≡◌, refl, none, some, [], ◌∷◌}
use cocopilot.Models.{TaskStatus, TaskStatusV2, RunStatus}
use cocopilot.Dbstore.{Db, TaskRow, EventHook, ok, find_task}
use cocopilot.Dbstore.Tasks.{to_task_v2}
use cocopilot.Dbstore.Runs.{get_latest_run}
use cocopilot.Dbstore.Fixtures.{row, db_of}
use cocopilot.Finish.{any_run, completed_row}
use cocopilot.Finish.Settled.{IsSettled}
use cocopilot.Automation.Hook.{server_hook}
use cocopilot.Automation.Promises.{server_hook-IsAdditive}
use cocopilot.Automation.Examples.{settings}
use cocopilot.Finalization.{Library}
use cocopilot.Prelude.Text.{split_first}
use cocopilot.Finalization.Redaction.{redact_secrets, redact_pattern, is_delimiter}
use cocopilot.Finalization.Paths.{complete_task_with_payload}
use cocopilot.Finalization.Settled.{task_in, summary_from, complete_with_payload_settles}
use cocopilot.Finalization.Hidden.{redact_pattern-hides}

abbrev lib : Library
lib = record {
  decode = λ s. some (record {
    summary = s;
    changes_made = "a" ∷ [];
    files_touched = "f" ∷ [];
    commands_run = [];
    tests_run = [];
    risks = [];
  });
  digest = λ s. s;
}

abbrev running : TaskRow
running = record (row 1 TaskStatus.in_progress) { status_v2 = some TaskStatusV2.running }

abbrev at_work : Db
at_work = record (db_of (running ∷ [])) {
  runs =
      record {
        id = "r";
        task_id = 1;
        agent_id = "a";
        status = RunStatus.running;
        started_at = 1;
        finished_at = none;
        error = none;
      }
      ∷ [];
}

abbrev hook : EventHook
hook = server_hook (settings []) 3

redacted :
    redact_secrets "key sk-abc, postgres://u:pw@h Bearer xyz"
    ≡ "key sk-[REDACTED], postgres://u:[REDACTED]@h Bearer [REDACTED]"
unfolding redact_secrets is_delimiter
redacted = refl

-- Only the first URL of a scheme loses its password.
second_url_leaks : redact_secrets "http://u:a@h http://u:b@h" ≡ "http://u:[REDACTED]@h http://u:b@h"
unfolding redact_secrets is_delimiter
second_url_leaks = refl

redact_pattern-hides_example :
    redact_pattern "sk-" "sk-[REDACTED]" "key sk-abc, ok"
    ≡ String.◌++◌ "key " (String.◌++◌ "sk-[REDACTED]" (redact_pattern "sk-" "sk-[REDACTED]" ", ok"))
unfolding split_first is_delimiter
redact_pattern-hides_example =
    redact_pattern-hides "s" "k-" "sk-[REDACTED]" "key " "abc" ", ok" refl refl refl

complete_with_payload_settles_example :
    let r = complete_task_with_payload lib hook at_work 1 (some "fixed") 9 in
    let done = completed_row (some "fixed") 9 running in
    (r.1 ≡ ok (to_task_v2 done, summary_from lib 1 (some "fixed") 9 (get_latest_run at_work 1)))
    × IsSettled any_run RunStatus.succeeded none 9 1 done at_work (r.0, task_in r.1)
unfolding find_task
complete_with_payload_settles_example =
    complete_with_payload_settles hook (server_hook-IsAdditive (settings []) 3) at_work 1 9 running
      refl lib (some "fixed") refl
