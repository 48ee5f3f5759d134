-- ===== src/Finalization/Extraction.antt =====
-- server/finalization.go: the memories that a completion or a failure leaves. A confidence is in
-- percent; the clock is read once. Errors of the table of memories are left out.
use cocopilot.Prelude.{
  ℕ, ◌+◌, String, Bool, true, false, ◌&&◌, Option, none, some, List, [], ◌∷◌, ◌++◌, any, str_eq,
  ltb, if◌then◌else◌, length,
}
use Prim.Native.String
use cocopilot.Prelude.Dict.{Dict, lookup}
use cocopilot.Prelude.Text.{contains, to_lower, decimal_text}
use cocopilot.Models.{RunStatus}
use cocopilot.Dbstore.{
  Db, Memory, Value, num, text, texts, flag, stamp, percent, CompletionRunSummary,
}
use cocopilot.Dbstore.Memories.{create_memory, get_memory}
use cocopilot.Finalization.{CompletionPayload, Library}
use cocopilot.Finalization.Redaction.{redact_secrets}

-- MemoryCandidate, without its references
pub record MemoryCandidate : Type 0 where
  pub scope : String
  pub key : String
  pub confidence : ℕ
  pub value : Dict Value

abbrev summary_of : String → ℕ → ℕ → String → Option CompletionPayload → CompletionRunSummary
summary_of run_id task_id now output none = record {
  run_id = run_id;
  task_id = task_id;
  status = RunStatus.succeeded;
  summary = output;
  changes_made = [];
  files_touched = [];
  commands_run = [];
  tests_run = [];
  risks = [];
  created_at = now;
}
summary_of run_id task_id now output (some payload) = record {
  run_id = run_id;
  task_id = task_id;
  status = RunStatus.succeeded;
  summary = payload.summary;
  changes_made = payload.changes_made;
  files_touched = payload.files_touched;
  commands_run = payload.commands_run;
  tests_run = payload.tests_run;
  risks = payload.risks;
  created_at = now;
}

-- extractSummaryFromCompletion
unfoldable pub extract_summary_from_completion :
    Library → String → ℕ → Option String → ℕ → Option CompletionRunSummary
extract_summary_from_completion lib run_id task_id none now = none
extract_summary_from_completion lib run_id task_id (some output) now =
    if str_eq output ""
    then none
    else some (summary_of run_id task_id now output (lib.decode output))

-- storeSummary
unfoldable pub store_summary : Db → CompletionRunSummary → Db
store_summary db summary = record db { run_summaries = db.run_summaries ++ summary ∷ [] }

abbrev list_entry : String → List String → Dict Value
list_entry key [] = []
list_entry key (s ∷ ss) = (key, texts (s ∷ ss)) ∷ []

abbrev pub is_listed : List String → Bool
is_listed [] = false
is_listed (s ∷ ss) = true

abbrev base_value : String → ℕ → CompletionRunSummary → Dict Value
base_value cleaned task_id summary =
    ("summary", text cleaned)
    ∷ ("task_id", num task_id)
    ∷ ("run_id", text summary.run_id)
    ∷ ("changes_count", num (length summary.changes_made))
    ∷ ("files_touched", num (length summary.files_touched))
    ∷ ("has_risks", flag (is_listed summary.risks))
    ∷ ("timestamp", stamp summary.created_at)
    ∷ (list_entry "changes" summary.changes_made
        ++ (list_entry "files" summary.files_touched ++ list_entry "risks" summary.risks))

abbrev candidate_if : Bool → MemoryCandidate → List MemoryCandidate
candidate_if true c = c ∷ []
candidate_if false c = []

-- extractMemoryCandidates
unfoldable pub extract_memory_candidates : String → ℕ → CompletionRunSummary → List MemoryCandidate
extract_memory_candidates cleaned task_id summary =
    let lower = to_lower cleaned in
    let says = λ (words : List String). any (contains lower) words in
    let value = base_value cleaned task_id summary in
    let id = decimal_text task_id in
    candidate_if (says ("fixed" ∷ "resolved" ∷ "patched" ∷ "corrected" ∷ "bug" ∷ [])) (record {
      scope = "fix_pattern";
      key = String.◌++◌ "fix_" id;
      confidence = if is_listed summary.changes_made then 85 else 70;
      value = value;
    })
    ++ (candidate_if (says ("convention" ∷ "pattern" ∷ "style" ∷ "naming" ∷ "standard" ∷ []))
          (record {
            scope = "convention";
            key = String.◌++◌ "convention_" id;
            confidence = 60;
            value = value;
          })
        ++ (candidate_if
              (says ("constraint" ∷ "policy" ∷ "must not" ∷ "required" ∷ "forbidden" ∷ []))
              (record {
                scope = "constraint";
                key = String.◌++◌ "constraint_" id;
                confidence = 80;
                value = value;
              })
            ++ (candidate_if (says ("failure" ∷ "error" ∷ "failed" ∷ []) && is_listed summary.risks)
                  (record {
                    scope = "failure_pattern";
                    key = String.◌++◌ "failure_insight_" id;
                    confidence = 65;
                    value = value;
                  })
                ++ record {
                  scope = "completion";
                  key = String.◌++◌ "task_" (String.◌++◌ id "_completion");
                  confidence = 40;
                  value = value;
                }
                  ∷ [])))

-- sort.SliceStable by falling confidence
abbrev insert_candidate : MemoryCandidate → List MemoryCandidate → List MemoryCandidate
insert_candidate c [] = c ∷ []
insert_candidate c (d ∷ ds) =
    let rest = insert_candidate c ds in
    if ltb c.confidence d.confidence then d ∷ rest else c ∷ d ∷ ds

unfoldable pub sort_candidates : List MemoryCandidate → List MemoryCandidate
sort_candidates [] = []
sort_candidates (c ∷ cs) = insert_candidate c (sort_candidates cs)

abbrev text_of : Option Value → String
text_of (some (text s)) = s
text_of _ = ""

-- The verb %v on a value that may be a number.
abbrev shown : Option Value → String
shown (some (num n)) = decimal_text n
shown _ = "<nil>"

-- memoryContentHash
unfoldable pub memory_content_hash : Library → Dict Value → String
memory_content_hash lib value = lib.digest (
    String.◌++◌ (text_of (lookup "summary" value)) (
      String.◌++◌ ":" (
        String.◌++◌ (shown (lookup "changes_count" value))
          (String.◌++◌ ":" (shown (lookup "files_touched" value))))))

abbrev has_hash : String → Option Value → Bool
has_hash hash (some (text h)) = str_eq h hash
has_hash hash _ = false

-- isDuplicateMemory
unfoldable pub is_duplicate_memory : Db → String → String → String → Bool
is_duplicate_memory db project_id scope content_hash =
    any
      (λ m.
        str_eq m.project_id project_id
        && str_eq m.scope scope
        && has_hash content_hash (lookup "content_hash" m.value))
      db.memories

-- 24 hours, in microseconds
abbrev day : ℕ
day = 86400000000

-- Whether a memory was changed within the last day.
abbrev pub is_recent : ℕ → Option Memory → Bool
is_recent now none = false
is_recent now (some m) = ltb now (m.updated_at + day)

-- The body of the loop over the candidates.
unfoldable pub store_candidate : Library → Db → String → ℕ → MemoryCandidate → Db
unfolding is_duplicate_memory create_memory get_memory
store_candidate lib db project_id now c =
    let hash = memory_content_hash lib c.value in
    if is_duplicate_memory db project_id c.scope hash
    then db
    else if is_recent now (get_memory db project_id c.scope c.key)
    then db
    else create_memory db project_id c.scope c.key
        (c.value ++ ("content_hash", text hash) ∷ ("confidence", percent c.confidence) ∷ []) now

unfoldable pub store_candidates : Library → Db → String → ℕ → List MemoryCandidate → Db
unfolding store_candidate
store_candidates lib db project_id now [] = db
store_candidates lib db project_id now (c ∷ cs) =
    store_candidates lib (store_candidate lib db project_id now c) project_id now cs

-- createMemoryFromSummary
unfoldable pub create_memory_from_summary :
    Library → Db → String → ℕ → CompletionRunSummary → ℕ → Db
unfolding store_candidates
create_memory_from_summary lib db project_id task_id summary now =
    if str_eq summary.summary ""
    then db
    else store_candidates lib db project_id now (
        sort_candidates
          (extract_memory_candidates (redact_secrets summary.summary) task_id summary))

-- classifyErrorKey
unfoldable pub classify_error_key : String → String
classify_error_key err_msg =
    let lower = to_lower err_msg in
    let says = λ (words : List String). any (contains lower) words in
    if says ("timeout" ∷ [])
    then "timeout"
    else if says ("permission" ∷ "forbidden" ∷ "unauthorized" ∷ [])
    then "permission"
    else if says ("not found" ∷ "404" ∷ [])
    then "not_found"
    else if says ("compile" ∷ "syntax" ∷ "parse" ∷ [])
    then "compile_error"
    else if says ("test" ∷ "assert" ∷ [])
    then "test_failure"
    else if says ("network" ∷ "connection" ∷ [])
    then "network"
    else "general"

-- createMemoryFromFailure
unfoldable pub create_memory_from_failure : Db → String → ℕ → String → ℕ → Db
unfolding create_memory get_memory
create_memory_from_failure db project_id task_id err_msg now =
    let cleaned = redact_secrets err_msg in
    let key = String.◌++◌ "failure_" (classify_error_key cleaned) in
    if str_eq err_msg ""
    then db
    else if is_recent now (get_memory db project_id "failure_pattern" key)
    then db
    else create_memory db project_id "failure_pattern" key
        (("error", text cleaned) ∷ ("task_id", num task_id) ∷ ("timestamp", stamp now) ∷ []) now
