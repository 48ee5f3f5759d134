-- ===== src/Policy.antt =====
-- internal/policy/policy.go: the evaluation of policies. A rule is the map that its JSON decodes to;
-- a number field is its integer part, which is all that the code uses of it. The parser of durations
-- and the time zones of Go's library are an argument. Texts are folded to lower case in ASCII. A
-- violation's message is kept as the values that are printed into it. The tracker and the database
-- are set, as in an engine of the server.
pub mod Evaluate
pub mod Rules
pub mod Hours
pub mod Quota
pub mod Rates
mod Examples
use Prim.Native.Char.{code}
use Prim.Native.String.{◌++◌ as str_append}
use cocopilot.Prelude.{
  ℕ, zero, suc, ◌+◌, String, Bool, true, false, not, ◌&&◌, ◌||◌, Option, none, some, List, [], ◌∷◌,
  ◌++◌, map, keep, any, length, ltb, leb, ◌==◌, str_eq, if◌then◌else◌,
}
use cocopilot.Prelude.Int.{ℤ, pos, negsuc}
use cocopilot.Prelude.Dict.{Dict, lookup, insert}
use cocopilot.Models.{TaskStatusV2, RunStatus, is_queued, is_active}
use cocopilot.Dbstore.{Db, TaskRow, Run}
use cocopilot.Dbstore.Leases.{expired}
use cocopilot.RateLimit.{in_window, pruned, or_empty, count_from}

-- What a rule uses of Go's library: time.ParseDuration, in nanoseconds and none if it fails or is not
-- positive, and the hour of a time in a named zone, none if there is no such zone.
pub record Library : Type 0 where
  pub parse_duration : String → Option ℕ
  pub hour_in : String → ℕ → Option ℕ

pub data Field : Type 0 where
  text : String → Field
  number : ℤ → Field
  texts : List String → Field
  other : Field

abbrev pub Rule : Type 0
Rule = Dict Field

pub record Policy : Type 0 where
  pub id : String
  pub name : String
  pub rules : List Rule
  pub enabled : Bool

pub record PolicyContext : Type 0 where
  pub project_id : String
  pub agent_id : String
  pub action : String
  pub resource_type : String
  pub timestamp : Option ℕ
  pub current_status : String

pub data Message : Type 0 where
  rate_limit_exceeded quota_exceeded : ℕ → ℕ → Message
  transition_not_allowed : String → String → List String → Message
  outside_hours : ℕ → Message

pub record PolicyViolation : Type 0 where
  pub policy_id : String
  pub policy_name : String
  pub rule : Rule
  pub message : Message

-- RateTracker.entries
abbrev pub Tracker : Type 0
Tracker = Dict (List ℕ)

-- RateTracker.Record: the new timestamp is appended before the pruning.
unfoldable pub record_action : Tracker → String → ℕ → ℕ → Tracker × ℕ
unfolding pruned
record_action rt key ts window =
    let kept = pruned window ts (or_empty (lookup key rt) ++ ts ∷ []) in
    (insert key kept rt, length kept)

-- RateTracker.Count
unfoldable pub count_actions : Tracker → String → ℕ → ℕ → ℕ
unfolding count_from
count_actions rt key ts window = elim (lookup key rt) [
  | none ↦ 0
  | some tss ↦ count_from window ts tss 0
]

abbrev pub as_text : Option Field → String
as_text (some (text s)) = s
as_text _ = ""

-- The value of a number field as a count: zero for a missing field and for a negative number.
abbrev pub as_count : Option Field → ℕ
as_count (some (number (pos n))) = n
as_count _ = 0

abbrev pub as_hour : Option Field → ℤ
as_hour (some (number n)) = n
as_hour _ = pos 0

-- toStringSlice
abbrev pub to_string_slice : Option Field → List String
to_string_slice (some (texts ss)) = ss
to_string_slice _ = []

abbrev fold_code : ℕ → ℕ
fold_code n = if leb b'A' n && leb n b'Z' then n + 32 else n

-- strings.EqualFold
unfoldable pub equal_fold : String → String → Bool
equal_fold String.[] String.[] = true
equal_fold String.[] (String.◌∷◌ d t) = false
equal_fold (String.◌∷◌ c s) String.[] = false
equal_fold (String.◌∷◌ c s) (String.◌∷◌ d t) =
    fold_code (code c) == fold_code (code d) && equal_fold s t

abbrev pub violation : Policy → Rule → Message → PolicyViolation
violation p rule message = record {
  policy_id = p.id;
  policy_name = p.name;
  rule = rule;
  message = message;
}

abbrev pub or_now : Option ℕ → ℕ → ℕ
or_now none now = now
or_now (some ts) now = ts

abbrev pub rate_key : PolicyContext → String
rate_key ctx =
    str_append ctx.project_id (str_append ":" (str_append ctx.agent_id (str_append ":" ctx.action)))
