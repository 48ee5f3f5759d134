-- ===== src/Finalization.antt =====
-- server/finalization.go: the canonical ways a task succeeds or fails. Redaction has the removal of
-- secrets, Extraction the memories that a summary or an error leaves, and Paths the two functions.
pub mod Redaction
pub mod Extraction
pub mod Paths
pub mod Settled
pub mod Hidden
mod Examples
use cocopilot.Prelude.{ℕ, String, Option, List}

-- What an agent may submit as JSON; the proposals of further tasks and the artifacts, which only
-- other code reads, are left out.
pub record CompletionPayload : Type 0 where
  pub summary : String
  pub changes_made : List String
  pub files_touched : List String
  pub commands_run : List String
  pub tests_run : List String
  pub risks : List String

-- The packages that are called: the decoding of JSON, and the hexadecimal digest of a text.
pub record Library : Type 0 where
  pub decode : String → Option CompletionPayload
  pub digest : String → String
