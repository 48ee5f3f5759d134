-- ===== src/Finalization/Redaction.antt =====
-- server/finalization.go: redactSecrets and redactURLPasswords. Positions are texts before and behind;
-- the loop is on fuel, the length of the text.
use Prim.Native.Char.{Char, code}
use Prim.Native.String
use cocopilot.Prelude.{
  ℕ, zero, suc, String, Bool, ◌||◌, none, some, List, [], ◌∷◌, ◌==◌, if◌then◌else◌,
}
use cocopilot.Prelude.Text.{split_first, char_count}

-- What ends a token.
unfoldable pub is_delimiter : Char → Bool
is_delimiter c = let n = code c in n == 32 || n == 10 || n == 34 || n == 39 || n == 44 || n == 59

unfoldable pub drop_token : String → String
drop_token String.[] = String.[]
drop_token (String.◌∷◌ c s) =
    let rest = drop_token s in if is_delimiter c then String.◌∷◌ c s else rest

-- The inner loop of redactSecrets: a pattern's prefix, and what stands for it and its token.
unfoldable pub redact_rounds : ℕ → String → String → String → String
unfolding split_first drop_token
redact_rounds zero prefix replacement s = s
redact_rounds (suc n) prefix replacement s = elim (split_first prefix s) [
  | none ↦ s
  | some (before, behind) ↦
      String.◌++◌ before
        (String.◌++◌ replacement (redact_rounds n prefix replacement (drop_token behind)))
]

unfoldable pub redact_pattern : String → String → String → String
unfolding redact_rounds
redact_pattern prefix replacement s = redact_rounds (char_count s) prefix replacement s

abbrev pub patterns : List (String × String)
patterns =
    ("sk-", "sk-[REDACTED]")
    ∷ ("Bearer ", "Bearer [REDACTED]")
    ∷ ("token=", "token=[REDACTED]")
    ∷ ("api_key=", "api_key=[REDACTED]")
    ∷ ("apikey=", "apikey=[REDACTED]")
    ∷ ("access_token=", "access_token=[REDACTED]")
    ∷ ("secret=", "secret=[REDACTED]")
    ∷ ("password=", "password=[REDACTED]")
    ∷ ("passwd=", "passwd=[REDACTED]")
    ∷ ("AKIA", "[AWS_KEY_REDACTED]")
    ∷ ("ghp_", "ghp_[REDACTED]")
    ∷ ("gho_", "gho_[REDACTED]")
    ∷ ("ghu_", "ghu_[REDACTED]")
    ∷ ("ghs_", "ghs_[REDACTED]")
    ∷ ("ghr_", "ghr_[REDACTED]")
    ∷ ("npm_", "npm_[REDACTED]")
    ∷ ("xoxb-", "xoxb-[REDACTED]")
    ∷ ("xoxp-", "xoxp-[REDACTED]")
    ∷ ("xoxs-", "xoxs-[REDACTED]")
    ∷ []

unfoldable pub redact_patterns : List (String × String) → String → String
unfolding redact_pattern
redact_patterns [] s = s
redact_patterns ((prefix, replacement) ∷ ps) s =
    redact_patterns ps (redact_pattern prefix replacement s)

-- The password of the first URL of a scheme.
abbrev hide_password : String → String × String → String
hide_password scheme (before, rest) = elim (split_first "@" rest) [
  | none ↦ String.◌++◌ before (String.◌++◌ scheme rest)
  | some (user_pass, host) ↦ elim (split_first ":" user_pass) [
    | none ↦ String.◌++◌ before (String.◌++◌ scheme rest)
    | some (user, pass) ↦
        String.◌++◌ before
          (String.◌++◌ scheme (String.◌++◌ user (String.◌++◌ ":[REDACTED]" (String.◌++◌ "@" host))))
  ]
]

unfoldable pub redact_scheme : String → String → String
unfolding split_first
redact_scheme scheme s = elim (split_first scheme s) [
  | none ↦ s
  | some parts ↦ hide_password scheme parts
]

unfoldable redact_schemes : List String → String → String
unfolding redact_scheme
redact_schemes [] s = s
redact_schemes (scheme ∷ schemes) s = redact_schemes schemes (redact_scheme scheme s)

-- redactURLPasswords
unfoldable pub redact_url_passwords : String → String
unfolding redact_schemes
redact_url_passwords = redact_schemes (
    "https://" ∷ "http://" ∷ "postgres://" ∷ "postgresql://" ∷ "mysql://" ∷ "mongodb://"
    ∷ "redis://" ∷ [])

-- redactSecrets
unfoldable pub redact_secrets : String → String
unfolding redact_patterns redact_url_passwords
redact_secrets s = redact_url_passwords (redact_patterns patterns s)
