-- ===== src/Auth/Requests.antt =====
-- server/auth.go: which requests need a key, and the scopes that they ask for.
use cocopilot.Prelude.{
  String, Bool, true, false, not, ◌&&◌, none, some, List, [], ◌∷◌, length, str_eq, ◌==◌,
  if◌then◌else◌,
}
use cocopilot.Prelude.Text.{after_prefix, has_prefix, split}

pub record Request : Type 0 where
  pub method : String
  pub path : String
  pub x_api_key : String

pub record AuthIdentity : Type 0 where
  pub id : String
  pub kind : String
  pub api_key : String
  pub scopes : List String

pub record AuthConfig : Type 0 where
  pub require_api_key : Bool
  pub require_api_key_reads : Bool
  pub api_key : String
  pub auth_identities : List AuthIdentity

-- requiresAPIKeyForRequest
unfoldable pub requires_api_key_for_request : AuthConfig → Request → Bool
requires_api_key_for_request cfg r =
    if not cfg.require_api_key
    then false
    else if not (has_prefix r.path "/api/v2/")
    then false
    else if cfg.require_api_key_reads
    then true
    else not (str_eq r.method "GET")

-- The two parts behind a prefix meet the test.
abbrev parts_behind : String → (String → String → Bool) → String → Bool
parts_behind prefix test path = elim (after_prefix prefix path) [
  | none ↦ false
  | some trimmed ↦ elim (split "/" trimmed) [
    | [] ↦ false
    | first ∷ more ↦ elim more [
      | [] ↦ false
      | second ∷ rest ↦ length rest == 0 && test first second
    ]
  ]
]

unfoldable pub is_v2_task_claim_request : Request → Bool
is_v2_task_claim_request r =
    str_eq r.method "POST"
    && parts_behind "/api/v2/tasks/" (λ _ second. str_eq second "claim") r.path

abbrev project_part : String → Request → Bool
project_part part r =
    parts_behind "/api/v2/projects/" (λ first second. not (str_eq first "") && str_eq second part)
      r.path

unfoldable pub is_v2_project_tasks_request : Request → Bool
is_v2_project_tasks_request r = project_part "tasks" r

unfoldable pub is_v2_project_audit_request : Request → Bool
is_v2_project_audit_request r = project_part "audit" r

-- Here further parts may follow.
unfoldable pub is_v2_project_policies_request : Request → Bool
is_v2_project_policies_request r = elim (after_prefix "/api/v2/projects/" r.path) [
  | none ↦ false
  | some trimmed ↦ elim (split "/" trimmed) [
    | [] ↦ false
    | first ∷ more ↦ elim more [
      | [] ↦ false
      | second ∷ _ ↦ not (str_eq first "") && str_eq second "policies"
    ]
  ]
]

-- requiredScopeForRequest
unfoldable pub required_scope_for_request : Request → String
required_scope_for_request r =
    if str_eq r.method "GET"
    then (if is_v2_project_policies_request r
        then "policy.read"
        else if is_v2_project_audit_request r
        then "audit.read"
        else if has_prefix r.path "/api/v2/tasks"
        then "tasks:read"
        else "v2:read")
    else if is_v2_project_policies_request r
    then "policy.write"
    else if has_prefix r.path "/api/v2/tasks"
    then "tasks:write"
    else if has_prefix r.path "/api/v2/projects"
    then "projects:write"
    else if has_prefix r.path "/api/v2/agents"
    then "agents:write"
    else if has_prefix r.path "/api/v2/leases"
    then "leases:write"
    else if has_prefix r.path "/api/v2/runs"
    then "runs:write"
    else "v2:write"

-- allowedScopesForRequest
unfoldable pub allowed_scopes_for_request : Request → List String
allowed_scopes_for_request r =
    if is_v2_task_claim_request r
    then "tasks:write" ∷ "leases:write" ∷ []
    else if str_eq r.method "GET" && is_v2_project_audit_request r
    then "events.read" ∷ "audit.read" ∷ []
    else if str_eq r.method "GET" && is_v2_project_tasks_request r
    then "v2:read" ∷ "tasks:read" ∷ []
    else []
