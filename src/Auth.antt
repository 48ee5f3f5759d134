-- ===== src/Auth.antt =====
-- server/auth.go: the scopes that an identity has, and authorizeV2Request, with the events of refused
-- requests. The log is left out. The database is there, and `projects` are the ids in its table of
-- projects.
mod Requests
pub mod Scopes
pub mod Keys
mod Examples
unfoldable pub use Requests.*
use Prim.Native.Char.{Char}
use Prim.Native.String
use cocopilot.Prelude.{
  ℕ, String, Bool, true, false, not, ◌&&◌, ◌||◌, Option, none, some, List, [], ◌∷◌, any, length,
  str_eq, ◌==◌, if◌then◌else◌,
}
use cocopilot.Prelude.Text.{
  after_prefix, has_prefix, has_suffix, split, before, trim_space, is_blank,
}
use cocopilot.Dbstore.{name, Db, EventHook, text, create_event}

abbrev pub in_scopes : String → List String → Bool
in_scopes scope scopes = any (λ s. str_eq s scope) scopes

abbrev pub in_wildcard : Char → String → String → List String → Bool
in_wildcard sep wildcard required scopes = elim (before sep required) [
  | none ↦ false
  | some family ↦ in_scopes (String.◌++◌ family wildcard) scopes
]

-- identityHasScope
unfoldable pub identity_has_scope : AuthIdentity → String → Bool
identity_has_scope identity required =
    str_eq required ""
    || in_scopes "*" identity.scopes
    || in_scopes required identity.scopes
    || in_wildcard ":" ":*" required identity.scopes
    || in_wildcard "." ".*" required identity.scopes
    || has_suffix required ":write" && in_scopes "v2:write" identity.scopes
    || (has_suffix required ":read" || has_suffix required ".read")
      && in_scopes "v2:read" identity.scopes
    || has_suffix required ".write" && in_scopes "v2:write" identity.scopes

abbrev pub find_identity : String → List AuthIdentity → Option AuthIdentity
find_identity provided [] = none
find_identity provided (identity ∷ identities) =
    let rest = find_identity provided identities in
    if str_eq provided identity.api_key then some identity else rest

abbrev pub legacy_identity : String → AuthIdentity
legacy_identity key = record {
  id = "legacy_default";
  kind = "service";
  api_key = key;
  scopes = "*" ∷ [];
}

abbrev pub or_legacy : AuthConfig → String → Option AuthIdentity → Option AuthIdentity
or_legacy cfg provided (some identity) = some identity
or_legacy cfg provided none =
    if not (str_eq cfg.api_key "") && str_eq provided cfg.api_key
    then some (legacy_identity cfg.api_key)
    else none

-- resolveAuthIdentity
unfoldable pub resolve_auth_identity : AuthConfig → String → Option AuthIdentity
resolve_auth_identity cfg provided =
    or_legacy cfg provided (find_identity provided cfg.auth_identities)

pub data Decision : Type 0 where
  not_required : Decision
  missing_key : Decision
  invalid_key : Decision
  insufficient_scope : AuthIdentity → Decision
  authorized : AuthIdentity → Decision

-- authEventProjectID
unfoldable pub auth_event_project_id : List String → Request → String
auth_event_project_id projects r = elim (after_prefix "/api/v2/projects/" r.path) [
  | none ↦ "proj_default"
  | some trimmed ↦ elim (split "/" trimmed) [
    | [] ↦ "proj_default"
    | first ∷ _ ↦
        if not (str_eq first "") && in_scopes first projects then first else "proj_default"
  ]
]

-- emitAuthDeniedEvent; the payload's identity is left out where there is none.
unfoldable pub emit_auth_denied_event :
    EventHook → Db → List String → Option AuthIdentity → String → Request → String → ℕ → Db
unfolding auth_event_project_id
emit_auth_denied_event hook db projects identity required r reason now =
    let denied =
      ("reason", text reason)
      ∷ ("required_scope", text required)
      ∷ ("endpoint", text r.path)
      ∷ ("method", text r.method)
      ∷ [] in
    create_event hook db (auth_event_project_id projects r) "auth.denied" "auth"
      (name (String.◌++◌ r.method (String.◌++◌ " " r.path)))
      (elim identity [
        | none ↦ denied
        | some i ↦ ("identity_id", text i.id) ∷ ("identity_type", text i.kind) ∷ denied
      ])
      now

abbrev pub or_required : List String → String → List String
or_required [] required = required ∷ []
or_required (scope ∷ scopes) required = scope ∷ scopes

-- strings.Join(scopes, " or ")
abbrev pub join_or : List String → String
join_or [] = ""
join_or (scope ∷ []) = scope
join_or (scope ∷ next ∷ scopes) = String.◌++◌ scope (String.◌++◌ " or " (join_or (next ∷ scopes)))

-- The scopes of which one is enough.
abbrev pub scopes_for : Request → List String
scopes_for r = or_required (allowed_scopes_for_request r) (required_scope_for_request r)

abbrev pub grants : AuthIdentity → List String → Bool
grants identity scopes = any (identity_has_scope identity) scopes

abbrev pub check_scopes :
    EventHook → Db → List String → Request → ℕ → Option AuthIdentity → Db × Decision
check_scopes hook db projects r now none = (
  emit_auth_denied_event hook db projects none (join_or (scopes_for r)) r "invalid_api_key" now,
  invalid_key,
)
check_scopes hook db projects r now (some identity) =
    if grants identity (scopes_for r) then (db, authorized identity) else (
      emit_auth_denied_event hook db projects (some identity) (join_or (scopes_for r)) r
          "insufficient_scope" now,
      insufficient_scope identity,
    )

-- authorizeV2Request: the database and the decision.
unfoldable pub authorize_v2_request :
    EventHook → Db → List String → AuthConfig → Request → ℕ → Db × Decision
unfolding emit_auth_denied_event
authorize_v2_request hook db projects cfg r now =
    if not (requires_api_key_for_request cfg r)
    then (db, not_required)
    else if is_blank r.x_api_key
    then (
      emit_auth_denied_event hook db projects none (join_or (scopes_for r)) r "missing_api_key" now,
      missing_key,
    )
    else check_scopes hook db projects r now (resolve_auth_identity cfg (trim_space r.x_api_key))
