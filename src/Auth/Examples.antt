-- ===== src/Auth/Examples.antt =====
-- Requests with keys, and runs of the tests on paths and scopes.
use cocopilot.Prelude.{◌≡◌, refl, sym, String, true, false, some, [], ◌∷◌, str_eq, eq_iff, arith}
use cocopilot.Prelude.Text.{is_blank}
use cocopilot.Dbstore.Fixtures.{db_of, no_hook}
use cocopilot.Auth.{
  Request, AuthIdentity, AuthConfig, Decision, requires_api_key_for_request, resolve_auth_identity,
  allowed_scopes_for_request, is_v2_task_claim_request, identity_has_scope, scopes_for, join_or,
  emit_auth_denied_event, authorize_v2_request,
}
use cocopilot.Auth.Scopes.{IsReader, readers_write_nothing, v2_scopes_suffice}

abbrev reader : AuthIdentity
reader = record { id = "watcher"; kind = "agent"; api_key = "k1"; scopes = "v2:read" ∷ [] }

abbrev writer : AuthIdentity
writer = record { id = "worker"; kind = "agent"; api_key = "k2"; scopes = "v2:write" ∷ [] }

abbrev config : AuthConfig
config = record {
  require_api_key = true;
  require_api_key_reads = false;
  api_key = "";
  auth_identities = reader ∷ writer ∷ [];
}

abbrev claim_as : String → Request
claim_as key = record { method = "POST"; path = "/api/v2/tasks/7/claim"; x_api_key = key }

claim_scopes : scopes_for (claim_as "") ≡ "tasks:write" ∷ "leases:write" ∷ []
unfolding allowed_scopes_for_request is_v2_task_claim_request
claim_scopes = refl

task_wildcard : identity_has_scope (record reader { scopes = "tasks:*" ∷ [] }) "tasks:write" ≡ true
unfolding identity_has_scope
task_wildcard = refl

reader-IsReader : IsReader reader
reader-IsReader scope there =
    let test : str_eq "v2:read" scope ≡ true = ground arith in
    rw (sym ((eq_iff "v2:read" scope).0 test)) refl

readers_write_nothing_example :
    authorize_v2_request no_hook (db_of []) [] config (claim_as " k1 ") 5 ≡ (
      emit_auth_denied_event no_hook
          (db_of [])
          []
          (some reader)
          (join_or (scopes_for (claim_as " k1 ")))
          (claim_as " k1 ")
          "insufficient_scope"
          5,
      Decision.insufficient_scope reader,
    )
unfolding requires_api_key_for_request is_blank resolve_auth_identity
readers_write_nothing_example =
    readers_write_nothing no_hook (db_of []) [] config (claim_as " k1 ") 5 reader refl refl refl
      reader-IsReader refl

v2_scopes_suffice_example :
    authorize_v2_request no_hook (db_of []) [] config (claim_as "k2") 5
    ≡ (db_of [], Decision.authorized writer)
unfolding requires_api_key_for_request is_blank resolve_auth_identity
v2_scopes_suffice_example =
    v2_scopes_suffice no_hook (db_of []) [] config (claim_as "k2") 5 writer refl refl refl refl
