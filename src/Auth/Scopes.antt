-- ===== src/Auth/Scopes.antt =====
-- Who may read and who may write.
use cocopilot.Prelude.{
  ℕ, ◌≡◌, refl, inl, inr, String, Bool, true, false, ◌||◌, some, List, str_eq, if◌then◌else◌,
  Bool-cases, arith, eq_iff,
}
use cocopilot.Prelude.Text.{has_suffix, trim_space, is_blank}
use cocopilot.Dbstore.{Db, EventHook}
use cocopilot.Auth.{
  Request, AuthIdentity, AuthConfig, Decision, requires_api_key_for_request,
  required_scope_for_request, is_v2_task_claim_request, is_v2_project_audit_request,
  is_v2_project_tasks_request, allowed_scopes_for_request, in_scopes, in_wildcard,
  identity_has_scope, resolve_auth_identity, scopes_for, grants, emit_auth_denied_event,
  authorize_v2_request, join_or,
}

-- All the identity's scopes end in `read`.
abbrev pub IsReader : AuthIdentity → Type 0
IsReader identity =
    (scope : String) → in_scopes scope identity.scopes ≡ true → has_suffix scope "read" ≡ true

if_holds {ℓ} :
    {A : Type 0} (P : A → Type ℓ) (b : Bool) {x y : A} → P x → P y → P (if b then x else y)
if_holds P true p q = p
if_holds P false p q = q

module _ (identity : AuthIdentity) (reader : IsReader identity) where
  reader_without :
      (scope : String) → has_suffix scope "read" ≡ false → in_scopes scope identity.scopes ≡ false
  reader_without scope writes = elim (Bool-cases (in_scopes scope identity.scopes)) [
    | inl there ↦ let reads = reader scope there in cc
    | inr absent ↦ absent
  ]

  abbrev Lacks : String → Type 0
  Lacks required = identity_has_scope identity required ≡ false

  lacks :
      (required : String)
      → str_eq required ""
          || has_suffix required "read"
          || has_suffix required ":read"
          || has_suffix required ".read"
        ≡ false
      → in_wildcard ":" ":*" required identity.scopes ≡ false
      → in_wildcard "." ".*" required identity.scopes ≡ false
      → Lacks required
  unfolding identity_has_scope
  lacks required writes colon dot =
      ground
        (arith, reader_without "*" refl, reader_without required, reader_without "v2:write" refl)

  policy_write : Lacks "policy.write"
  policy_write = lacks "policy.write" refl refl (reader_without "policy.*" refl)

  tasks_write : Lacks "tasks:write"
  tasks_write = lacks "tasks:write" refl (reader_without "tasks:*" refl) refl

  projects_write : Lacks "projects:write"
  projects_write = lacks "projects:write" refl (reader_without "projects:*" refl) refl

  agents_write : Lacks "agents:write"
  agents_write = lacks "agents:write" refl (reader_without "agents:*" refl) refl

  leases_write : Lacks "leases:write"
  leases_write = lacks "leases:write" refl (reader_without "leases:*" refl) refl

  runs_write : Lacks "runs:write"
  runs_write = lacks "runs:write" refl (reader_without "runs:*" refl) refl

  v2_write : Lacks "v2:write"
  v2_write = lacks "v2:write" refl (reader_without "v2:*" refl) refl

  required-Lacks :
      (r : Request) → str_eq r.method "GET" ≡ false → Lacks (required_scope_for_request r)
  unfolding required_scope_for_request
  required-Lacks r writes = rw writes (
      if_holds Lacks _ policy_write (
        if_holds Lacks _ tasks_write (
          if_holds Lacks _ projects_write (
            if_holds Lacks _ agents_write
              (if_holds Lacks _ leases_write (if_holds Lacks _ runs_write v2_write))))))

  -- No write request is granted to a reader.
  reader_granted_nothing :
      (r : Request) → str_eq r.method "GET" ≡ false → grants identity (scopes_for r) ≡ false
  unfolding allowed_scopes_for_request
  reader_granted_nothing r writes = elim (Bool-cases (is_v2_task_claim_request r)) [
    | inl claim ↦ rw (claim, tasks_write, leases_write) refl
    | inr other ↦ rw (other, writes, required-Lacks r writes) refl
  ]

-- Where keys are required for the request, which is no GET, and the given key is that of an identity
-- all of whose scopes end in `read`: the request is refused for its scope, whatever the path, and all
-- that happens to the database is that the event `auth.denied` is filed.
pub readers_write_nothing :
    (hook : EventHook) (db : Db) (projects : List String) (cfg : AuthConfig) (r : Request) (now : ℕ)
    (identity : AuthIdentity)
    → requires_api_key_for_request cfg r ≡ true
    → is_blank r.x_api_key ≡ false
    → resolve_auth_identity cfg (trim_space r.x_api_key) ≡ some identity
    → IsReader identity
    → str_eq r.method "GET" ≡ false
    → authorize_v2_request hook db projects cfg r now ≡ (
      emit_auth_denied_event hook db projects
          (some identity)
          (join_or (scopes_for r))
          r
          "insufficient_scope"
          now,
      Decision.insufficient_scope identity,
    )
unfolding authorize_v2_request
readers_write_nothing hook db projects cfg r now identity needed given found reader writes =
    rw (needed, given, found, reader_granted_nothing identity reader r writes) refl

-- The scope over all others of the request's method.
abbrev pub v2_scope : Request → String
v2_scope r = if str_eq r.method "GET" then "v2:read" else "v2:write"

module _ (identity : AuthIdentity) where
  abbrev Has : String → Type 0
  Has required = identity_has_scope identity required ≡ true

  write_holds :
      (required : String)
      → has_suffix required ":write" || has_suffix required ".write" ≡ true
      → in_scopes "v2:write" identity.scopes ≡ true
      → Has required
  unfolding identity_has_scope
  write_holds required suffix there = ground arith

  read_holds :
      (required : String)
      → has_suffix required ":read" || has_suffix required ".read" ≡ true
      → in_scopes "v2:read" identity.scopes ≡ true
      → Has required
  unfolding identity_has_scope
  read_holds required suffix there = ground arith

  required_held :
      (r : Request)
      → in_scopes (v2_scope r) identity.scopes ≡ true
      → Has (required_scope_for_request r)
  unfolding required_scope_for_request
  required_held r there = elim (Bool-cases (str_eq r.method "GET")) [
    | inl reads ↦
        let h : in_scopes "v2:read" identity.scopes ≡ true = rw reads at there in
        rw reads (
          if_holds Has _ (read_holds "policy.read" refl h) (
            if_holds Has _ (read_holds "audit.read" refl h)
              (if_holds Has _ (read_holds "tasks:read" refl h) (read_holds "v2:read" refl h))))
    | inr writes ↦
        let h : in_scopes "v2:write" identity.scopes ≡ true = rw writes at there in
        rw writes (
          if_holds Has _ (write_holds "policy.write" refl h) (
            if_holds Has _ (write_holds "tasks:write" refl h) (
              if_holds Has _ (write_holds "projects:write" refl h) (
                if_holds Has _ (write_holds "agents:write" refl h) (
                  if_holds Has _ (write_holds "leases:write" refl h) (
                    if_holds Has _ (write_holds "runs:write" refl h)
                      (write_holds "v2:write" refl h)))))))
  ]

  claim_writes : (r : Request) → is_v2_task_claim_request r ≡ true → str_eq r.method "GET" ≡ false
  unfolding is_v2_task_claim_request
  claim_writes r claim =
      let posted : str_eq r.method "POST" ≡ true = ground arith in
      rw ((eq_iff r.method "POST").0 posted) refl

  scopes_held :
      (r : Request)
      → in_scopes (v2_scope r) identity.scopes ≡ true
      → grants identity (scopes_for r) ≡ true
  unfolding allowed_scopes_for_request
  scopes_held r there = elim (Bool-cases (is_v2_task_claim_request r)) [
    | inl claim ↦
        let h : in_scopes "v2:write" identity.scopes ≡ true = rw (claim_writes r claim) at there in
        rw (claim, write_holds "tasks:write" refl h) refl
    | inr other ↦ elim (Bool-cases (str_eq r.method "GET")) [
      | inr writes ↦ rw (other, writes, required_held r there) refl
      | inl reads ↦
          let h : in_scopes "v2:read" identity.scopes ≡ true = rw reads at there in
          elim (Bool-cases (is_v2_project_audit_request r)) [
            | inl audit ↦ rw (other, reads, audit, read_holds "events.read" refl h) refl
            | inr no_audit ↦ elim (Bool-cases (is_v2_project_tasks_request r)) [
              | inl tasks ↦ rw (other, reads, no_audit, tasks, read_holds "v2:read" refl h) refl
              | inr no_tasks ↦ rw (other, reads, no_audit, no_tasks, required_held r there) refl
            ]
          ]
    ]
  ]

-- Where keys are required for the request, and the given key is that of an identity with the scope
-- `v2:read` for a GET or `v2:write` for any other method: the request is authorized, whatever the path,
-- and the database is the same.
pub v2_scopes_suffice :
    (hook : EventHook) (db : Db) (projects : List String) (cfg : AuthConfig) (r : Request) (now : ℕ)
    (identity : AuthIdentity)
    → requires_api_key_for_request cfg r ≡ true
    → is_blank r.x_api_key ≡ false
    → resolve_auth_identity cfg (trim_space r.x_api_key) ≡ some identity
    → in_scopes (v2_scope r) identity.scopes ≡ true
    → authorize_v2_request hook db projects cfg r now ≡ (db, Decision.authorized identity)
unfolding authorize_v2_request
v2_scopes_suffice hook db projects cfg r now identity needed given found there =
    rw (needed, given, found, scopes_held identity r there) refl
