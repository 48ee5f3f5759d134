-- ===== src/Policy/Quota.antt =====
-- What a resource quota can count.
use cocopilot.Prelude.{
  ℕ, ◌≡◌, ◌≢◌, refl, String, Bool, false, ◌&&◌, ◌||◌, Option, none, some, List, [], ◌∷◌, arith,
  keep, length, str_eq, eq_iff, Bool-cases, inl, inr,
}
use cocopilot.Prelude.Dict.{lookup}
use cocopilot.Models.{RunStatus}
use cocopilot.Dbstore.{Db, Run}
use cocopilot.Policy.{Policy, Rule, PolicyContext, as_text, as_count}
use cocopilot.Policy.Evaluate.{
  run_status_text, count_active_resources, over_quota, evaluate_resource_quota,
}

not_counted :
    (s : RunStatus)
    → (str_eq (run_status_text s) "running" || str_eq (run_status_text s) "pending") ≡ false
not_counted RunStatus.running = refl
not_counted RunStatus.succeeded = refl
not_counted RunStatus.failed = refl
not_counted RunStatus.cancelled = refl

none_kept :
    (p : Run → Bool) (rs : List Run)
    → length (
        keep
          (λ r.
            p r
            && (str_eq (run_status_text r.status) "running"
                || str_eq (run_status_text r.status) "pending"))
          rs)
      ≡ 0
none_kept p [] = refl
none_kept p (r ∷ rs) = ground (arith, none_kept p rs, not_counted r.status)

-- Nothing or zero.
abbrev IsEmptyCount : Option ℕ → Type 0
IsEmptyCount none = Unit
IsEmptyCount (some n) = n ≡ 0

count_active_resources-IsEmptyCount :
    (db : Db) (project_id resource_type : String) (now : ℕ)
    → str_eq resource_type "task" ≡ false
    → str_eq resource_type "lease" ≡ false
    → IsEmptyCount (count_active_resources db project_id resource_type now)
unfolding count_active_resources
count_active_resources-IsEmptyCount db project_id resource_type now t l =
    elim (Bool-cases (str_eq resource_type "run")) [
      | inl run ↦ rw (t, run, count_active_resources) (none_kept _ db.runs)
      | inr other ↦ rw (t, other, l, count_active_resources) tt
    ]

over_quota-IsEmptyCount :
    (p : Policy) (rule : Rule) (n : ℕ) (o : Option ℕ)
    → n ≢ 0
    → IsEmptyCount o
    → over_quota p rule n o ≡ none
over_quota-IsEmptyCount p rule n none h e = refl
over_quota-IsEmptyCount p rule n (some c) h e = ground arith

-- A quota on anything but tasks and leases never blocks an action: runs are counted by the statuses
-- "running" and "pending", which no run has, and any other type, or none, counts as an error.
pub quota_without_effect :
    (ctx : PolicyContext) (p : Policy) (rule : Rule) (db : Db) (now : ℕ)
    → as_text (lookup "resource_type" rule) ≢ "task"
    → as_text (lookup "resource_type" rule) ≢ "lease"
    → evaluate_resource_quota ctx p rule db now ≡ none
unfolding evaluate_resource_quota
quota_without_effect ctx p rule db now t l = ground (
  arith,
  over_quota-IsEmptyCount p rule (as_count (lookup "max_count" rule))
      (count_active_resources db ctx.project_id (as_text (lookup "resource_type" rule)) now),
  count_active_resources-IsEmptyCount db ctx.project_id (as_text (lookup "resource_type" rule)) now,
  eq_iff (as_text (lookup "resource_type" rule)) "task",
  eq_iff (as_text (lookup "resource_type" rule)) "lease",
)
