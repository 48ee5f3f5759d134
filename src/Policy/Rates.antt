-- ===== src/Policy/Rates.antt =====
-- What several rate limits on one action do to each other.
use cocopilot.Prelude.{
  ℕ, ◌+◌, ◌<◌, ◌≡◌, refl, sym, ap, ◌∙◌, ◌⊎◌, inl, inr, true, false, not, ◌&&◌, none, some, List, [],
  ◌∷◌, ◌++◌, arith, keep, length, leb, String, str_eq, keep-append, length-append, Option-cases,
  keep_idem, ◌==◌,
}
use cocopilot.Prelude.Dict.{lookup, insert, lookup-insert, str_eq_refl}
use cocopilot.Dbstore.{Db}
use cocopilot.RateLimit.{in_window, pruned, or_empty}
use cocopilot.RateLimit.Window.{recent}
use cocopilot.RateLimit.Bounds.{count_from-recent}
use cocopilot.Policy.{
  Library, Policy, Rule, PolicyContext, PolicyViolation, Tracker, as_text, as_count, or_now,
  rate_key, record_action, count_actions,
}
use cocopilot.Policy.Evaluate.{evaluate_rate_limit, evaluate_rule, evaluate_rules}

count_actions-recent :
    (rt : Tracker) (key : String) (ts window : ℕ)
    → count_actions rt key ts window ≡ recent window ts (or_empty (lookup key rt))
unfolding count_actions
count_actions-recent rt key ts window = elim (Option-cases (lookup key rt)) [
  | inl e ↦ rw (e, count_actions) (unfold recent in refl)
  | inr (tss, e) ↦ rw (e, count_actions) (omega (arith, count_from-recent window ts tss 0))
]

recent-record :
    (window ts : ℕ) (tss : List ℕ)
    → recent window ts (pruned window ts (tss ++ ts ∷ [])) ≡ recent window ts tss + 1
unfolding recent pruned
recent-record window ts tss =
    rw
      (
        keep_idem (in_window window ts) (tss ++ ts ∷ []),
        keep-append (in_window window ts) tss (ts ∷ []),
        length-append (keep (in_window window ts) tss) (keep (in_window window ts) (ts ∷ [])),
      )
      (ground arith)

or_empty-lookup :
    (key : String) (tss : List ℕ) (rt : Tracker) → or_empty (lookup key (insert key tss rt)) ≡ tss
or_empty-lookup key tss rt = rw (lookup-insert key key tss rt, str_eq_refl key) refl

-- A recorded action counts once.
count-record :
    (rt : Tracker) (key : String) (ts window : ℕ)
    → count_actions (record_action rt key ts window).0 key ts window
      ≡ count_actions rt key ts window + 1
unfolding record_action
count-record rt key ts window =
    count_actions-recent _ key ts window
    ∙ rw (or_empty-lookup key) (recent-record window ts (or_empty (lookup key rt)))
    ∙ ap (λ n. n + 1) (sym (count_actions-recent rt key ts window))

module _ (lib : Library) (ctx : PolicyContext) (db : Db) (now window : ℕ) where
  -- A rate limit on the action of the context, with the window, and a limit above the number.
  pub record LimitsAbove (n : ℕ) (rule : Rule) : Type 0 where
    pub is_rate : as_text (lookup "type" rule) ≡ "rate_limit"
    pub of_action :
        (str_eq (as_text (lookup "action" rule)) "" ≡ true)
        ⊎ (str_eq (as_text (lookup "action" rule)) ctx.action ≡ true)
    pub above : n < as_count (lookup "limit" rule)
    pub same_window : lib.parse_duration (as_text (lookup "window" rule)) ≡ some window

  abbrev pub current : Tracker → ℕ
  current rt = count_actions rt (rate_key ctx) (or_now ctx.timestamp now) window

  rate_limit-records :
      (p : Policy) (rule : Rule) (rt : Tracker)
      → LimitsAbove (current rt) rule
      → evaluate_rate_limit lib ctx p rule rt now
        ≡ ((record_action rt (rate_key ctx) (or_now ctx.timestamp now) window).0, none)
  unfolding evaluate_rate_limit
  rate_limit-records p rule rt h =
      let action = as_text (lookup "action" rule) in
      let limit = as_count (lookup "limit" rule) in
      let applies : (not (str_eq action "") && not (str_eq action ctx.action)) ≡ false =
        ground (arith, h.of_action) in
      let set : (limit == 0) ≡ false = ground (arith, h.above) in
      let room : leb limit (current rt) ≡ false = ground (arith, h.above) in
      rw (applies, set, h.same_window, room, evaluate_rate_limit) refl

  rule-records :
      (p : Policy) (rule : Rule) (rt : Tracker)
      → LimitsAbove (current rt) rule
      → evaluate_rule lib ctx p rule rt db now
        ≡ ((record_action rt (rate_key ctx) (or_now ctx.timestamp now) window).0, none)
  unfolding evaluate_rule
  rule-records p rule rt h = rw (h.is_rate, evaluate_rule) (rate_limit-records p rule rt h)

  -- Each rule has room for the rules before it.
  abbrev pub AllAbove : ℕ → List Rule → Type 0
  AllAbove n [] = Unit
  AllAbove n (rule ∷ rules) = LimitsAbove n rule × AllAbove (n + 1) rules

  -- Every rate limit on an action records it again: where a policy's rules are rate limits on the
  -- action with one window, each with room for one more than the rules before it recorded, the action
  -- is counted as often as there are rules, and no violation is found.
  pub each_rule_records :
      (p : Policy) (rules : List Rule) (rt : Tracker) (vs : List PolicyViolation)
      → AllAbove (current rt) rules
      → (current (evaluate_rules lib ctx p rules rt db now vs).0 ≡ current rt + length rules)
        × ((evaluate_rules lib ctx p rules rt db now vs).1 ≡ vs)
  unfolding evaluate_rules
  each_rule_records p [] rt vs h = (omega arith, refl)
  each_rule_records p (rule ∷ rules) rt vs h =
      let recorded = (record_action rt (rate_key ctx) (or_now ctx.timestamp now) window).0 in
      let grows = count-record rt (rate_key ctx) (or_now ctx.timestamp now) window in
      rw (rule-records p rule rt h.0, evaluate_rules)
        (let rest = each_rule_records p rules recorded vs (rw grows h.1) in
          (omega (arith, rest.0, grows), rest.1))
