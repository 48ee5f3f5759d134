-- ===== src/Policy/Rules.antt =====
-- The two loops as one pass over the rules of the enabled policies.
use cocopilot.Prelude.{
  ℕ, ◌≡◌, ◌↔◌, refl, sym, ◌∙◌, Bool, true, false, Option, none, some, List, [], ◌∷◌, ◌++◌, map,
  if◌then◌else◌,
}
use cocopilot.Dbstore.{Db}
use cocopilot.Policy.{Library, Policy, Rule, PolicyContext, PolicyViolation, Tracker}
use cocopilot.Policy.Evaluate.{
  evaluate_rule, append_found, evaluate_rules, evaluate_policies, is_none, evaluate_policy,
}

abbrev rules_of : Policy → List (Policy × Rule)
rules_of p = map (λ r. (p, r)) p.rules

-- The rules that apply, each with its policy, in order.
unfoldable pub enabled_rules : List Policy → List (Policy × Rule)
enabled_rules [] = []
enabled_rules (p ∷ ps) =
    let rest = enabled_rules ps in if p.enabled then rules_of p ++ rest else rest

module _ (lib : Library) (ctx : PolicyContext) (db : Db) (now : ℕ) where
  -- Every rule in turn finds nothing, and the tracker passes from one to the next.
  pub data Passes : Tracker → List (Policy × Rule) → Tracker → Type 0 where
    done : {rt : Tracker} → Passes rt [] rt
    next :
        {rt rt1 rt2 : Tracker} {p : Policy} {rule : Rule} {rest : List (Policy × Rule)}
        → evaluate_rule lib ctx p rule rt db now ≡ (rt1, none)
        → Passes rt1 rest rt2
        → Passes rt ((p, rule) ∷ rest) rt2

  -- The loops over the flat list.
  unfoldable pub pass :
      List (Policy × Rule) → Tracker → List PolicyViolation → Tracker × List PolicyViolation
  pass [] rt vs = (rt, vs)
  pass ((p, rule) ∷ rest) rt vs =
      let (rt', v) = evaluate_rule lib ctx p rule rt db now in pass rest rt' (append_found vs v)

  pass-append :
      (p : Policy) (rules : List Rule) (rest : List (Policy × Rule)) (rt : Tracker)
      (vs : List PolicyViolation)
      → pass (map (λ r. (p, r)) rules ++ rest) rt vs
        ≡ pass rest
            (evaluate_rules lib ctx p rules rt db now vs).0
            (evaluate_rules lib ctx p rules rt db now vs).1
  unfolding pass evaluate_rules
  pass-append p [] rest rt vs = refl
  pass-append p (rule ∷ rules) rest rt vs =
      pass-append p rules rest (evaluate_rule lib ctx p rule rt db now).0
        (append_found vs (evaluate_rule lib ctx p rule rt db now).1)

  branch :
      (b : Bool) (x y : Tracker × List PolicyViolation) (rs ss : List (Policy × Rule))
      (rt : Tracker) (vs : List PolicyViolation)
      → x ≡ pass rs rt vs
      → y ≡ pass ss rt vs
      → (if b then x else y) ≡ pass (if b then rs else ss) rt vs
  branch true x y rs ss rt vs h k = h
  branch false x y rs ss rt vs h k = k

  evaluate_policies-pass :
      (ps : List Policy) (rt : Tracker) (vs : List PolicyViolation)
      → evaluate_policies lib ctx ps rt db now vs ≡ pass (enabled_rules ps) rt vs
  unfolding evaluate_policies enabled_rules
  evaluate_policies-pass [] rt vs = unfold pass in refl
  evaluate_policies-pass (p ∷ ps) rt vs =
      branch p.enabled _ _ _ _ rt vs
        (evaluate_policies-pass ps (evaluate_rules lib ctx p p.rules rt db now vs).0
            (evaluate_rules lib ctx p p.rules rt db now vs).1
          ∙ sym (pass-append p p.rules (enabled_rules ps) rt vs))
        (evaluate_policies-pass ps rt vs)

  still_found :
      (vs : List PolicyViolation) (o : Option PolicyViolation)
      → is_none vs ≡ false
      → is_none (append_found vs o) ≡ false
  still_found vs none h = h
  still_found [] (some v) h = refl
  still_found (w ∷ vs) (some v) h = refl

  -- A violation that was found stays.
  pass_blocked :
      (rules : List (Policy × Rule)) (rt : Tracker) (vs : List PolicyViolation)
      → is_none vs ≡ false
      → is_none (pass rules rt vs).1 ≡ false
  unfolding pass
  pass_blocked [] rt vs h = h
  pass_blocked ((p, rule) ∷ rest) rt vs h =
      pass_blocked rest (evaluate_rule lib ctx p rule rt db now).0
        (append_found vs (evaluate_rule lib ctx p rule rt db now).1)
        (still_found vs (evaluate_rule lib ctx p rule rt db now).1 h)

  first-Passes :
      (rt rt1 : Tracker) (p : Policy) (rule : Rule) (rest : List (Policy × Rule))
      (o : Option PolicyViolation)
      → evaluate_rule lib ctx p rule rt db now ≡ (rt1, o)
      → (is_none (pass rest rt1 []).1 ≡ true → Passes rt1 rest (pass rest rt1 []).0)
      → is_none (pass rest rt1 (append_found [] o)).1 ≡ true
      → Passes rt ((p, rule) ∷ rest) (pass rest rt1 (append_found [] o)).0
  first-Passes rt rt1 p rule rest none e later h = Passes.next e (later h)
  first-Passes rt rt1 p rule rest (some v) e later h =
      absurd (cc (pass_blocked rest rt1 (v ∷ []) refl))

  pass-Passes :
      (rules : List (Policy × Rule)) (rt : Tracker)
      → is_none (pass rules rt []).1 ≡ true
      → Passes rt rules (pass rules rt []).0
  unfolding pass
  pass-Passes [] rt h = Passes.done
  pass-Passes ((p, rule) ∷ rest) rt h =
      first-Passes rt (evaluate_rule lib ctx p rule rt db now).0 p rule rest
        (evaluate_rule lib ctx p rule rt db now).1 refl
        (pass-Passes rest (evaluate_rule lib ctx p rule rt db now).0) h

  Passes-pass :
      (rules : List (Policy × Rule)) (rt rt' : Tracker)
      → Passes rt rules rt'
      → pass rules rt [] ≡ (rt', [])
  unfolding pass
  Passes-pass [] rt rt' Passes.done = refl
  Passes-pass ((p, rule) ∷ rest) rt rt' (Passes.next {rt1 = rt1} e r) =
      rw e (Passes-pass rest rt1 rt' r)

  -- An action is allowed exactly when every rule of the enabled policies, in order, finds nothing,
  -- each with the tracker as the rules before it left it; disabled policies do nothing.
  pub allowed_iff_Passes :
      (ps : List Policy) (rt rt' : Tracker)
      → ((evaluate_policy lib ctx ps rt db now).1 ≡ true)
          × ((evaluate_policy lib ctx ps rt db now).0 ≡ rt')
        ↔ Passes rt (enabled_rules ps) rt'
  unfolding evaluate_policy
  allowed_iff_Passes ps rt rt' = rw (evaluate_policies-pass ps rt []) (
    (λ h. let reached = pass-Passes (enabled_rules ps) rt h.0 in rw h.1 at reached),
    (λ r. rw (Passes-pass (enabled_rules ps) rt rt' r) (refl, refl)),
  )
