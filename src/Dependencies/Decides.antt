-- ===== src/Dependencies/Decides.antt =====
-- The cycle check decides whether a dependency would close a cycle.
use cocopilot.Prelude.{
  ℕ, zero, suc, ◌+◌, ◌≤◌, ◌≡◌, ◌↔◌, refl, sym, ◌∙◌, ◌⊎◌, inl, inr, true, false, not, List, [], ◌∷◌,
  arith, length, ◌==◌, Bool-cases, length-keep-le,
}
use cocopilot.Dependencies.{Edges, mem, has_edge, targets, enqueue, deps, creates_cycle}
use cocopilot.Dependencies.Reach.{Reach}
use cocopilot.Dependencies.Search.{
  mem-targets, enqueue-seen, enqueue-queue, enqueue-measure, unseen, targets-AreTargets,
}

module _ (es : Edges) (start : ℕ) where
  abbrev AllReached : List ℕ → Type 0
  AllReached xs = (y : ℕ) → mem y xs ≡ true → Reach es start y

  targets-AllReached : (d : ℕ) → Reach es start d → AllReached (targets d es)
  targets-AllReached d r y h = Reach.through r (sym (mem-targets d y es) ∙ h)

  deps-AllReached :
      (fuel : ℕ) (queue seen : List ℕ)
      → AllReached queue
      → AllReached seen
      → AllReached (deps fuel es queue seen)
  unfolding deps
  deps-AllReached zero queue seen hq hs = hs
  deps-AllReached (suc fuel) [] seen hq hs = hs
  deps-AllReached (suc fuel) (d ∷ queue) seen hq hs =
      let new = targets-AllReached d (hq d (ground arith)) in
      deps-AllReached fuel (enqueue (targets d es) queue seen).0
        (enqueue (targets d es) queue seen).1
        (λ y h. elim (Bool-cases (mem y queue)) [
          | inl old ↦ hq y (ground arith)
          | inr out ↦ new y (ground (arith, enqueue-queue y (targets d es) queue seen))
        ])
        (λ y h. elim (Bool-cases (mem y seen)) [
          | inl old ↦ hs y old
          | inr out ↦ new y (ground (arith, enqueue-seen y (targets d es) queue seen))
        ])

  -- What was seen and is not waiting has all its targets among what was seen.
  abbrev IsDone : List ℕ → List ℕ → Type 0
  IsDone queue seen =
      (x y : ℕ)
      → mem x seen ≡ true
      → mem x queue ≡ false
      → has_edge x y es ≡ true
      → mem y seen ≡ true

  abbrev HasStart : List ℕ → Type 0
  HasStart seen = (y : ℕ) → has_edge start y es ≡ true → mem y seen ≡ true

  enqueue-IsDone :
      (d : ℕ) (queue seen : List ℕ)
      → IsDone (d ∷ queue) seen
      → IsDone (enqueue (targets d es) queue seen).0 (enqueue (targets d es) queue seen).1
  enqueue-IsDone d queue seen h x y in_seen out edge = ground (
    arith,
    enqueue-seen x (targets d es) queue seen,
    enqueue-seen y (targets d es) queue seen,
    enqueue-queue x (targets d es) queue seen,
    mem-targets d y es,
    h x y,
  )

  enqueue-HasStart :
      (d : ℕ) (queue seen : List ℕ) → HasStart seen → HasStart (enqueue (targets d es) queue seen).1
  enqueue-HasStart d queue seen h y edge =
      ground (arith, enqueue-seen y (targets d es) queue seen, h y edge)

  deps-IsDone :
      (fuel : ℕ) (queue seen : List ℕ)
      → length queue + unseen seen es ≤ fuel
      → IsDone queue seen
      → HasStart seen
      → IsDone [] (deps fuel es queue seen) × HasStart (deps fuel es queue seen)
  unfolding deps
  deps-IsDone zero [] seen le h s = (h, s)
  deps-IsDone zero (d ∷ queue) seen le h s = absurd (omega arith)
  deps-IsDone (suc fuel) [] seen le h s = (h, s)
  deps-IsDone (suc fuel) (d ∷ queue) seen le h s =
      deps-IsDone fuel (enqueue (targets d es) queue seen).0 (enqueue (targets d es) queue seen).1
        (omega (arith, enqueue-measure es (targets d es) queue seen (targets-AreTargets d es)))
        (enqueue-IsDone d queue seen h) (enqueue-HasStart d queue seen s)

  Reach-mem :
      (seen : List ℕ)
      → IsDone [] seen
      → HasStart seen
      → (b : ℕ) → Reach es start b
      → mem b seen ≡ true
  Reach-mem seen h s b (Reach.direct e) = s b e
  Reach-mem seen h s b (Reach.through {m} r e) = h m b (Reach-mem seen h s m r) refl e

  -- With as much fuel as there are dependencies, the rows of the query are the tasks reached.
  pub deps_iff :
      (b : ℕ)
      → (mem b (
            deps
              (length es)
              es
              (enqueue (targets start es) [] []).0
              (enqueue (targets start es) [] []).1)
          ≡ true)
        ↔ Reach es start b
  deps_iff b =
      let q = (enqueue (targets start es) [] []).0 in
      let s = (enqueue (targets start es) [] []).1 in
      (
        (λ h.
            deps-AllReached (length es) q s
              (λ y m.
                Reach.direct (
                  ground (arith, enqueue-queue y (targets start es) [] [], mem-targets start y es)))
              (λ y m.
                Reach.direct
                  (ground (arith, enqueue-seen y (targets start es) [] [], mem-targets start y es)))
              b h),
        (λ r.
            let (done, started) =
              deps-IsDone (length es) q s
                (omega (
                  arith,
                  enqueue-measure es (targets start es) [] [] (targets-AreTargets start es),
                  length-keep-le (λ e. not (mem e.1 [])) es,
                ))
                (λ x y m out edge. absurd (
                  ground (
                    arith,
                    enqueue-queue x (targets start es) [] [],
                    enqueue-seen x (targets start es) [] [],
                  )))
                (λ y edge.
                  ground
                    (arith, enqueue-seen y (targets start es) [] [], mem-targets start y es)) in
            Reach-mem _ done started b r),
      )

-- The check says that a dependency would close a cycle exactly when the task is the one that it is
-- to depend on, or when that one already depends on the task, directly or through others. Its fuel,
-- the number of dependencies, is enough.
pub creates_cycle_iff :
    (es : Edges) (task_id depends_on : ℕ)
    → (creates_cycle es task_id depends_on ≡ true)
      ↔ ((task_id ≡ depends_on) ⊎ Reach es depends_on task_id)
unfolding creates_cycle
creates_cycle_iff es task_id depends_on = elim (Bool-cases (task_id == depends_on)) [
  | inl same ↦ rw (same, creates_cycle) ((λ _. inl (ground arith)), (λ _. refl))
  | inr other ↦
      let found = deps_iff es depends_on task_id in
      rw (other, creates_cycle)
        (
          (λ h. inr (found.0 h)),
          (λ x. elim x [ inl e ↦ absurd (ground arith) | inr r ↦ found.1 r ]),
        )
]
