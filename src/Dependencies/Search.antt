-- ===== src/Dependencies/Search.antt =====
-- The query finds exactly the tasks that a task depends on.
use cocopilot.Prelude.{
  ℕ, ◌+◌, ◌≤◌, ◌≡◌, refl, inl, inr, true, false, ◌&&◌, ◌||◌, not, List, [], ◌∷◌, ◌++◌, arith, any,
  keep, length, ◌==◌, All, Bool-cases, length-append,
}
use cocopilot.Dependencies.{Edges, mem, has_edge, targets, enqueue}

mem-append : (y : ℕ) (xs zs : List ℕ) → mem y (xs ++ zs) ≡ (mem y xs || mem y zs)
mem-append y [] zs = refl
mem-append y (x ∷ xs) zs = ground (arith, mem-append y xs zs)

pub mem-targets : (a b : ℕ) (es : Edges) → mem b (targets a es) ≡ has_edge a b es
unfolding targets
mem-targets a b [] = refl
mem-targets a b (e ∷ es) = ground (arith, mem-targets a b es)

-- What one row of the query adds to the queue and to the rows seen.
module _ (y : ℕ) where
  pub enqueue-seen :
      (ts queue seen : List ℕ) → mem y (enqueue ts queue seen).1 ≡ (mem y seen || mem y ts)
  unfolding enqueue
  enqueue-seen [] queue seen = ground arith
  enqueue-seen (t ∷ ts) queue seen =
      ground (arith, enqueue-seen ts queue seen, enqueue-seen ts (queue ++ t ∷ []) (t ∷ seen))

  pub enqueue-queue :
      (ts queue seen : List ℕ)
      → mem y (enqueue ts queue seen).0 ≡ (mem y queue || (mem y ts && not (mem y seen)))
  unfolding enqueue
  enqueue-queue [] queue seen = ground arith
  enqueue-queue (t ∷ ts) queue seen = ground (
    arith,
    enqueue-queue ts queue seen,
    enqueue-queue ts (queue ++ t ∷ []) (t ∷ seen),
    mem-append y queue (t ∷ []),
  )

-- The dependencies whose target was not seen.
abbrev pub unseen : List ℕ → Edges → ℕ
unseen seen es = length (keep (λ e. not (mem e.1 seen)) es)

unseen_le : (t : ℕ) (seen : List ℕ) (es : Edges) → unseen (t ∷ seen) es ≤ unseen seen es
unseen_le t seen [] = omega arith
unseen_le t seen (e ∷ es) = ground (arith, unseen_le t seen es)

unseen_lt :
    (t : ℕ) (seen : List ℕ) (es : Edges)
    → mem t seen ≡ false
    → any (λ e. e.1 == t) es ≡ true
    → unseen (t ∷ seen) es + 1 ≤ unseen seen es
unseen_lt t seen [] new h = cc
unseen_lt t seen (e ∷ es) new h = ground (arith, unseen_lt t seen es new, unseen_le t seen es)

abbrev AreTargets : Edges → List ℕ → Type 0
AreTargets es = All (λ t. any (λ e. e.1 == t) es ≡ true)

pub enqueue-measure :
    (es : Edges) (ts queue seen : List ℕ)
    → AreTargets es ts
    → length (enqueue ts queue seen).0 + unseen (enqueue ts queue seen).1 es
      ≤ length queue + unseen seen es
unfolding enqueue
enqueue-measure es [] queue seen h = omega arith
enqueue-measure es (t ∷ ts) queue seen h = elim (Bool-cases (mem t seen)) [
  | inl known ↦ rw (known, enqueue) (enqueue-measure es ts queue seen h.1)
  | inr fresh ↦
      rw (fresh, enqueue)
        (omega (
          arith,
          enqueue-measure es ts (queue ++ t ∷ []) (t ∷ seen) h.1,
          unseen_lt t seen es fresh h.0,
          length-append queue (t ∷ []),
        ))
]

AreTargets-cons : (e : ℕ × ℕ) (es : Edges) (ts : List ℕ) → AreTargets es ts → AreTargets (e ∷ es) ts
AreTargets-cons e es [] h = tt
AreTargets-cons e es (t ∷ ts) h = (ground (arith, h.0), AreTargets-cons e es ts h.1)

pub targets-AreTargets : (a : ℕ) (es : Edges) → AreTargets es (targets a es)
unfolding targets
targets-AreTargets a [] = tt
targets-AreTargets a (e ∷ es) = elim (Bool-cases (e.0 == a)) [
  | inl same ↦ rw same (ground arith, AreTargets-cons e es (targets a es) (targets-AreTargets a es))
  | inr other ↦ rw other (AreTargets-cons e es (targets a es) (targets-AreTargets a es))
]
