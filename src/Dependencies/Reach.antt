-- ===== src/Dependencies/Reach.antt =====
-- Dependencies through any number of steps, and what one more dependency adds to them.
use cocopilot.Prelude.{ℕ, ◌≡◌, refl, ◌⊎◌, inl, inr, Bool, true, [], ◌∷◌, ◌++◌, arith, keep}
use cocopilot.Dependencies.{Edges, has_edge}

-- The first task depends on the second, directly or through others.
pub data Reach (es : Edges) (a : ℕ) : ℕ → Type 0 where
  direct : {b : ℕ} → has_edge a b es ≡ true → Reach es a b
  through : {m b : ℕ} → Reach es a m → has_edge m b es ≡ true → Reach es a b

abbrev pub IsAcyclic : Edges → Type 0
IsAcyclic es = (a : ℕ) → Reach es a a → ⊥

Reach-append : {es : Edges} {a b c : ℕ} → Reach es a b → Reach es b c → Reach es a c
Reach-append r (Reach.direct e) = Reach.through r e
Reach-append r (Reach.through s e) = Reach.through (Reach-append r s) e

pub has_edge-snoc :
    (es : Edges) (t d a b : ℕ)
    → has_edge a b (es ++ (t, d) ∷ []) ≡ true
    → (has_edge a b es ≡ true) ⊎ ((a ≡ t) × (b ≡ d))
has_edge-snoc [] t d a b h = ground arith
has_edge-snoc (e ∷ es) t d a b h = ground (arith, has_edge-snoc es t d a b)

-- Zero or more steps.
abbrev Reach? : Edges → ℕ → ℕ → Type 0
Reach? es a b = (a ≡ b) ⊎ Reach es a b

further : {es : Edges} {a b c : ℕ} → Reach? es a b → has_edge b c es ≡ true → Reach es a c
further (inl e) h = Reach.direct (rw e h)
further (inr r) h = Reach.through r h

-- A path that may use a new dependency, or a path before it and one after it.
Reach-snoc :
    (es : Edges) (t d a b : ℕ)
    → Reach (es ++ (t, d) ∷ []) a b
    → Reach es a b ⊎ (Reach? es a t × Reach? es d b)
Reach-snoc es t d a b (Reach.direct e) = elim (has_edge-snoc es t d a b e) [
  | inl old ↦ inl (Reach.direct old)
  | inr (p, q) ↦ inr (inl p, inl (rw q refl))
]
Reach-snoc es t d a b (Reach.through {m} r e) = elim (has_edge-snoc es t d m b e) [
  | inl old ↦ elim (Reach-snoc es t d a m r) [
    | inl path ↦ inl (Reach.through path old)
    | inr (p, q) ↦ inr (p, inr (further q old))
  ]
  | inr (p, q) ↦ elim (Reach-snoc es t d a m r) [
    | inl path ↦ inr (inr (rw p at path), inl (rw q refl))
    | inr (u, v) ↦ inr (u, inl (rw q refl))
  ]
]

joins : {es : Edges} {a t d : ℕ} → Reach? es a t → Reach? es d a → Reach? es d t
joins p (inl e) = rw e p
joins (inl e) (inr r) = inr (rw e at r)
joins (inr s) (inr r) = inr (Reach-append r s)

-- A dependency whose target does not lead back to its task makes no cycle.
pub snoc-IsAcyclic :
    (es : Edges) (t d : ℕ)
    → IsAcyclic es
    → ((t ≡ d) → ⊥)
    → (Reach es d t → ⊥)
    → IsAcyclic (es ++ (t, d) ∷ [])
snoc-IsAcyclic es t d h other away a r = elim (Reach-snoc es t d a a r) [
  | inl old ↦ h a old
  | inr (p, q) ↦ elim (joins p q) [ inl e ↦ other (rw e refl) | inr s ↦ away s ]
]

pub has_edge-keep :
    (p : ℕ × ℕ → Bool) (es : Edges) (a b : ℕ)
    → has_edge a b (keep p es) ≡ true
    → has_edge a b es ≡ true
has_edge-keep p [] a b h = h
has_edge-keep p (e ∷ es) a b h = ground (arith, has_edge-keep p es a b)

Reach-keep : (p : ℕ × ℕ → Bool) (es : Edges) (a b : ℕ) → Reach (keep p es) a b → Reach es a b
Reach-keep p es a b (Reach.direct e) = Reach.direct (has_edge-keep p es a b e)
Reach-keep p es a b (Reach.through {m} r e) =
    Reach.through (Reach-keep p es a m r) (has_edge-keep p es m b e)

pub keep-IsAcyclic : (p : ℕ × ℕ → Bool) (es : Edges) → IsAcyclic es → IsAcyclic (keep p es)
keep-IsAcyclic p es h a r = h a (Reach-keep p es a a r)
