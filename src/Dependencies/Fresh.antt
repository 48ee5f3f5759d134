-- ===== src/Dependencies/Fresh.antt =====
-- Dependencies among ids that were given out, and those of a task that is new.
use cocopilot.Prelude.{
  ℕ, ◌≤◌, ◌<◌, ◌≡◌, inl, inr, true, List, [], ◌∷◌, ◌++◌, arith, any, keep, ◌==◌, Bool,
}
use cocopilot.Dbstore.{TaskRow}
use cocopilot.Dbstore.Creation.{next_id}
use cocopilot.Dependencies.{Edges, has_edge}
use cocopilot.Dependencies.Reach.{Reach, IsAcyclic, has_edge-snoc, has_edge-keep, snoc-IsAcyclic}

-- The tasks of the dependencies are below the one number, and those that they wait for below the other.
abbrev pub AllBelow : ℕ → ℕ → Edges → Type 0
AllBelow n k es = (a b : ℕ) → has_edge a b es ≡ true → (a < n) × (b < k)

pub AllBelow-le :
    {n n' k k' : ℕ} (es : Edges) → n ≤ n' → k ≤ k' → AllBelow n k es → AllBelow n' k' es
AllBelow-le es p q h a b e = let (s, t) = h a b e in (omega arith, omega arith)

pub AllBelow-snoc :
    {n k : ℕ} (es : Edges) (t d : ℕ)
    → t < n
    → d < k
    → AllBelow n k es
    → AllBelow n k (es ++ (t, d) ∷ [])
AllBelow-snoc es t d p q h a b e = elim (has_edge-snoc es t d a b e) [
  | inl old ↦ h a b old
  | inr (u, v) ↦ (omega arith, omega arith)
]

pub AllBelow-keep :
    {n k : ℕ} (p : ℕ × ℕ → Bool) (es : Edges) → AllBelow n k es → AllBelow n k (keep p es)
AllBelow-keep p es h a b e = h a b (has_edge-keep p es a b e)

-- What is reached is waited for.
Reach-below : {n k : ℕ} {es : Edges} {a b : ℕ} → AllBelow n k es → Reach es a b → b < k
Reach-below {a} {b} h (Reach.direct e) = (h a b e).1
Reach-below {b} h (Reach.through {m} r e) = (h m b e).1

-- Nothing waits for a new task, so what it waits for does not lead back to it.
pub fresh-IsAcyclic :
    (n k : ℕ) (es : Edges) (d : ℕ)
    → AllBelow n k es
    → d < k
    → IsAcyclic es
    → IsAcyclic (es ++ (k, d) ∷ [])
fresh-IsAcyclic n k es d below past h =
    snoc-IsAcyclic es k d h (λ e. omega arith) (λ r. let low = Reach-below below r in omega arith)

-- An id of a task was given out.
pub exists-lt : (id : ℕ) (ts : List TaskRow) → any (λ t. t.id == id) ts ≡ true → id < next_id ts
unfolding next_id
exists-lt id [] e = absurd (ground arith)
exists-lt id (t ∷ ts) e = ground (arith, exists-lt id ts)
