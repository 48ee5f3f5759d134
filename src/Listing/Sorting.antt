-- ===== src/Listing/Sorting.antt =====
-- WHERE and ORDER BY: the rows that a query selects, and their sorting.
use mathlib.Core.List.{Permᴰ}
use mathlib.Core.List.Permᴰ
use cocopilot.Prelude.{
  ℕ, ◌≡◌, ◌↔◌, refl, inl, inr, Bool, true, false, List, [], ◌∷◌, arith, keep, All, Bool-cases,
}
use cocopilot.Timestamps.{micros, fraction_text, text_ltb, stamp_ltb}
use cocopilot.Listing.{insert_by, sort_by}

module _ {A : Type 0} where
  -- The second list has exactly the elements of the first that satisfy the predicate, in its order.
  pub data Selection (P : A → Type 0) : List A → List A → Type 0 where
    nothing : Selection P [] []
    taken : {x : A} {xs ys : List A} → P x → Selection P xs ys → Selection P (x ∷ xs) (x ∷ ys)
    left : {x : A} {xs ys : List A} → (P x → ⊥) → Selection P xs ys → Selection P (x ∷ xs) ys

  -- Every row stands in the relation to all behind it.
  abbrev pub Pairwise : (A → A → Type 0) → List A → Type 0
  Pairwise R [] = Unit
  Pairwise R (x ∷ xs) = All (R x) xs × Pairwise R xs

  pub keep-Selection :
      (p : A → Bool) (P : A → Type 0)
      → ((x : A) → (p x ≡ true) ↔ P x)
      → (xs : List A) → Selection P xs (keep p xs)
  keep-Selection p P same [] = Selection.nothing
  keep-Selection p P same (x ∷ xs) = elim (Bool-cases (p x)) [
    | inl passes ↦ rw passes (Selection.taken ((same x).0 passes) (keep-Selection p P same xs))
    | inr fails ↦ rw fails (Selection.left (λ h. cc ((same x).1 h)) (keep-Selection p P same xs))
  ]

  insert_by-Permᴰ : (b : A → A → Bool) (x : A) (ys : List A) → Permᴰ (insert_by b x ys) (x ∷ ys)
  insert_by-Permᴰ b x [] = Permᴰ.refl (x ∷ [])
  insert_by-Permᴰ b x (y ∷ ys) = elim (Bool-cases (b y x)) [
    | inl first ↦
        rw first (Permᴰ.trans (Permᴰ.cons refl (insert_by-Permᴰ b x ys)) (Permᴰ.swap refl refl))
    | inr after ↦ rw after (Permᴰ.refl (x ∷ y ∷ ys))
  ]

  pub sort_by-Permᴰ : (b : A → A → Bool) (xs : List A) → Permᴰ (sort_by b xs) xs
  unfolding sort_by
  sort_by-Permᴰ b [] = Permᴰ.nil
  sort_by-Permᴰ b (x ∷ xs) =
      Permᴰ.trans (insert_by-Permᴰ b x (sort_by b xs)) (Permᴰ.cons refl (sort_by-Permᴰ b xs))

  module _ (b : A → A → Bool) (asym : (x y : A) → b x y ≡ true → b y x ≡ false)
      (neg_trans : (x y z : A) → b x y ≡ false → b y z ≡ false → b x z ≡ false) where
    abbrev NotAfter : A → A → Type 0
    NotAfter x y = b y x ≡ false

    insert_by-All :
        (R : A → Type 0) (x : A) (ys : List A) → R x → All R ys → All R (insert_by b x ys)
    insert_by-All R x [] r h = (r, tt)
    insert_by-All R x (y ∷ ys) r h = elim (Bool-cases (b y x)) [
      | inl first ↦ rw first (h.0, insert_by-All R x ys r h.1)
      | inr after ↦ rw after (r, h)
    ]

    All-further :
        (x y : A) (zs : List A) → b y x ≡ false → All (NotAfter y) zs → All (NotAfter x) zs
    All-further x y [] e h = tt
    All-further x y (z ∷ zs) e h = (neg_trans z y x h.0 e, All-further x y zs e h.1)

    insert_by-Pairwise :
        (x : A) (ys : List A) → Pairwise NotAfter ys → Pairwise NotAfter (insert_by b x ys)
    insert_by-Pairwise x [] h = (tt, tt)
    insert_by-Pairwise x (y ∷ ys) h = elim (Bool-cases (b y x)) [
      | inl first ↦
          rw first
            (insert_by-All (NotAfter y) x ys (asym y x first) h.0, insert_by-Pairwise x ys h.1)
      | inr after ↦ rw after ((after, All-further x y ys after h.0), h)
    ]

    pub sort_by-Pairwise : (xs : List A) → Pairwise (λ x y. b y x ≡ false) (sort_by b xs)
    unfolding sort_by
    sort_by-Pairwise [] = tt
    sort_by-Pairwise (x ∷ xs) = insert_by-Pairwise x (sort_by b xs) (sort_by-Pairwise xs)

text_ltb-asym : (xs ys : List ℕ) → text_ltb xs ys ≡ true → text_ltb ys xs ≡ false
unfolding text_ltb
text_ltb-asym [] [] h = refl
text_ltb-asym [] (y ∷ ys) h = refl
text_ltb-asym (x ∷ xs) [] h = cc
text_ltb-asym (x ∷ xs) (y ∷ ys) h = ground (arith, text_ltb-asym xs ys)

text_ltb-neg_trans :
    (xs ys zs : List ℕ) → text_ltb xs ys ≡ false → text_ltb ys zs ≡ false → text_ltb xs zs ≡ false
unfolding text_ltb
text_ltb-neg_trans [] ys [] h k = refl
text_ltb-neg_trans (x ∷ xs) ys [] h k = refl
text_ltb-neg_trans [] [] (z ∷ zs) h k = cc
text_ltb-neg_trans [] (y ∷ ys) (z ∷ zs) h k = cc
text_ltb-neg_trans (x ∷ xs) [] (z ∷ zs) h k = cc
text_ltb-neg_trans (x ∷ xs) (y ∷ ys) (z ∷ zs) h k = ground (arith, text_ltb-neg_trans xs ys zs)

pub stamp_ltb-asym : (a b : ℕ) → stamp_ltb a b ≡ true → stamp_ltb b a ≡ false
unfolding stamp_ltb
stamp_ltb-asym a b h =
    ground (arith, text_ltb-asym (fraction_text (micros a)) (fraction_text (micros b)))

pub stamp_ltb-neg_trans :
    (a b c : ℕ) → stamp_ltb a b ≡ false → stamp_ltb b c ≡ false → stamp_ltb a c ≡ false
unfolding stamp_ltb
stamp_ltb-neg_trans a b c h k = ground (
  arith,
  text_ltb-neg_trans (fraction_text (micros a)) (fraction_text (micros b))
      (fraction_text (micros c)),
)
