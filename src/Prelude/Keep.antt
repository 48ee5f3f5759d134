-- ===== src/Prelude/Keep.antt =====
-- Laws of the rows that pass a test.
use mathlib.Core.List.{Memᴰ}
use mathlib.Core.List.Memᴰ
use mathlib.Core.Path.{◌≡◌}
use mathlib.Core.Logic.{inl, inr}
use mathlib.Core.Bool.{Bool, true, false}
use mathlib.Core.List.{List, [], ◌∷◌}
use native.Mathlib.Omega.{arith}
use cocopilot.Prelude.Tests.{Bool-cases}
use cocopilot.Prelude.Lists.{keep, All}

module _ {ℓ} {A : Type ℓ} where
  pub keep-nil : (p : A → Bool) (xs : List A) → keep p xs ≡ [] → All (λ x. p x ≡ false) xs
  keep-nil p [] h = tt
  keep-nil p (x ∷ xs) h = ground (arith, keep-nil p xs)

  pub keep-mem :
      (p : A → Bool) (m : A) (xs : List A) → Memᴰ m (keep p xs) → Memᴰ m xs × (p m ≡ true)
  keep-mem p m [] h = elim h [ ]
  keep-mem p m (x ∷ xs) h = elim (Bool-cases (p x)) [
    | inl kept ↦ elim (Memᴰ.cases_cons (rw kept at h)) [
      | inl e ↦ (Memᴰ.head e, rw e kept)
      | inr r ↦ let (there, holds) = keep-mem p m xs r in (Memᴰ.tail there, holds)
    ]
    | inr dropped ↦
        let (there, holds) = keep-mem p m xs (rw dropped at h) in (Memᴰ.tail there, holds)
  ]

  pub keep-All {κ} :
      (p : A → Bool) (Q : A → Type κ) (xs : List A)
      → All Q (keep p xs)
      → All (λ x. p x ≡ true → Q x) xs
  keep-All p Q [] h = tt
  keep-All p Q (x ∷ xs) h = elim (Bool-cases (p x)) [
    | inl kept ↦ let h' = rw kept at h in ((λ _. h'.0), keep-All p Q xs h'.1)
    | inr dropped ↦ ((λ e. cc), keep-All p Q xs (rw dropped at h))
  ]
