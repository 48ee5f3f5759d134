-- ===== src/Listing/Paging.antt =====
-- LIMIT and OFFSET: what a page of a list is.
use cocopilot.Prelude.{
  ℕ, zero, suc, ◌≤◌, ◌<◌, ◌≡◌, refl, ap, ◌∙◌, List, [], ◌∷◌, ◌++◌, take, length, arith,
  length-take-le,
}
use mathlib.Core.List.{append-nil}
use cocopilot.Prelude.Int.{ℤ, pos, negsuc, pos_part}
use cocopilot.Listing.{drop, page}

module _ {A : Type 0} where
  -- What is left behind a page: nothing where there is no limit or the page is not full.
  abbrev pub Fits : ℤ → List A → List A → Type 0
  Fits (pos limit) shown after = (length shown ≤ limit) × (length shown < limit → after ≡ [])
  Fits (negsuc n) shown after = after ≡ []

  -- The list falls into what is skipped, the page, and what is left; fewer than the offset are skipped
  -- only where the list ends.
  pub record IsPage (limit offset : ℤ) (rows shown : List A) : Type 0 where
    pub before : List A
    pub after : List A
    pub parts : before ++ (shown ++ after) ≡ rows
    pub skipped :
        (length before ≤ pos_part offset) × (length before < pos_part offset → shown ++ after ≡ [])
    pub fits : Fits limit shown after

  take-drop : (n : ℕ) (xs : List A) → take n xs ++ drop n xs ≡ xs
  take-drop zero xs = refl
  take-drop (suc n) [] = refl
  take-drop (suc n) (x ∷ xs) = ap (λ ys. x ∷ ys) (take-drop n xs)

  drop_rest : (n : ℕ) (xs : List A) → length (take n xs) < n → drop n xs ≡ []
  drop_rest zero xs h = absurd (omega arith)
  drop_rest (suc n) [] h = refl
  drop_rest (suc n) (x ∷ xs) h = drop_rest n xs (omega arith)

  pub page-IsPage :
      (limit offset : ℤ) (rows : List A) → IsPage limit offset rows (page limit offset rows)
  unfolding page
  page-IsPage (pos limit) offset rows =
      let n = pos_part offset in
      let rest = drop n rows in
      let whole = take-drop limit rest in
      record {
        before = take n rows;
        after = drop limit rest;
        parts = ap (λ ys. take n rows ++ ys) whole ∙ take-drop n rows;
        skipped = (length-take-le n rows, (λ h. whole ∙ drop_rest n rows h));
        fits = (length-take-le limit rest, drop_rest limit rest);
      }
  page-IsPage (negsuc k) offset rows =
      let n = pos_part offset in
      let whole = append-nil (drop n rows) in
      record {
        before = take n rows;
        after = [];
        parts = ap (λ ys. take n rows ++ ys) whole ∙ take-drop n rows;
        skipped = (length-take-le n rows, (λ h. whole ∙ drop_rest n rows h));
        fits = refl;
      }
