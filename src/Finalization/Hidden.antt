-- ===== src/Finalization/Hidden.antt =====
-- The removal of secrets does not depend on the secrets.
use Prim.Native.Char.{Char, code}
use Prim.Native.String
use text.Mathlib.TextLemmas.{nil-append, cons-append}
use cocopilot.Prelude.{
  ℕ, zero, suc, ◌+◌, ◌≤◌, ◌<◌, ◌≡◌, refl, ap, sym, ◌∙◌, inl, inr, String, Bool, true, not, ◌&&◌,
  Option, none, some, arith, Option-cases, ==_iff,
}
use cocopilot.Prelude.Text.{after_prefix, split_first, char_count}
use cocopilot.Finalization.Redaction.{is_delimiter, drop_token, redact_rounds, redact_pattern}

-- A text without delimiters.
abbrev pub is_token : String → Bool
is_token String.[] = true
is_token (String.◌∷◌ c s) = not (is_delimiter c) && is_token s

-- A text that ends the token before it.
abbrev pub ends_token : String → Bool
ends_token String.[] = true
ends_token (String.◌∷◌ c s) = is_delimiter c

after_prefix-append : (p x : String) → after_prefix p (String.◌++◌ p x) ≡ some x
after_prefix-append String.[] x = ap some (nil-append x)
after_prefix-append (String.◌∷◌ c p) x =
    rw (cons-append c p x, (==_iff (code c) (code c)).1 refl) (after_prefix-append p x)

after_prefix-char_count :
    (p s rest : String)
    → after_prefix p s ≡ some rest
    → char_count rest + char_count p ≤ char_count s
after_prefix-char_count String.[] s rest e = ground arith
after_prefix-char_count (String.◌∷◌ c p) String.[] rest e = cc
after_prefix-char_count (String.◌∷◌ c p) (String.◌∷◌ d s) rest e =
    ground (arith, after_prefix-char_count p s rest)

-- A prefix that does not fit a text of its length at least does not fit a longer one.
after_prefix-none :
    (q p x : String)
    → after_prefix q p ≡ none
    → char_count q ≤ char_count p
    → after_prefix q (String.◌++◌ p x) ≡ none
after_prefix-none String.[] p x e long = cc
after_prefix-none (String.◌∷◌ c q) String.[] x e long = absurd (omega arith)
after_prefix-none (String.◌∷◌ c q) (String.◌∷◌ d p) x e long =
    rw (cons-append d p x) (ground (arith, after_prefix-none q p x))

after_prefix-later :
    (q a p x : String)
    → after_prefix q (String.◌++◌ a p) ≡ none
    → char_count q ≤ char_count p
    → after_prefix q (String.◌++◌ a (String.◌++◌ p x)) ≡ none
after_prefix-later q String.[] p x e long =
    rw (nil-append (String.◌++◌ p x)) (after_prefix-none q p x (rw (← (nil-append p)) e) long)
after_prefix-later String.[] (String.◌∷◌ d a) p x e long = cc
after_prefix-later (String.◌∷◌ c q) (String.◌∷◌ d a) p x e long =
    let short : after_prefix (String.◌∷◌ c q) (String.◌∷◌ d (String.◌++◌ a p)) ≡ none =
      ap (after_prefix (String.◌∷◌ c q)) (sym (cons-append d a p)) ∙ e in
    rw (cons-append d a (String.◌++◌ p x)) (ground (arith, after_prefix-later q a p x))

drop_token-append :
    (t b : String) → is_token t ≡ true → ends_token b ≡ true → drop_token (String.◌++◌ t b) ≡ b
unfolding drop_token
drop_token-append String.[] String.[] token ends = rw (nil-append String.[]) refl
drop_token-append String.[] (String.◌∷◌ c b) token ends =
    rw (nil-append (String.◌∷◌ c b)) (ground arith)
drop_token-append (String.◌∷◌ c t) b token ends =
    rw (cons-append c t b) (ground (arith, drop_token-append t b))

drop_token-char_count : (s : String) → char_count (drop_token s) ≤ char_count s
unfolding drop_token
drop_token-char_count String.[] = ground arith
drop_token-char_count (String.◌∷◌ c s) = ground (arith, drop_token-char_count s)

abbrev first_size : Option (String × String) → ℕ
first_size none = 0
first_size (some (a, b)) = char_count a

module _ (c : Char) (p : String) where
  abbrev prefix : String
  prefix = String.◌∷◌ c p

  split_first-char_count :
      (s a b : String) → split_first prefix s ≡ some (a, b) → char_count b < char_count s
  unfolding split_first
  split_first-char_count String.[] a b e = cc
  split_first-char_count (String.◌∷◌ d s) a b e =
      elim (Option-cases (after_prefix prefix (String.◌∷◌ d s))) [
        | inl later ↦ elim (Option-cases (split_first prefix s)) [
          | inl lacks ↦ absurd (cc)
          | inr ((a', b'), found) ↦
              let shorter = split_first-char_count s a' b' found in ground arith
        ]
        | inr (rest, fits) ↦
            let shorter = after_prefix-char_count prefix (String.◌∷◌ d s) rest fits in ground arith
      ]

  split_first-here :
      (d : Char) (s rest : String)
      → after_prefix prefix (String.◌∷◌ d s) ≡ some rest
      → split_first prefix (String.◌∷◌ d s) ≡ some (String.[], rest)
  unfolding split_first
  split_first-here d s rest fits = ground (arith, fits)

  -- The first occurrence stays where it is when the text goes on.
  split_first-append :
      (a x : String)
      → split_first prefix (String.◌++◌ a prefix) ≡ some (a, String.[])
      → split_first prefix (String.◌++◌ a (String.◌++◌ prefix x)) ≡ some (a, x)
  unfolding split_first
  split_first-append String.[] x e =
      rw (nil-append (String.◌++◌ prefix x), cons-append c p x)
        (let here : after_prefix prefix (String.◌∷◌ c (String.◌++◌ p x)) ≡ some x =
            ap (after_prefix prefix) (sym (cons-append c p x)) ∙ after_prefix-append prefix x in
          ground (arith))
  split_first-append (String.◌∷◌ d a) x e =
      let e' : split_first prefix (String.◌∷◌ d (String.◌++◌ a prefix))
          ≡ some (String.◌∷◌ d a, String.[]) =
        ap (split_first prefix) (sym (cons-append d a prefix)) ∙ e in
      let misses : after_prefix prefix (String.◌∷◌ d (String.◌++◌ a prefix)) ≡ none =
        elim (Option-cases (after_prefix prefix (String.◌∷◌ d (String.◌++◌ a prefix)))) [
          | inl m ↦ m
          | inr (rest, fits) ↦
              let clash = sym (split_first-here d _ rest fits) ∙ e' in
              let sizes : 0 ≡ char_count a + 1 = ap first_size clash in absurd (omega arith)
        ] in
      let later : split_first prefix (String.◌++◌ a prefix) ≡ some (a, String.[]) =
        elim (Option-cases (split_first prefix (String.◌++◌ a prefix))) [
          | inl lacks ↦ absurd (ground arith)
          | inr ((a', b'), found) ↦ ground arith
        ] in
      let still : after_prefix prefix (String.◌∷◌ d (String.◌++◌ a (String.◌++◌ prefix x))) ≡ none =
        ap (after_prefix prefix) (sym (cons-append d a (String.◌++◌ prefix x)))
        ∙ after_prefix-later prefix (String.◌∷◌ d a) prefix x
            (ap (after_prefix prefix) (cons-append d a prefix) ∙ misses) (omega arith) in
      let found = split_first-append a x later in
      rw (cons-append d a (String.◌++◌ prefix x)) (ground arith)

  redact_rounds-enough :
      (n m : ℕ) (r s : String)
      → char_count s ≤ n
      → char_count s ≤ m
      → redact_rounds n prefix r s ≡ redact_rounds m prefix r s
  unfolding redact_rounds split_first
  redact_rounds-enough zero zero r s hn hm = refl
  redact_rounds-enough zero (suc m) r String.[] hn hm = refl
  redact_rounds-enough zero (suc m) r (String.◌∷◌ d s) hn hm = absurd (omega arith)
  redact_rounds-enough (suc n) zero r String.[] hn hm = refl
  redact_rounds-enough (suc n) zero r (String.◌∷◌ d s) hn hm = absurd (omega arith)
  redact_rounds-enough (suc n) (suc m) r s hn hm = elim (Option-cases (split_first prefix s)) [
    | inl lacks ↦ rw (lacks, redact_rounds) refl
    | inr ((a, b), found) ↦
        let shorter = split_first-char_count s a b found in
        let dropped = drop_token-char_count b in
        rw (found, redact_rounds)
          (ap (λ t. String.◌++◌ a (String.◌++◌ r t))
            (redact_rounds-enough n m r (drop_token b) (omega arith) (omega arith)))
  ]

  -- For a prefix that is not empty and any replacement: where the prefix occurs first in a text, it and the
  -- token behind it are replaced, whatever the token is, and the text that follows the token is redacted
  -- in the same way. So what is left depends on no character of the token.
  pub redact_pattern-hides :
      (replacement a token b : String)
      → split_first prefix (String.◌++◌ a prefix) ≡ some (a, String.[])
      → is_token token ≡ true
      → ends_token b ≡ true
      → redact_pattern prefix replacement (String.◌++◌ a (String.◌++◌ prefix (String.◌++◌ token b)))
        ≡ String.◌++◌ a (String.◌++◌ replacement (redact_pattern prefix replacement b))
  unfolding redact_pattern redact_rounds
  redact_pattern-hides r a token b first is_tok ends =
      let behind = String.◌++◌ token b in
      let s = String.◌++◌ a (String.◌++◌ prefix behind) in
      let found = split_first-append a behind first in
      let dropped = drop_token-append token b is_tok ends in
      let shorter = split_first-char_count s a behind found in
      let still = drop_token-char_count behind in
      let small : char_count b ≤ char_count s =
        let same : char_count (drop_token behind) ≡ char_count b = ap char_count dropped in
        omega arith in
      redact_rounds-enough (char_count s) (suc (char_count s)) r s (omega arith) (omega arith)
      ∙ rw (found, redact_rounds)
          (rw dropped (
            ap (λ t. String.◌++◌ a (String.◌++◌ r t))
              (redact_rounds-enough (char_count s) (char_count b) r b small (omega arith))))
