-- ===== src/Timestamps/Order.antt =====
-- The order of timestamp texts against the order of time.
use cocopilot.Prelude.{
  ℕ, ◌+◌, ◌/◌, ◌%◌, ◌<◌, ◌≡◌, ◌≢◌, refl, true, false, List, [], ◌∷◌, arith, ltb, some, sym, map,
  ◌++◌, ==_iff,
}
use cocopilot.Timestamps.{
  seconds, micros, six_digits, without_trailing_zeros, fraction_text, dotted, text_ltb, stamp_ltb,
  is_stale, is_lease_active_at, lease_duration,
}

-- The texts of two times in different seconds are ordered as the times are.
pub stamp_ltb-seconds : (a b : ℕ) → seconds a ≢ seconds b → stamp_ltb a b ≡ ltb a b
unfolding stamp_ltb
stamp_ltb-seconds a b h = ground arith

-- A lease that is created or renewed now is active now.
pub lease_starts_active : (now : ℕ) → is_stale now (now + lease_duration) ≡ false
unfolding is_stale
lease_starts_active now =
    rw (stamp_ltb-seconds now (now + lease_duration) (omega arith)) (ground arith)

without_trailing_zeros-nil :
    (d : ℕ) (ds : List ℕ)
    → without_trailing_zeros (d ∷ ds) ≡ []
    → (d ≡ 0) × (without_trailing_zeros ds ≡ [])
unfolding without_trailing_zeros
without_trailing_zeros-nil d ds h = ground arith

digits_zero :
    (a b c d e f : ℕ)
    → without_trailing_zeros (a ∷ b ∷ c ∷ d ∷ e ∷ f ∷ []) ≡ []
    → (a ≡ 0) × (b ≡ 0) × (c ≡ 0) × (d ≡ 0) × (e ≡ 0) × (f ≡ 0)
digits_zero a b c d e f h =
    let (ha, h1) = without_trailing_zeros-nil a (b ∷ c ∷ d ∷ e ∷ f ∷ []) h in
    let (hb, h2) = without_trailing_zeros-nil b (c ∷ d ∷ e ∷ f ∷ []) h1 in
    let (hc, h3) = without_trailing_zeros-nil c (d ∷ e ∷ f ∷ []) h2 in
    let (hd, h4) = without_trailing_zeros-nil d (e ∷ f ∷ []) h3 in
    let (he, h5) = without_trailing_zeros-nil e (f ∷ []) h4 in
    let (hf, h6) = without_trailing_zeros-nil f [] h5 in (ha, hb, hc, hd, he, hf)

six_digits-nil : (f : ℕ) → f < 1000000 → without_trailing_zeros (six_digits f) ≡ [] → f ≡ 0
unfolding six_digits
six_digits-nil f b h =
    let z =
      digits_zero (f / 100000 % 10) (f / 10000 % 10) (f / 1000 % 10) (f / 100 % 10) (f / 10 % 10)
        (f % 10) h in
    omega arith

dotted_first : (ds : List ℕ) → ds ≢ [] → (rest : List ℕ) × (dotted ds ≡ b'.' ∷ rest)
dotted_first [] h = absurd (h refl)
dotted_first (d ∷ ds) h = (map (λ x. b'0' + x) (d ∷ ds) ++ b'Z' ∷ [], refl)

zero_digits : dotted (without_trailing_zeros (six_digits 0)) ≡ b'Z' ∷ []
unfolding six_digits without_trailing_zeros
zero_digits = refl

z_after_dot : (text rest : List ℕ) → text ≡ b'.' ∷ rest → text_ltb (b'Z' ∷ []) text ≡ false
unfolding text_ltb
z_after_dot text rest e = rw e

fraction-zero : (t : ℕ) → micros t ≡ 0 → fraction_text (micros t) ≡ b'Z' ∷ []
unfolding fraction_text
fraction-zero t h = rw h zero_digits

fraction-dot : (t : ℕ) → micros t ≢ 0 → (rest : List ℕ) × (fraction_text (micros t) ≡ b'.' ∷ rest)
unfolding fraction_text
fraction-dot t h = dotted_first _ (λ e. h (six_digits-nil (micros t) (omega arith) e))

stamp_ltb_same :
    (a b : ℕ)
    → seconds b ≡ seconds a
    → stamp_ltb a b ≡ text_ltb (fraction_text (micros a)) (fraction_text (micros b))
unfolding stamp_ltb
stamp_ltb_same a b h = rw ((==_iff (seconds a) (seconds b)).1 (sym h))

-- A lease that expires within a second counts as stale at that second's start, though it has not
-- expired: the text of a whole second has no fraction, and "Z" sorts after ".".
pub whole_second_is_late :
    (now expires_at : ℕ)
    → micros now ≡ 0
    → seconds expires_at ≡ seconds now
    → now < expires_at
    → (is_stale now expires_at ≡ true) × (is_lease_active_at (some expires_at) now ≡ false)
unfolding is_stale is_lease_active_at
whole_second_is_late now expires_at whole same later =
    let (rest, dot) = fraction-dot expires_at (λ e. absurd (omega arith)) in
    let late : stamp_ltb now expires_at ≡ false =
      rw (stamp_ltb_same now expires_at same, fraction-zero now whole) (z_after_dot _ rest dot) in
    (rw late, late)
