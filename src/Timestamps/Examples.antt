-- ===== src/Timestamps/Examples.antt =====
-- Timestamps at concrete times.
use cocopilot.Prelude.{◌≡◌, refl, true, false, some, arith, [], ◌∷◌}
use cocopilot.Timestamps.{is_stale, is_lease_active_at, fraction_text}
use cocopilot.Timestamps.Order.{whole_second_is_late}

half_second : fraction_text 500000 ≡ b'.' ∷ b'5' ∷ b'Z' ∷ []
unfolding fraction_text
half_second = refl

whole_second_is_late_example :
    (is_stale 7000000 7500000 ≡ true) × (is_lease_active_at (some 7500000) 7000000 ≡ false)
whole_second_is_late_example = whole_second_is_late 7000000 7500000 refl refl (omega arith)
