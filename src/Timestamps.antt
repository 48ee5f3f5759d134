-- ===== src/Timestamps.antt =====
-- internal/models/models.go: LeaseTimeFormat, NowISO and the lease test. A time is its count of
-- microseconds. Its text is the date and time to the second, nineteen characters wide for the years
-- 0001 to 9999, then the fraction without trailing zeros (none at all if it is 0), then "Z". SQLite
-- compares such columns as text. The part to the second is kept as a number, since fixed-width
-- digits are ordered as numbers are; the rest is kept as its characters.
pub mod Order
mod Examples
use cocopilot.Prelude.{
  ℕ, ◌+◌, ◌/◌, ◌%◌, Bool, true, false, not, Option, none, some, List, [], ◌∷◌, ◌++◌, map, ltb, ◌==◌,
  if◌then◌else◌,
}

abbrev pub seconds : ℕ → ℕ
seconds t = t / 1000000

abbrev pub micros : ℕ → ℕ
micros t = t % 1000000

unfoldable pub six_digits : ℕ → List ℕ
six_digits f =
    (f / 100000 % 10)
    ∷ (f / 10000 % 10)
    ∷ (f / 1000 % 10)
    ∷ (f / 100 % 10)
    ∷ (f / 10 % 10)
    ∷ (f % 10)
    ∷ []

abbrev cons_unless_zero : ℕ → List ℕ → List ℕ
cons_unless_zero d [] = if d == 0 then [] else d ∷ []
cons_unless_zero d (e ∷ ds) = d ∷ e ∷ ds

unfoldable pub without_trailing_zeros : List ℕ → List ℕ
without_trailing_zeros [] = []
without_trailing_zeros (d ∷ ds) = cons_unless_zero d (without_trailing_zeros ds)

abbrev pub dotted : List ℕ → List ℕ
dotted [] = b'Z' ∷ []
dotted (d ∷ ds) = b'.' ∷ map (λ x. b'0' + x) (d ∷ ds) ++ b'Z' ∷ []

-- What `.999999Z` of the layout prints.
unfoldable pub fraction_text : ℕ → List ℕ
unfolding six_digits without_trailing_zeros
fraction_text f = dotted (without_trailing_zeros (six_digits f))

unfoldable pub text_ltb : List ℕ → List ℕ → Bool
text_ltb [] [] = false
text_ltb [] (y ∷ ys) = true
text_ltb (x ∷ xs) [] = false
text_ltb (x ∷ xs) (y ∷ ys) = if x == y then text_ltb xs ys else ltb x y

-- `a < b` between two timestamp columns, or two Go strings in this format.
unfoldable pub stamp_ltb : ℕ → ℕ → Bool
unfolding fraction_text text_ltb
stamp_ltb a b =
    if seconds a == seconds b
    then text_ltb (fraction_text (micros a)) (fraction_text (micros b))
    else ltb (seconds a) (seconds b)

-- `expires_at <= now`; a lease is active where this fails.
unfoldable pub is_stale : ℕ → ℕ → Bool
is_stale now expires_at = not (stamp_ltb now expires_at)

-- IsLeaseActiveAt; an empty text is `none`.
unfoldable pub is_lease_active_at : Option ℕ → ℕ → Bool
is_lease_active_at none at = false
is_lease_active_at (some expires_at) at = stamp_ltb at expires_at

-- A lease runs for fifteen minutes.
abbrev pub lease_duration : ℕ
lease_duration = 900000000
