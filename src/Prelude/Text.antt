-- ===== src/Prelude/Text.antt =====
-- The functions of Go's `strings` package that the models use, over lists of characters.
use Prim.Native.Char.{Char, code}
use Prim.Native.Nat.{ℕ, zero, suc, ◌+◌, ◌-◌, ◌%◌, ◌/◌}
use Prim.Native.String.{String, char_at}
use mathlib.Core.Bool.{Bool, true, false, ◌||◌, ◌&&◌}
use mathlib.Core.Option.{Option, none, some}
use mathlib.Core.List.{List, [], ◌∷◌}
use text.Mathlib.Text.{◌==◌ as str_eq}
use cocopilot.Prelude.Tests.{leb, ltb, ◌==◌, if◌then◌else◌}

-- unicode.IsSpace on the Latin-1 range; further Unicode spaces are not modelled.
abbrev is_space : Char → Bool
is_space c = let n = code c in leb 9 n && leb n 13 || n == 32 || n == 0x85 || n == 0xa0

abbrev pub trim_left : String → String
trim_left String.[] = String.[]
trim_left (String.◌∷◌ c s) = let rest = trim_left s in if is_space c then rest else String.◌∷◌ c s

abbrev cons_unless_blank : Char → String → String
cons_unless_blank c String.[] = if is_space c then String.[] else String.◌∷◌ c String.[]
cons_unless_blank c (String.◌∷◌ d s) = String.◌∷◌ c (String.◌∷◌ d s)

abbrev pub trim_right : String → String
trim_right String.[] = String.[]
trim_right (String.◌∷◌ c s) = cons_unless_blank c (trim_right s)

-- strings.TrimSpace
unfoldable pub trim_space : String → String
trim_space s = trim_right (trim_left s)

abbrev is_empty : String → Bool
is_empty String.[] = Bool.true
is_empty (String.◌∷◌ c s) = Bool.false

-- strings.TrimSpace(s) == ""
unfoldable pub is_blank : String → Bool
unfolding trim_space
is_blank s = is_empty (trim_space s)

-- What follows a prefix, `none` where the text begins otherwise: strings.HasPrefix and TrimPrefix.
abbrev pub after_prefix : String → String → Option String
after_prefix String.[] s = some s
after_prefix (String.◌∷◌ c p) String.[] = none
after_prefix (String.◌∷◌ c p) (String.◌∷◌ d s) =
    let rest = after_prefix p s in if code c == code d then rest else none

abbrev pub has_prefix : String → String → Bool
has_prefix s p = elim (after_prefix p s) [ none ↦ false | some rest ↦ true ]

-- strings.HasSuffix, for a suffix that is not empty
abbrev pub has_suffix : String → String → Bool
has_suffix String.[] suffix = false
has_suffix (String.◌∷◌ c s) suffix = str_eq (String.◌∷◌ c s) suffix || has_suffix s suffix

abbrev on_first : Char → List String → List String
on_first c [] = String.◌∷◌ c String.[] ∷ []
on_first c (part ∷ parts) = String.◌∷◌ c part ∷ parts

-- strings.Split by one character; the list is never empty.
abbrev pub split : Char → String → List String
split sep String.[] = String.[] ∷ []
split sep (String.◌∷◌ c s) =
    let parts = split sep s in if code c == code sep then String.[] ∷ parts else on_first c parts

-- parts[0] of strings.SplitN(s, sep, 2), where there are two parts
abbrev pub before : Char → String → Option String
before sep s = elim (split sep s) [
  | [] ↦ none
  | head ∷ rest ↦ elim rest [ [] ↦ none | _ ∷ _ ↦ some head ]
]

-- The text before the first occurrence of a part and the text behind it: strings.Index, with slices
unfoldable pub split_first : String → String → Option (String × String)
split_first part String.[] = elim (after_prefix part String.[]) [
  | some rest ↦ some (String.[], rest)
  | none ↦ none
]
split_first part (String.◌∷◌ c s) =
    let later = split_first part s in
    elim (after_prefix part (String.◌∷◌ c s)) [
      | some rest ↦ some (String.[], rest)
      | none ↦ elim later [ none ↦ none | some (a, b) ↦ some (String.◌∷◌ c a, b) ]
    ]

-- strings.Contains
abbrev pub contains : String → String → Bool
contains String.[] part = has_prefix String.[] part
contains (String.◌∷◌ c s) part = has_prefix (String.◌∷◌ c s) part || contains s part

abbrev lower_char : Char → Char
lower_char c =
    let n = code c in
    if leb 65 n && leb n 90 then char_at "abcdefghijklmnopqrstuvwxyz" (n - 65) else c

-- strings.ToLower, in ASCII
unfoldable pub to_lower : String → String
to_lower String.[] = String.[]
to_lower (String.◌∷◌ c s) = String.◌∷◌ (lower_char c) (to_lower s)

abbrev digits : ℕ → ℕ → String → String
digits zero n tail = tail
digits (suc fuel) n tail =
    let here = String.◌∷◌ (char_at "0123456789" (n % 10)) tail in
    let rest = digits fuel (n / 10) here in if ltb n 10 then here else rest

-- The verb %d; a number has no more digits than its value and one.
unfoldable pub decimal_text : ℕ → String
decimal_text n = digits (n + 1) n String.[]

abbrev pub char_count : String → ℕ
char_count String.[] = 0
char_count (String.◌∷◌ c s) = char_count s + 1
