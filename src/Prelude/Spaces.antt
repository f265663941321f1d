-- ===== src/Prelude/Spaces.antt =====
-- White space, and the texts that Go's `strings` and `strconv` read past it: TrimSpace, Atoi.
-- White space is ASCII's, or in UTF-8 one of U+0085, U+00A0, U+1680, U+2000 to U+200A, U+2028, U+2029,
-- U+202F, U+205F and U+3000.
use Prim.Native.Nat.{ℕ, ◌+◌, ◌*◌, ◌-◌, ◌^◌}
use mathlib.Core.Path.{◌≡◌, refl}
use mathlib.Core.Bool.{Bool, true, false, ◌&&◌, ◌||◌}
use mathlib.Core.Option.{Option, none, some}
use mathlib.Core.List.{[], ◌∷◌, reverse}
use adtp.Prelude.Tests.{ltb, leb, if◌then◌else◌}
use adtp.Prelude.Strings.{Text, codes, ◌==◌, ℕ-eq}
use adtp.Prelude.Int.{ℤ, pos, negsuc}
use adtp.Prelude.Bytes.{in_range}

unfoldable pub is_space : ℕ → Bool
is_space c = in_range 9 13 c || c == b' '

unfoldable pub is_space2 : ℕ → ℕ → Bool
is_space2 a b = (a == 0xC2) && ((b == 0x85) || (b == 0xA0))

unfoldable pub is_space3 : ℕ → ℕ → ℕ → Bool
is_space3 a b c =
    (a == 0xE1) && (b == 0x9A) && (c == 0x80)
    || (a == 0xE2) && (b == 0x80) && (in_range 0x80 0x8A c || c == 0xA8 || c == 0xA9 || c == 0xAF)
    || (a == 0xE2) && (b == 0x81) && (c == 0x9F)
    || (a == 0xE3) && (b == 0x80) && (c == 0x80)

-- A text behind its leading white space; `two` and `three` say which pairs and triples are one space.
skip : (ℕ → ℕ → Bool) → (ℕ → ℕ → ℕ → Bool) → Text → Text
unfolding is_space
skip two three [] = []
skip two three (a ∷ []) = if is_space a then [] else a ∷ []
skip two three (a ∷ b ∷ []) = elim (is_space a) [
  | true ↦ skip two three (b ∷ [])
  | false ↦ if two a b then [] else a ∷ b ∷ []
]
skip two three (a ∷ b ∷ c ∷ s) = elim (is_space a) [
  | true ↦ skip two three (b ∷ c ∷ s)
  | false ↦ elim (two a b) [
    | true ↦ skip two three (c ∷ s)
    | false ↦ elim (three a b c) [ true ↦ skip two three s | false ↦ a ∷ b ∷ c ∷ s ]
  ]
]

-- strings.TrimSpace
unfoldable pub trim_space : Text → Text
unfolding skip is_space2 is_space3
trim_space s =
    let behind = reverse (skip is_space2 is_space3 s) in
    reverse (skip (λ b a. is_space2 a b) (λ c b a. is_space3 a b c) behind)

-- The value of a text of decimal digits.
digits_value : ℕ → Text → Option ℕ
digits_value n [] = some n
digits_value n (c ∷ s) =
    let rest = digits_value (n * 10 + (c - b'0')) s in if in_range b'0' b'9' c then rest else none

unfoldable pub non_empty_value : Text → Option ℕ
unfolding digits_value
non_empty_value [] = none
non_empty_value (c ∷ s) = digits_value 0 (c ∷ s)

positive : Option ℕ → Option ℤ
positive none = none
positive (some n) = if ltb n (2 ^ 63) then some (pos n) else none

negative : Option ℕ → Option ℤ
negative none = none
negative (some n) =
    if n == 0 then some (pos 0) else if leb n (2 ^ 63) then some (negsuc (n - 1)) else none

-- strconv.Atoi, and strconv.ParseInt to base 10 and 64 bits: a sign at most, then digits.
unfoldable pub atoi : Text → Option ℤ
unfolding non_empty_value positive negative
atoi [] = none
atoi (c ∷ s) =
    if c == b'-'
    then negative (non_empty_value s)
    else if c == b'+'
    then positive (non_empty_value s)
    else positive (non_empty_value (c ∷ s))

trims : trim_space (codes "  a b \t") ≡ codes "a b"
unfolding trim_space
trims = refl

trims_wide : trim_space (0xC2 ∷ 0xA0 ∷ b'k' ∷ 0xE2 ∷ 0x80 ∷ 0x83 ∷ []) ≡ codes "k"
unfolding trim_space
trims_wide = refl

reads_numbers :
    (atoi (codes "-8080") ≡ some (negsuc 8079))
    × (atoi (codes "9223372036854775808") ≡ none)
    × (atoi (codes "+") ≡ none)
unfolding atoi
reads_numbers = (refl, refl, refl)
