-- ===== src/Prelude/Bytes.antt =====
-- The functions of Go's `strings` package that the program uses, over byte lists.
use Prim.Native.Nat.{ℕ, ◌+◌}
use mathlib.Core.Path.{◌≡◌, refl}
use mathlib.Core.Bool.{Bool, true, false, ◌&&◌, ◌||◌}
use mathlib.Core.Option.{Option, none, some}
use mathlib.Core.List.{List, [], ◌∷◌, ◌++◌}
use native.Mathlib.Omega.{arith}
use adtp.Prelude.Tests.{leb, if◌then◌else◌}
use adtp.Prelude.Strings.{Text, codes, ◌==◌, ℕ-eq, eq_refl, eq_iff}

-- The text behind a prefix: strings.HasPrefix, with what follows.
unfoldable pub strip_prefix : Text → Text → Option Text
strip_prefix [] s = some s
strip_prefix (p ∷ ps) [] = none
strip_prefix (p ∷ ps) (c ∷ s) = let rest = strip_prefix ps s in if p == c then rest else none

-- What stands before and behind the first occurrence: strings.Index, for a separator that is not
-- empty.
unfoldable pub cut : Text → Text → Option (Text × Text)
unfolding strip_prefix
cut sep [] = none
cut sep (c ∷ s) = elim (strip_prefix sep (c ∷ s)) [
  | some rest ↦ some ([], rest)
  | none ↦ elim (cut sep s) [ none ↦ none | some (a, b) ↦ some (c ∷ a, b) ]
]

-- What stands before the first such byte, and the text from there on: strings.IndexByte.
unfoldable pub break_at : ℕ → Text → Text × Text
break_at b [] = ([], [])
break_at b (c ∷ s) =
    let (before, from) = break_at b s in if c == b then ([], c ∷ s) else (c ∷ before, from)

-- What stands before and behind the last such byte: strings.LastIndexByte.
unfoldable pub cut_last : ℕ → Text → Option (Text × Text)
cut_last b [] = none
cut_last b (c ∷ s) = elim (cut_last b s) [
  | some (before, behind) ↦ some (c ∷ before, behind)
  | none ↦ if c == b then some ([], s) else none
]

-- strings.Split by one byte: never an empty list.
abbrev cons_head : ℕ → List Text → List Text
cons_head c [] = (c ∷ []) ∷ []
cons_head c (w ∷ ws) = (c ∷ w) ∷ ws

unfoldable pub split_on : ℕ → Text → List Text
split_on b [] = [] ∷ []
split_on b (c ∷ s) = let rest = split_on b s in if c == b then [] ∷ rest else cons_head c rest

-- strings.ContainsRune of an ASCII rune, strings.IndexByte ≥ 0.
unfoldable pub has_byte : ℕ → Text → Bool
has_byte b [] = false
has_byte b (c ∷ s) = (c == b) || has_byte b s

unfoldable pub all_bytes : (ℕ → Bool) → Text → Bool
all_bytes p [] = true
all_bytes p (c ∷ s) = p c && all_bytes p s

abbrev pub in_range : ℕ → ℕ → ℕ → Bool
in_range lo hi c = leb lo c && leb c hi

unfoldable pub lower_byte : ℕ → ℕ
lower_byte c = if in_range b'A' b'Z' c then c + 32 else c

-- strings.ToLower. Two code points beyond ASCII have an ASCII lower case: U+0130 (bytes 0xC4 0xB0) becomes
-- i, and U+212A (0xE2 0x84 0xAA) becomes k. All others stay beyond ASCII, and are left as they are.
unfoldable pub to_lower : Text → Text
unfolding lower_byte
to_lower [] = []
to_lower (a ∷ []) = lower_byte a ∷ []
to_lower (a ∷ b ∷ []) =
    if (a == 0xC4) && (b == 0xB0) then b'i' ∷ [] else lower_byte a ∷ to_lower (b ∷ [])
to_lower (a ∷ b ∷ c ∷ s) = elim ((a == 0xC4) && (b == 0xB0)) [
  | true ↦ b'i' ∷ to_lower (c ∷ s)
  | false ↦ elim ((a == 0xE2) && (b == 0x84) && (c == 0xAA)) [
    | true ↦ b'k' ∷ to_lower s
    | false ↦ lower_byte a ∷ to_lower (b ∷ c ∷ s)
  ]
]

abbrev pub drop_last {ℓ} : {A : Type ℓ} → List A → List A
drop_last [] = []
drop_last (x ∷ []) = []
drop_last (x ∷ y ∷ xs) = x ∷ drop_last (y ∷ xs)

to_lower_kelvin : to_lower (0xE2 ∷ 0x84 ∷ 0xAA ∷ codes "EY") ≡ codes "key"
unfolding to_lower
to_lower_kelvin = refl

split_on_path : split_on b'/' (codes "/a//b") ≡ [] ∷ codes "a" ∷ [] ∷ codes "b" ∷ []
unfolding split_on
split_on_path = refl

pub strip_prefix-append : (p s : Text) → strip_prefix p (p ++ s) ≡ some s
unfolding strip_prefix
strip_prefix-append [] s = refl
strip_prefix-append (c ∷ p) s = rw (eq_refl c) (strip_prefix-append p s)

pub append-strip_prefix : (p s rest : Text) → strip_prefix p s ≡ some rest → p ++ rest ≡ s
unfolding strip_prefix
append-strip_prefix [] s rest h = cc
append-strip_prefix (c ∷ p) [] rest h = cc
append-strip_prefix (c ∷ p) (a ∷ s) rest h =
    ground (arith, eq_iff c a, append-strip_prefix p s rest)
