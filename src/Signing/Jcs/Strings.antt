-- ===== src/Signing/Jcs/Strings.antt =====
-- The text that writeString writes can be read back: it says where it ends, and of which string it is.
use mathlib.Core.List.{append_assoc}
use adtp.Prelude.{
  ℕ, ◌+◌, ◌-◌, ◌*◌, ◌/◌, ◌%◌, ◌<◌, ◌≡◌, refl, sym, ap, ap₂, subst, ◌∙◌, inl, inr, true, Option,
  none, some, [], ◌∷◌, ◌++◌, arith, ltb, Text, ℕ-eq, ◌==◌, eq_iff, if◌then◌else◌, in_range,
  Bool-cases,
}
use adtp.Signing.Jcs.{hex_digit, escape, escape_all, write_string}

from_hex : ℕ → ℕ
from_hex c = if in_range b'0' b'9' c then c - 48 else c - 87

-- The byte behind a backslash.
simple : ℕ → ℕ
simple e =
    if e == b'b'
    then 8
    else if e == b't'
    then 9
    else if e == b'n'
    then 10
    else if e == b'f'
    then 12
    else if e == b'r'
    then 13
    else e

from_u : Text → Option (ℕ × Text)
unfolding from_hex
from_u (z ∷ y ∷ h ∷ l ∷ s) = some (from_hex h * 16 + from_hex l, s)
from_u s = none

from_backslash : Text → Option (ℕ × Text)
unfolding from_u simple
from_backslash [] = none
from_backslash (e ∷ s) = if e == b'u' then from_u s else some (simple e, s)

-- The first byte of a string's contents, and what follows; none at the closing quote.
first_byte : Text → Option (ℕ × Text)
unfolding from_backslash
first_byte [] = none
first_byte (c ∷ s) =
    if c == b'"' then none else if c == b'\\' then from_backslash s else some (c, s)

from_hex-hex_digit : (d : ℕ) → d < 16 → from_hex (hex_digit d) ≡ d
unfolding from_hex hex_digit
from_hex-hex_digit d h = ground arith

split_16 : (b : ℕ) → b < 32 → (b / 16) * 16 + b % 16 ≡ b
split_16 b h = omega arith

below_true : (a b : ℕ) → ltb a b ≡ true → a < b
below_true a b h = ground arith

two_digits :
    (b : ℕ) → b < 32 → from_hex (hex_digit (b / 16)) * 16 + from_hex (hex_digit (b % 16)) ≡ b
two_digits b h =
    ap₂ (λ x y. x * 16 + y) (from_hex-hex_digit (b / 16) (omega arith))
      (from_hex-hex_digit (b % 16) (omega arith))
    ∙ split_16 b h

module _ (b : ℕ) (t : Text) where
  -- The claim at a byte that has its own escape.
  at :
      (k : ℕ)
      → first_byte (escape k ++ t) ≡ some (k, t)
      → (b == k) ≡ true
      → first_byte (escape b ++ t) ≡ some (b, t)
  at k h q = subst (λ x. first_byte (escape x ++ t) ≡ some (x, t)) (sym ((eq_iff b k).0 q)) h

  first_byte-escape : first_byte (escape b ++ t) ≡ some (b, t)
  unfolding first_byte escape
  first_byte-escape = elim (Bool-cases (b == b'"')) [
    | inl q ↦ at b'"' refl q
    | inr n1 ↦ elim (Bool-cases (b == b'\\')) [
      | inl q ↦ at b'\\' refl q
      | inr n2 ↦ elim (Bool-cases (b == 8)) [
        | inl q ↦ at 8 refl q
        | inr n3 ↦ elim (Bool-cases (b == 9)) [
          | inl q ↦ at 9 refl q
          | inr n4 ↦ elim (Bool-cases (b == 10)) [
            | inl q ↦ at 10 refl q
            | inr n5 ↦ elim (Bool-cases (b == 12)) [
              | inl q ↦ at 12 refl q
              | inr n6 ↦ elim (Bool-cases (b == 13)) [
                | inl q ↦ at 13 refl q
                | inr n7 ↦ elim (Bool-cases (ltb b 0x20)) [
                  | inl l ↦ rw n1 (
                      rw n2 (
                        rw n3 (
                          rw n4 (
                            rw n5 (
                              rw n6 (
                                rw n7 (
                                  rw l (
                                    ap (λ n. some (n, t)) (two_digits b (below_true b 32 l))))))))))
                  | inr g ↦
                      rw n1
                        (rw n2 (rw n3 (rw n4 (rw n5 (rw n6 (rw n7 (rw g (rw n1 (rw n2 refl)))))))))
                ]
              ]
            ]
          ]
        ]
      ]
    ]
  ]

none-ne-some : {a : ℕ × Text} → ◌≡◌ {A = Option (ℕ × Text)} none (some a) → ⊥
none-ne-some h = cc

first_byte-quote : (t : Text) → first_byte (b'"' ∷ t) ≡ none
unfolding first_byte
first_byte-quote t = refl

same_pair :
    {a b : ℕ} {s t : Text}
    → ◌≡◌ {A = Option (ℕ × Text)} (some (a, s)) (some (b, t))
    → (a ≡ b) × (s ≡ t)
same_pair h = (pair_byte h, pair_rest h)
  where
    pair_byte :
        {a b : ℕ} {s t : Text} → ◌≡◌ {A = Option (ℕ × Text)} (some (a, s)) (some (b, t)) → a ≡ b
    pair_byte h = cc

    pair_rest :
        {a b : ℕ} {s t : Text} → ◌≡◌ {A = Option (ℕ × Text)} (some (a, s)) (some (b, t)) → s ≡ t
    pair_rest h = cc

-- An escaped byte is not the closing quote.
ends : (b : ℕ) (s r : Text) → b'"' ∷ r ≡ escape b ++ s → ⊥
ends b s r h = none-ne-some (sym (first_byte-quote r) ∙ ap first_byte h ∙ first_byte-escape b s)

contents :
    (s t r u : Text) → escape_all s ++ b'"' ∷ r ≡ escape_all t ++ b'"' ∷ u → (s ≡ t) × (r ≡ u)
unfolding escape_all
contents [] [] r u h = (refl, cc)
contents [] (b ∷ t) r u h =
    absurd (ends b _ r (h ∙ append_assoc (escape b) (escape_all t) (b'"' ∷ u)))
contents (a ∷ s) [] r u h =
    absurd (ends a _ u (sym h ∙ append_assoc (escape a) (escape_all s) (b'"' ∷ r)))
contents (a ∷ s) (b ∷ t) r u h =
    let (same, rest) = same_pair (
      sym (first_byte-escape a (escape_all s ++ b'"' ∷ r))
      ∙ ap first_byte (
          sym (append_assoc (escape a) (escape_all s) (b'"' ∷ r))
          ∙ h
          ∙ append_assoc (escape b) (escape_all t) (b'"' ∷ u))
      ∙ first_byte-escape b (escape_all t ++ b'"' ∷ u)) in
    let (tail, after) = contents s t r u rest in (ap₂ (λ x xs. x ∷ xs) same tail, after)

drop_first : Text → Text
drop_first [] = []
drop_first (c ∷ s) = s

-- Two strings that writeString writes at the head of one text are one string, and what follows is the same: a
-- literal is of one string only, and none is the beginning of another.
pub write_string_injective :
    (s t r u : Text) → write_string s ++ r ≡ write_string t ++ u → (s ≡ t) × (r ≡ u)
unfolding write_string drop_first
write_string_injective s t r u h = contents s t r u (
    sym (append_assoc (escape_all s) (b'"' ∷ []) r)
    ∙ ap drop_first h
    ∙ append_assoc (escape_all t) (b'"' ∷ []) u)
