-- ===== src/Identity/Digits.antt =====
-- Positional notation, most significant digit first: math/big's SetBytes and Bytes, and the digit
-- loops of internal/identity/base58.go. Leading zeros are counted apart, as base58 does.
use mathlib.Core.List.{reverse, reverse-cons}
use adtp.Prelude.{
  ℕ, zero, suc, ◌+◌, ◌*◌, ◌/◌, ◌%◌, ◌≤◌, ◌<◌, ◌≡◌, refl, sym, ap, subst, ◌∙◌, inl, inr, List, [],
  ◌∷◌, ◌++◌, arith, All, ℕ-eq, ◌==◌, if◌then◌else◌, Bool-cases,
}

-- The digits of `x`, the least significant first. Each round makes `x` smaller, so `x` rounds are enough.
unfoldable pub le_digits : ℕ → ℕ → ℕ → List ℕ
le_digits base zero x = []
le_digits base (suc rounds) x =
    let rest = le_digits base rounds (x / base) in if x == 0 then [] else x % base ∷ rest

-- The digits of `x`, none for 0.
unfoldable pub be_digits : ℕ → ℕ → List ℕ
unfolding le_digits
be_digits base x = reverse (le_digits base x x)

-- The number that digits stand for, behind `acc`.
unfoldable pub value_from : ℕ → ℕ → List ℕ → ℕ
value_from base acc [] = acc
value_from base acc (d ∷ ds) = value_from base (acc * base + d) ds

unfoldable pub zeros : ℕ → List ℕ
zeros zero = []
zeros (suc n) = 0 ∷ zeros n

unfoldable pub leading_zeros : List ℕ → ℕ
leading_zeros [] = 0
leading_zeros (d ∷ ds) = let rest = leading_zeros ds in if d == 0 then suc rest else 0

-- A base: division with remainder by it.
pub record IsBase (base : ℕ) : Type 0 where
  pub split : (x : ℕ) → x ≡ (x / base) * base + x % base
  pub remainder : (x : ℕ) → x % base < base
  pub shrink : (x : ℕ) → 0 < x → x / base < x
  pub quotient : (v d : ℕ) → d < base → (v * base + d) / base ≡ v
  pub rest : (v d : ℕ) → d < base → (v * base + d) % base ≡ d

pub IsBase-58 : IsBase 58
IsBase-58 = record {
  split = λ x. omega arith;
  remainder = λ x. omega arith;
  shrink = λ x h. omega arith;
  quotient = λ v d h. omega arith;
  rest = λ v d h. omega arith;
}

pub IsBase-256 : IsBase 256
IsBase-256 = record {
  split = λ x. omega arith;
  remainder = λ x. omega arith;
  shrink = λ x h. omega arith;
  quotient = λ v d h. omega arith;
  rest = λ v d h. omega arith;
}

unfoldable pub value_le : ℕ → List ℕ → ℕ
value_le base [] = 0
value_le base (d ∷ ds) = value_le base ds * base + d

value_from-snoc :
    (base acc : ℕ) (ds : List ℕ) (d : ℕ)
    → value_from base acc (ds ++ d ∷ []) ≡ value_from base acc ds * base + d
unfolding value_from
value_from-snoc base acc [] d = refl
value_from-snoc base acc (e ∷ ds) d = value_from-snoc base (acc * base + e) ds d

pub value_from-reverse :
    (base : ℕ) (ds : List ℕ) → value_from base 0 (reverse ds) ≡ value_le base ds
unfolding value_from value_le
value_from-reverse base [] = refl
value_from-reverse base (d ∷ ds) =
    ap (value_from base 0) (reverse-cons d ds)
    ∙ value_from-snoc base 0 (reverse ds) d
    ∙ ap (λ v. v * base + d) (value_from-reverse base ds)

-- No digit is too large, and the last one, the most significant, is not 0.
abbrev pub Canonical : ℕ → List ℕ → Type 0
Canonical base [] = Unit
Canonical base (d ∷ []) = (d < base) × (0 < d)
Canonical base (d ∷ e ∷ ds) = (d < base) × Canonical base (e ∷ ds)

module _ (base : ℕ) (b : IsBase base) where
  pub value-le_digits : (rounds x : ℕ) → x ≤ rounds → value_le base (le_digits base rounds x) ≡ x
  unfolding value_le le_digits
  value-le_digits zero x h = omega arith
  value-le_digits (suc rounds) x h = elim (Bool-cases (x == 0)) [
    | inl z ↦ rw z (ground arith)
    | inr p ↦ rw p (
        ap (λ v. v * base + x % base)
          (value-le_digits rounds (x / base) (ground (arith, b.shrink x)))
        ∙ sym (b.split x))
  ]

  pub le_digits-below : (rounds x : ℕ) → All (λ d. d < base) (le_digits base rounds x)
  unfolding le_digits
  le_digits-below zero x = tt
  le_digits-below (suc rounds) x = elim (Bool-cases (x == 0)) [
    | inl z ↦ rw z tt
    | inr p ↦ rw p (b.remainder x, le_digits-below rounds (x / base))
  ]

  le_digits-nil : (rounds : ℕ) → le_digits base rounds 0 ≡ []
  unfolding le_digits
  le_digits-nil zero = refl
  le_digits-nil (suc rounds) = refl

  -- Canonical digits are the digits of their value.
  Canonical-pos : (d : ℕ) (ds : List ℕ) → Canonical base (d ∷ ds) → 0 < value_le base (d ∷ ds)
  unfolding value_le
  Canonical-pos d [] (l, p) = omega arith
  Canonical-pos d (e ∷ ds) (l, c) = grind (arith, Canonical-pos e ds c, b.remainder 0)

  Canonical-parts : (d : ℕ) (ds : List ℕ) → Canonical base (d ∷ ds) → (d < base) × Canonical base ds
  Canonical-parts d [] (l, p) = (l, tt)
  Canonical-parts d (e ∷ ds) (l, c) = (l, c)

  le_digits-step :
      (rounds v d : ℕ)
      → d < base
      → 0 < v * base + d
      → le_digits base (suc rounds) (v * base + d) ≡ d ∷ le_digits base rounds v
  unfolding le_digits
  le_digits-step rounds v d l p = rw (b.quotient v d l) (rw (b.rest v d l) (ground arith))

  pub le_digits-value :
      (rounds : ℕ) (ds : List ℕ)
      → Canonical base ds
      → value_le base ds ≤ rounds
      → le_digits base rounds (value_le base ds) ≡ ds
  unfolding value_le
  le_digits-value zero [] c h = le_digits-nil zero
  le_digits-value (suc rounds) [] c h = le_digits-nil (suc rounds)
  le_digits-value zero (d ∷ ds) c h = absurd (omega (arith, Canonical-pos d ds c))
  le_digits-value (suc rounds) (d ∷ ds) c h =
      let (l, tail) = Canonical-parts d ds c in
      let p = Canonical-pos d ds c in
      let v = value_le base ds in
      let smaller : v < v * base + d =
        subst (λ t. t < v * base + d) (b.quotient v d l) (b.shrink (v * base + d) p) in
      le_digits-step rounds v d l p ∙ ap (λ t. d ∷ t) (le_digits-value rounds ds tail (omega arith))
