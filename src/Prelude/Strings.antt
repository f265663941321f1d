-- ===== src/Prelude/Strings.antt =====
-- Comparable types, and Go strings: a Go string is its bytes, a list of numbers below 256.
use Prim.Native.Nat.{ℕ}
use Prim.Native.Char.{code}
use Prim.Native.String.{String}
use mathlib.Core.Path.{◌≡◌, refl}
use mathlib.Core.Logic.{◌↔◌}
use mathlib.Core.Bool.{Bool, true, false, ◌&&◌}
use mathlib.Core.List.{List, [], ◌∷◌}
use native.Mathlib.Omega.{arith}
use adtp.Prelude.Tests.{nat_eq, nat_eq_iff}

infix 50 ◌==◌
-- Go's `==` at one type, with what it decides.
pub record Eq {ℓ} (T : Type ℓ) : Type ℓ where
  pub beq : T → T → Bool
  pub beq_iff : (x y : T) → (beq x y ≡ true) ↔ (x ≡ y)

abbrev pub ◌==◌ {ℓ} : {T : Type ℓ} ⦃cmp : Eq T⦄ → T → T → Bool
◌==◌ ⦃cmp⦄ x y = cmp.beq x y

instance abbrev pub ℕ-eq : Eq ℕ
ℕ-eq = record { beq = nat_eq; beq_iff = nat_eq_iff }

abbrev pub Text : Type 0
Text = List ℕ

-- The bytes of a literal (ASCII only).
abbrev pub codes : String → Text
codes String.[] = []
codes (String.◌∷◌ c s) = code c ∷ codes s

unfoldable pub text_eq : Text → Text → Bool
text_eq [] [] = true
text_eq (a ∷ s) (b ∷ t) = nat_eq a b && text_eq s t
text_eq _ _ = false

pub text_eq_iff : (s t : Text) → (text_eq s t ≡ true) ↔ (s ≡ t)
unfolding text_eq
text_eq_iff [] [] = (λ _. refl, λ _. refl)
text_eq_iff [] (b ∷ t) = ground arith
text_eq_iff (a ∷ s) [] = ground arith
text_eq_iff (a ∷ s) (b ∷ t) = ground (arith, text_eq_iff s t)

instance abbrev pub Text-eq : Eq Text
Text-eq = record { beq = text_eq; beq_iff = text_eq_iff }

module _ {ℓ} {A : Type ℓ} ⦃e : Eq A⦄ where
  pub eq_refl : (a : A) → (a == a) ≡ true
  eq_refl a = (e.beq_iff a a).1 refl

  pub eq_iff : (a b : A) → ((a == b) ≡ true) ↔ (a ≡ b)
  eq_iff a b = e.beq_iff a b
