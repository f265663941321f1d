-- ===== src/Prelude/Lists.antt =====
-- Lists measured by native numbers, predicates on lists, and membership tests.
use Prim.Native.Nat.{ℕ, suc, ◌+◌}
use mathlib.Core.Path.{◌≡◌}
use mathlib.Core.Logic.{◌↔◌, ◌⊎◌}
use mathlib.Core.Bool.{Bool, true, false, ◌||◌}
use mathlib.Core.List.{List, [], ◌∷◌, ◌++◌}
use native.Mathlib.Omega.{arith}
use adtp.Prelude.Strings.{Eq, ◌==◌, eq_iff}

module _ {ℓ} {A : Type ℓ} where
  abbrev pub length : List A → ℕ
  length [] = 0
  length (x ∷ xs) = suc (length xs)

  pub length-append : (xs ys : List A) → length (xs ++ ys) ≡ length xs + length ys
  length-append [] ys = omega arith
  length-append (x ∷ xs) ys = omega (arith, length-append xs ys)

abbrev pub All {ℓ κ} : {A : Type ℓ} → (A → Type κ) → List A → Type κ
All P [] = Unit
All P (x ∷ xs) = P x × All P xs

-- Occurrence by recursion, which the tactics take apart.
abbrev pub Occurs : {A : Type 0} → A → List A → Type 0
Occurs a [] = ⊥
Occurs a (x ∷ xs) = (a ≡ x) ⊎ Occurs a xs

pub All-append {ℓ κ} :
    {A : Type ℓ} (Good : A → Type κ) (front back : List A)
    → All Good front
    → All Good back
    → All Good (front ++ back)
All-append Good [] back g h = h
All-append Good (x ∷ front) back (here, g) h = (here, All-append Good front back g h)

module _ {ℓ} {A : Type ℓ} ⦃e : Eq A⦄ where
  -- `a` is among the keys of a Go map used as a set.
  unfoldable pub contains : List A → A → Bool
  contains [] a = false
  contains (x ∷ xs) a = (x == a) || contains xs a

-- The Boolean test decides occurrence.
pub contains_iff :
    {A : Type 0} ⦃e : Eq A⦄ (xs : List A) (a : A) → (contains xs a ≡ true) ↔ Occurs a xs
unfolding contains
contains_iff [] a = ground arith
contains_iff (x ∷ xs) a = (
  λ h. ground (arith, eq_iff x a, contains_iff xs a),
  λ h. ground (arith, eq_iff x a, contains_iff xs a),
)
