-- ===== src/Prelude/Maps.antt =====
-- Go maps as association lists with one entry for each key.
use mathlib.Core.Path.{◌≡◌, refl, sym, ◌∙◌}
use mathlib.Core.Logic.{◌↔◌, inl, inr}
use mathlib.Core.Option.{Option, none, some}
use mathlib.Core.List.{List, [], ◌∷◌}
use native.Mathlib.Omega.{arith}
use adtp.Prelude.Tests.{if◌then◌else◌, Bool-cases}
use adtp.Prelude.Strings.{Eq, ◌==◌, eq_iff}
use adtp.Prelude.Lists.{Occurs}

module _ {ℓ} {K V : Type ℓ} ⦃e : Eq K⦄ where
  -- m[k]
  unfoldable pub lookup : K → List (K × V) → Option V
  lookup key [] = none
  lookup key ((at, held) ∷ rest) = if at == key then some held else lookup key rest

  -- m[k] = v
  unfoldable pub insert : K → V → List (K × V) → List (K × V)
  insert key new [] = (key, new) ∷ []
  insert key new ((at, held) ∷ rest) =
      if at == key then (key, new) ∷ rest else (at, held) ∷ insert key new rest

  pub lookup-insert :
      (set get : K) (new : V) (m : List (K × V))
      → lookup get (insert set new m) ≡ (if set == get then some new else lookup get m)
  unfolding lookup insert
  lookup-insert set get new [] = refl
  lookup-insert set get new ((at, held) ∷ rest) =
      ground (arith, lookup-insert set get new rest, eq_iff at set, eq_iff at get, eq_iff set get)

  -- delete(m, k)
  unfoldable pub remove : K → List (K × V) → List (K × V)
  remove key [] = []
  remove key ((at, held) ∷ rest) =
      let left = remove key rest in if at == key then left else (at, held) ∷ left

  pub lookup-remove :
      (gone get : K) (m : List (K × V))
      → lookup get (remove gone m) ≡ (if gone == get then none else lookup get m)
  unfolding lookup remove
  lookup-remove gone get [] = ground arith
  lookup-remove gone get ((at, held) ∷ rest) =
      ground (arith, lookup-remove gone get rest, eq_iff at gone, eq_iff at get, eq_iff gone get)

-- The keys, in the order of the list.
unfoldable pub keys : {K V : Type 0} → List (K × V) → List K
keys [] = []
keys ((at, held) ∷ rest) = at ∷ keys rest

-- A key stands in the list exactly if something is held there.
pub keys_iff :
    {K V : Type 0} ⦃e : Eq K⦄ (key : K) (m : List (K × V))
    → Occurs key (keys m) ↔ ((held : V) × (lookup key m ≡ some held))
unfolding keys lookup
keys_iff key [] = (λ h. absurd h, λ h. cc)
keys_iff key ((at, held) ∷ rest) = (
  λ h. elim (Bool-cases (at == key)) [
    | inl t ↦ (held, rw t refl)
    | inr f ↦ elim h [
      | inl q ↦ absurd (ground (arith, eq_iff at key))
      | inr o ↦ let (v, q) = (keys_iff key rest).0 o in (v, rw f q)
    ]
  ],
  λ h. elim (Bool-cases (at == key)) [
    | inl t ↦ inl (sym ((eq_iff at key).0 t))
    | inr f ↦ inr ((keys_iff key rest).1 (h.0, sym (rw f refl) ∙ h.1))
  ],
)
