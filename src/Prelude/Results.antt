-- ===== src/Prelude/Results.antt =====
-- Results: `error` beside a value, as Go's pairs use it.
use mathlib.Core.Path.{◌≡◌, refl}
use mathlib.Core.Bool.{Bool, true, false}
use mathlib.Core.Option.{Option, none, some}

pub data Result {ℓ} (E A : Type ℓ) : Type ℓ where
  ok : A → Result E A
  err : E → Result E A

infixl 5 ◌>>=◌ ◌>>◌
-- Go's `if err != nil { return err }` between two calls.
abbrev pub ◌>>=◌ {ℓ} : {E S T : Type ℓ} → Result E S → (S → Result E T) → Result E T
err failure >>= next = err failure
ok value >>= next = next value

abbrev pub ◌>>◌ {ℓ} : {E T : Type ℓ} → Result E (Unit {ℓ}) → Result E T → Result E T
check >> next = check >>= λ _. next

-- `if test { return e }`
abbrev pub fail_if {ℓ} : {E : Type ℓ} → Bool → E → Result E (Unit {ℓ})
fail_if true e = err e
fail_if false e = ok tt

abbrev pub is_ok {ℓ} : {E A : Type ℓ} → Result E A → Bool
is_ok (ok a) = true
is_ok (err e) = false

-- An inner error wrapped into, or replaced by, one of the caller's.
abbrev pub map_err {ℓ} : {E F A : Type ℓ} → (E → F) → Result E A → Result F A
map_err f (ok a) = ok a
map_err f (err e) = err (f e)

-- A missing value is the given error.
abbrev pub ok_or {ℓ} : {E A : Type ℓ} → E → Option A → Result E A
ok_or e (some a) = ok a
ok_or e none = err e

module _ {ℓ} {E A B : Type ℓ} where
  -- Inversion of a successful bind.
  pub >>=-eq-ok :
      (call : Result E A) (rest : A → Result E B) {out : B}
      → (call >>= rest) ≡ ok out
      → (mid : A) × (call ≡ ok mid) × (rest mid ≡ ok out)
  >>=-eq-ok (err failure) rest q = cc
  >>=-eq-ok (ok mid) rest q = (mid, refl, q)

pub Result-cases {ℓ} :
    {E A : Type ℓ} (m : Result E A) → Result ((e : E) × (m ≡ err e)) ((a : A) × (m ≡ ok a))
Result-cases (ok a) = ok (a, refl)
Result-cases (err e) = err (e, refl)

pub fail_if-eq-ok {ℓ} :
    {E : Type ℓ} (b : Bool) (e : E) {u : Unit {ℓ}} → fail_if b e ≡ ok u → b ≡ false
fail_if-eq-ok true e h = cc
fail_if-eq-ok false e h = refl

pub ok_or-eq-ok {ℓ} : {E A : Type ℓ} (e : E) (o : Option A) {a : A} → ok_or e o ≡ ok a → o ≡ some a
ok_or-eq-ok e none h = cc
ok_or-eq-ok e (some b) h = cc

pub map_err-eq-ok {ℓ} :
    {E F A : Type ℓ} (f : E → F) (m : Result E A) {a : A} → map_err f m ≡ ok a → m ≡ ok a
map_err-eq-ok f (ok b) h = cc
map_err-eq-ok f (err e) h = cc

pub ok_inj {ℓ} : {E A : Type ℓ} {a b : A} → ◌≡◌ {A = Result E A} (ok a) (ok b) → a ≡ b
ok_inj h = cc

-- A failure is no success.
pub err-ne-ok {ℓ} : {E A : Type ℓ} {e : E} {a : A} → ◌≡◌ {A = Result E A} (err e) (ok a) → ⊥
err-ne-ok h = cc
