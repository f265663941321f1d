-- ===== src/Identity/Conversion.antt =====
-- The change of base that base58Encode and base58Decode of internal/identity/base58.go make: what it
-- loses is nothing.
use mathlib.Core.List.{
  reverse, reverse-cons, reverse-append, reverse-reverse, append_assoc, append-nil,
}
use adtp.Identity.Digits.{
  le_digits, be_digits, value_from, value_le, zeros, leading_zeros, IsBase, Canonical,
  value-le_digits, value_from-reverse, le_digits-below, le_digits-value,
}
use adtp.Prelude.{
  ℕ, zero, suc, ◌+◌, ◌*◌, ◌/◌, ◌%◌, ◌≤◌, ◌<◌, ◌≡◌, refl, sym, ap, ap₂, subst, ◌∙◌, inl, inr, List,
  [], ◌∷◌, ◌++◌, arith, All, All-append, ℕ-eq, ◌==◌, Bool-cases,
}

-- Digits of base `from` written in base `to`, with as many zeros in front.
unfoldable pub convert : ℕ → ℕ → List ℕ → List ℕ
unfolding zeros leading_zeros be_digits value_from
convert from to ds = zeros (leading_zeros ds) ++ be_digits to (value_from from 0 ds)

All-reverse : (P : ℕ → Type 0) (ds : List ℕ) → All P ds → All P (reverse ds)
All-reverse P [] h = tt
All-reverse P (d ∷ ds) (h, hs) =
    subst (All P) (sym (reverse-cons d ds))
      (All-append P (reverse ds) (d ∷ []) (All-reverse P ds hs) (h, tt))

zeros-below : {bound : ℕ} (n : ℕ) → 0 < bound → All (λ d. d < bound) (zeros n)
unfolding zeros
zeros-below zero h = tt
zeros-below (suc n) h = (h, zeros-below n h)

value_from-zeros :
    (base n : ℕ) (ds : List ℕ) → value_from base 0 (zeros n ++ ds) ≡ value_from base 0 ds
unfolding value_from zeros
value_from-zeros base zero ds = refl
value_from-zeros base (suc n) ds =
    ap (λ acc. value_from base acc (zeros n ++ ds)) (omega arith) ∙ value_from-zeros base n ds

leading_zeros-reverse :
    (base d : ℕ) (ds tail : List ℕ)
    → Canonical base (d ∷ ds)
    → leading_zeros (reverse (d ∷ ds) ++ tail) ≡ 0
unfolding leading_zeros
leading_zeros-reverse base d [] tail (l, p) = ground arith
leading_zeros-reverse base d (e ∷ ds) tail (l, c) =
    ap (λ t. leading_zeros (t ++ tail)) (reverse-cons d (e ∷ ds))
    ∙ ap leading_zeros (append_assoc (reverse (e ∷ ds)) (d ∷ []) tail)
    ∙ leading_zeros-reverse base e ds (d ∷ tail) c

leading_zeros-zeros :
    (base n : ℕ) (cs : List ℕ) → Canonical base cs → leading_zeros (zeros n ++ reverse cs) ≡ n
unfolding leading_zeros zeros
leading_zeros-zeros base zero [] c = refl
leading_zeros-zeros base zero (d ∷ ds) c =
    ap leading_zeros (sym (append-nil (reverse (d ∷ ds)))) ∙ leading_zeros-reverse base d ds [] c
leading_zeros-zeros base (suc n) cs c = ap suc (leading_zeros-zeros base n cs c)

Canonical-snoc :
    (base : ℕ) (cs : List ℕ) (d : ℕ)
    → All (λ c. c < base) cs
    → d < base
    → 0 < d
    → Canonical base (cs ++ d ∷ [])
Canonical-snoc base [] d h l p = (l, p)
Canonical-snoc base (c ∷ []) d (b, h) l p = (b, (l, p))
Canonical-snoc base (c ∷ e ∷ cs) d (b, h) l p = (b, Canonical-snoc base (e ∷ cs) d h l p)

Canonical-cons :
    (base d : ℕ) (cs : List ℕ)
    → d < base
    → Canonical base cs
    → 0 < value_le base cs * base + d
    → Canonical base (d ∷ cs)
unfolding value_le
Canonical-cons base d [] l c p = (l, omega arith)
Canonical-cons base d (e ∷ cs) l c p = (l, c)

-- Leading zeros and the rest.
significant :
    (base : ℕ) (ds : List ℕ)
    → All (λ d. d < base) ds
    → (cs : List ℕ) × (Canonical base cs × (ds ≡ zeros (leading_zeros ds) ++ reverse cs))
unfolding zeros leading_zeros
significant base [] h = ([], (tt, refl))
significant base (d ∷ ds) (l, h) = elim (Bool-cases (d == 0)) [
  | inl z ↦
      let (cs, (c, q)) = significant base ds h in
      (cs, (c, rw z (ap₂ (λ a t. a ∷ t) (ground arith) q)))
  | inr p ↦ (
    reverse ds ++ d ∷ [],
    (
      Canonical-snoc base (reverse ds) d (All-reverse (λ c. c < base) ds h) l (ground arith),
      rw p (sym (reverse-append (reverse ds) (d ∷ []) ∙ ap (λ t. d ∷ t) (reverse-reverse ds))),
    ),
  )
]

module _ (base : ℕ) (b : IsBase base) where
  le_digits-Canonical : (rounds x : ℕ) → x ≤ rounds → Canonical base (le_digits base rounds x)
  unfolding le_digits
  le_digits-Canonical zero x h = tt
  le_digits-Canonical (suc rounds) x h = elim (Bool-cases (x == 0)) [
    | inl z ↦ rw z tt
    | inr p ↦
        let less : x / base ≤ rounds = ground (arith, b.shrink x) in
        rw p (
          Canonical-cons base (x % base) (le_digits base rounds (x / base)) (b.remainder x)
            (le_digits-Canonical rounds (x / base) less)
            (subst (λ v. 0 < v * base + x % base)
              (sym (value-le_digits base b rounds (x / base) less))
              (subst (λ v. 0 < v) (b.split x) (ground arith))))
  ]

module _ (from to : ℕ) (f : IsBase from) (t : IsBase to) where
  -- Converting there and back restores the digits, leading zeros included.
  pub convert-convert :
      (ds : List ℕ) → All (λ d. d < from) ds → convert to from (convert from to ds) ≡ ds
  unfolding convert be_digits value_le
  convert-convert ds h =
      let (cs, (c, q)) = significant from ds h in
      let n = leading_zeros ds in
      let v = value_from from 0 ds in
      let value : v ≡ value_le from cs =
        ap (value_from from 0) q
        ∙ value_from-zeros from n (reverse cs)
        ∙ value_from-reverse from cs in
      let out = le_digits to v v in
      let back : value_from to 0 (zeros n ++ reverse out) ≡ value_le from cs =
        value_from-zeros to n (reverse out)
        ∙ value_from-reverse to out
        ∙ value-le_digits to t v v (omega arith)
        ∙ value in
      ap₂ (λ k w. zeros k ++ be_digits from w)
        (leading_zeros-zeros to n out (le_digits-Canonical to t v v (omega arith))) back
      ∙ ap (λ r. zeros n ++ reverse r)
          (le_digits-value from f (value_le from cs) cs c (omega arith))
      ∙ sym q

  pub convert-below : (ds : List ℕ) → 0 < to → All (λ d. d < to) (convert from to ds)
  unfolding convert be_digits
  convert-below ds p =
      let v = value_from from 0 ds in
      All-append (λ d. d < to) (zeros (leading_zeros ds)) (be_digits to v)
        (zeros-below (leading_zeros ds) p)
        (All-reverse (λ d. d < to) (le_digits to v v) (le_digits-below to t v v))
