-- ===== src/Identity/Base58/RoundTrip.antt =====
-- base58Encode and base58Decode are inverse to each other, on bytes and on the texts that decode.
use mathlib.Core.List.{reverse, reverse-append, reverse-cons, map-append}
use adtp.Identity.Digits.{
  le_digits, be_digits, value_from, zeros, leading_zeros, IsBase-58, IsBase-256,
}
use adtp.Identity.Conversion.{convert, convert-convert, convert-below}
use adtp.Identity.Base58.{
  byte_at, index_of, alphabet_char, base58_alphabet, base58_index, base58_encode, decode_from,
  leading_ones, base58_decode, invalid_base58,
}
use adtp.Prelude.{
  ok_inj, ℕ, zero, suc, ◌+◌, ◌*◌, ◌<◌, ◌≡◌, refl, sym, ap, ap₂, subst, ◌∙◌, ◌⊎◌, inl, inr, Bool,
  true, false, ◌&&◌, Option, none, some, List, [], ◌∷◌, ◌++◌, map, arith, Text, ℕ-eq, ◌==◌, eq_iff,
  All, if◌then◌else◌, and_true, Bool-cases, ok, ◌>>=◌, >>=-eq-ok, length, ok_or, ok_or-eq-ok,
}

-- The index of a digit's character is the digit.
indexed : ℕ → Bool
unfolding base58_index alphabet_char
indexed d = elim (base58_index (alphabet_char d)) [ none ↦ false | some i ↦ i == d ]

all_indexed : ℕ → Bool
unfolding indexed
all_indexed zero = true
all_indexed (suc n) = all_indexed n && indexed n

below_suc : (d n : ℕ) → d < suc n → (d == n) ≡ false → d < n
below_suc d n l e = ground arith

all_indexed-at : (n d : ℕ) → all_indexed n ≡ true → d < n → indexed d ≡ true
unfolding all_indexed
all_indexed-at zero d h l = absurd (omega arith)
all_indexed-at (suc n) d h l =
    let (front, here) = and_true (all_indexed n) (indexed n) h in
    elim (Bool-cases (d == n)) [
      | inl e ↦ subst (λ k. indexed k ≡ true) (sym ((eq_iff d n).0 e)) here
      | inr e ↦ all_indexed-at n d front (below_suc d n l e)
    ]

digits_indexed : all_indexed 58 ≡ true
unfolding all_indexed
digits_indexed = refl

found : (o : Option ℕ) (d : ℕ) → elim o [ none ↦ false | some i ↦ i == d ] ≡ true → o ≡ some d
found none d h = cc
found (some i) d h = ap some ((eq_iff i d).0 h)

index-char : (d : ℕ) → d < 58 → base58_index (alphabet_char d) ≡ some d
unfolding indexed
index-char d l = found (base58_index (alphabet_char d)) d (all_indexed-at 58 d digits_indexed l)

index_step :
    (o : Option ℕ) (t : Bool) {i : ℕ}
    → (if t then some 0 else elim o [ none ↦ none | some j ↦ some (suc j) ]) ≡ some i
    → ((t ≡ true) × (i ≡ 0)) ⊎ ((j : ℕ) × ((o ≡ some j) × (i ≡ suc j)))
index_step none true h = ground arith
index_step none false h = cc
index_step (some j) true h = ground arith
index_step (some j) false h = inr (j, (refl, ground arith))

byte_at-index_of :
    (s : Text) (b : ℕ) {i : ℕ} → index_of s b ≡ some i → (byte_at s i ≡ b) × (i < length s)
unfolding index_of byte_at
byte_at-index_of [] b h = cc
byte_at-index_of (a ∷ s) b h = elim (index_step (index_of s b) (a == b) h) [
  | inl (e, z) ↦ rw z ((eq_iff a b).0 e, omega arith)
  | inr (j, (q, z)) ↦ let (char, below) = byte_at-index_of s b q in rw z (char, omega arith)
]

decode_from-map :
    (x : ℕ) (ds : List ℕ)
    → All (λ d. d < 58) ds
    → decode_from x (map alphabet_char ds) ≡ ok (value_from 58 x ds)
unfolding decode_from value_from
decode_from-map x [] h = refl
decode_from-map x (d ∷ ds) (l, h) =
    ap (λ o. ok_or invalid_base58 o >>= λ v. decode_from (x * 58 + v) (map alphabet_char ds))
      (index-char d l)
    ∙ decode_from-map (x * 58 + d) ds h

-- A text that the loop accepts is the writing of digits.
record Written (x : ℕ) (s : Text) (n : ℕ) : Type 0 where
  ds : List ℕ
  below : All (λ d. d < 58) ds
  text : s ≡ map alphabet_char ds
  value : n ≡ value_from 58 x ds

decode_from-Written : (x : ℕ) (s : Text) (n : ℕ) → decode_from x s ≡ ok n → Written x s n
unfolding decode_from value_from alphabet_char base58_index
decode_from-Written x [] n h = record { ds = []; below = tt; text = refl; value = cc }
decode_from-Written x (c ∷ s) n h =
    let (i, q, next) =
      >>=-eq-ok (ok_or invalid_base58 (base58_index c)) (λ v. decode_from (x * 58 + v) s) h in
    let (char, below) =
      byte_at-index_of base58_alphabet c (ok_or-eq-ok invalid_base58 (base58_index c) q) in
    let rest = decode_from-Written (x * 58 + i) s n next in
    record {
      ds = i ∷ rest.ds;
      below = (below, rest.below);
      text = ap₂ (λ a t. a ∷ t) (sym char) rest.text;
      value = rest.value;
    }

some_inj : {i j : ℕ} → some i ≡ some j → i ≡ j
some_inj h = cc

one_index : base58_index b'1' ≡ some 0
unfolding base58_index
one_index = refl

-- Digit 0 alone is written '1'.
one-zero : (d : ℕ) → d < 58 → alphabet_char d ≡ b'1' → 0 ≡ d
one-zero d l e = some_inj (sym one_index ∙ sym (ap base58_index e) ∙ index-char d l)

suc-ne-zero : (d : ℕ) → (suc d == 0) ≡ false
suc-ne-zero d = ground arith

one_iff : (d : ℕ) → d < 58 → (alphabet_char d == b'1') ≡ (d == 0)
unfolding alphabet_char byte_at
one_iff zero l = refl
one_iff (suc d) l = elim (Bool-cases (alphabet_char (suc d) == b'1')) [
  | inl e ↦ absurd (omega (arith, one-zero (suc d) l ((eq_iff (alphabet_char (suc d)) b'1').0 e)))
  | inr e ↦ e ∙ sym (suc-ne-zero d)
]

leading_ones-map :
    (ds : List ℕ) → All (λ d. d < 58) ds → leading_ones (map alphabet_char ds) ≡ leading_zeros ds
unfolding leading_ones leading_zeros
leading_ones-map [] h = refl
leading_ones-map (d ∷ ds) (l, h) =
    ap₂ (λ t n. if t then suc n else 0) (one_iff d l) (leading_ones-map ds h)

zeros-snoc : (n : ℕ) → zeros n ++ 0 ∷ [] ≡ zeros (suc n)
unfolding zeros
zeros-snoc zero = refl
zeros-snoc (suc n) = ap (λ t. 0 ∷ t) (zeros-snoc n)

reverse-zeros : (n : ℕ) → reverse (zeros n) ≡ zeros n
unfolding zeros
reverse-zeros zero = refl
reverse-zeros (suc n) =
    reverse-cons 0 (zeros n) ∙ ap (λ t. t ++ 0 ∷ []) (reverse-zeros n) ∙ zeros-snoc n

map-reverse : (f : ℕ → ℕ) (xs : List ℕ) → reverse (map f xs) ≡ map f (reverse xs)
map-reverse f [] = refl
map-reverse f (x ∷ xs) =
    reverse-cons (f x) (map f xs)
    ∙ ap (λ t. t ++ f x ∷ []) (map-reverse f xs)
    ∙ sym (map-append f (reverse xs) (x ∷ []))
    ∙ ap (map f) (sym (reverse-cons x xs))

-- base58Encode is a change of base, written in the alphabet.
encode-convert : (b : Text) → base58_encode b ≡ map alphabet_char (convert 256 58 b)
unfolding base58_encode convert be_digits
encode-convert b =
    let x = value_from 256 0 b in
    let ds = le_digits 58 x x in
    let n = leading_zeros b in
    ap reverse (sym (map-append alphabet_char ds (zeros n)))
    ∙ map-reverse alphabet_char (ds ++ zeros n)
    ∙ ap (map alphabet_char)
        (reverse-append ds (zeros n) ∙ ap (λ t. t ++ reverse ds) (reverse-zeros n))

decode-convert :
    (ds : List ℕ)
    → All (λ d. d < 58) ds
    → base58_decode (map alphabet_char ds) ≡ ok (convert 58 256 ds)
unfolding base58_decode convert
decode-convert ds h =
    rw (decode_from-map 0 ds h)
      (ap (λ n. ok (zeros n ++ be_digits 256 (value_from 58 0 ds))) (leading_ones-map ds h))

-- What base58Encode writes of bytes, base58Decode reads back as those bytes.
pub base58_decode-encode :
    (b : Text) → All (λ c. c < 256) b → base58_decode (base58_encode b) ≡ ok b
base58_decode-encode b h =
    ap base58_decode (encode-convert b)
    ∙ decode-convert (convert 256 58 b) (convert-below 256 58 IsBase-256 IsBase-58 b (omega arith))
    ∙ ap ok (convert-convert 256 58 IsBase-256 IsBase-58 b h)

-- A text that base58Decode accepts is what base58Encode writes of the result, which is bytes.
pub base58_encode-decode :
    (s b : Text) → base58_decode s ≡ ok b → (base58_encode b ≡ s) × All (λ c. c < 256) b
unfolding base58_decode convert
base58_encode-decode s b h =
    let (x, q, _) =
      >>=-eq-ok (decode_from 0 s) (λ n. ok (zeros (leading_ones s) ++ be_digits 256 n)) h in
    let w = decode_from-Written 0 s x q in
    let out : b ≡ convert 58 256 w.ds =
      ok_inj (sym h ∙ ap base58_decode w.text ∙ decode-convert w.ds w.below) in
    (
      encode-convert b
          ∙ ap (λ t. map alphabet_char (convert 256 58 t)) out
          ∙ ap (map alphabet_char) (convert-convert 58 256 IsBase-58 IsBase-256 w.ds w.below)
          ∙ sym w.text,
      subst (All (λ c. c < 256)) (sym out)
          (convert-below 58 256 IsBase-58 IsBase-256 w.ds (omega arith)),
    )
