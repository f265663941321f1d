-- ===== src/Identity/Base58.antt =====
-- internal/identity/base58.go: base58btc. math/big's numbers are the native ones; what happens to digits
-- is in Digits and Conversion.
pub mod RoundTrip
use mathlib.Core.List.{reverse, reverse-append, reverse-cons, map-append}
use adtp.Identity.Digits.{
  le_digits, be_digits, value_from, zeros, leading_zeros, IsBase-58, IsBase-256,
}
use adtp.Identity.Conversion.{convert, convert-convert, convert-below}
use adtp.Prelude.{
  ℕ, zero, suc, ◌+◌, ◌*◌, ◌<◌, ◌≡◌, refl, sym, ap, subst, ◌∙◌, ◌↔◌, ◌⊎◌, inl, inr, Bool, true,
  false, ◌&&◌, Option, none, some, List, [], ◌∷◌, ◌++◌, map, arith, Text, codes, Eq, ℕ-eq, ◌==◌,
  eq_iff, All, if◌then◌else◌, and_true, Option-cases, Bool-cases, Result, ok_or, ok, err, ◌>>=◌,
  >>=-eq-ok, length,
}

abbrev base58_alphabet : Text
base58_alphabet = codes "123456789ABCDEFGHJKLMNPQRSTUVWXYZabcdefghijkmnopqrstuvwxyz"

pub data Base58Err : Type 0 where
  invalid_base58 : Base58Err

-- s[i]; the program indexes the alphabet below 58 only.
byte_at : Text → ℕ → ℕ
byte_at [] i = 0
byte_at (c ∷ s) i = elim i [ zero ↦ c | suc j ↦ byte_at s j ]

index_of : Text → ℕ → Option ℕ
index_of [] b = none
index_of (a ∷ s) b =
    let rest = index_of s b in
    if a == b then some 0 else elim rest [ none ↦ none | some i ↦ some (suc i) ]

alphabet_char : ℕ → ℕ
unfolding byte_at
alphabet_char d = byte_at base58_alphabet d

-- The table that init fills: the position of each byte of the alphabet.
base58_index : ℕ → Option ℕ
unfolding index_of
base58_index b = index_of base58_alphabet b

-- Digits least significant first, a '1' for each leading zero byte, then all reversed.
unfoldable pub base58_encode : Text → Text
unfolding alphabet_char leading_zeros value_from le_digits zeros
base58_encode b =
    let x = value_from 256 0 b in
    reverse (map alphabet_char (le_digits 58 x x) ++ map alphabet_char (zeros (leading_zeros b)))

-- The loop over the characters.
decode_from : ℕ → Text → Result Base58Err ℕ
unfolding base58_index
decode_from x [] = ok x
decode_from x (c ∷ s) = do v ← ok_or invalid_base58 (base58_index c); decode_from (x * 58 + v) s

leading_ones : Text → ℕ
leading_ones [] = 0
leading_ones (c ∷ s) = let rest = leading_ones s in if c == b'1' then suc rest else 0

unfoldable pub base58_decode : Text → Result Base58Err Text
unfolding decode_from leading_ones zeros be_digits
base58_decode s = do x ← decode_from 0 s; ok (zeros (leading_ones s) ++ be_digits 256 x)

hello : base58_encode (codes "hello") ≡ codes "Cn8eVZg"
unfolding base58_encode
hello = refl

hello_back : base58_decode (codes "1Cn8eVZg") ≡ ok (0 ∷ codes "hello")
unfolding base58_decode
hello_back = refl
