-- ===== src/Credential/Cid.antt =====
-- internal/credential/cid.go: content identifiers.
use adtp.Prelude.{
  ℕ, zero, suc, ◌+◌, ◌*◌, ◌/◌, ◌%◌, ◌≡◌, refl, ◌↔◌, eq_iff, Bool, true, List, [], ◌∷◌, ◌++◌, ltb,
  Text, Text-eq, codes, ◌==◌, if◌then◌else◌,
}

-- The bits of a byte, the highest first; `weight` is the value of the highest bit.
bits : ℕ → ℕ → List ℕ
bits zero n = []
bits (suc k) n = bits k (n / 2) ++ (n % 2) ∷ []

all_bits : Text → List ℕ
unfolding bits
all_bits [] = []
all_bits (b ∷ bs) = bits 8 b ++ all_bits bs

-- The lower-case alphabet of RFC 4648.
base32_char : ℕ → ℕ
base32_char v = if ltb v 26 then b'a' + v else 24 + v

-- Five bits to a character, the last group filled up with zeros, no padding.
base32_groups : List ℕ → Text
unfolding base32_char
base32_groups [] = []
base32_groups (a ∷ []) = base32_char (a * 16) ∷ []
base32_groups (a ∷ b ∷ []) = base32_char (a * 16 + b * 8) ∷ []
base32_groups (a ∷ b ∷ c ∷ []) = base32_char (a * 16 + b * 8 + c * 4) ∷ []
base32_groups (a ∷ b ∷ c ∷ d ∷ []) = base32_char (a * 16 + b * 8 + c * 4 + d * 2) ∷ []
base32_groups (a ∷ b ∷ c ∷ d ∷ e ∷ r) =
    base32_char (a * 16 + b * 8 + c * 4 + d * 2 + e) ∷ base32_groups r

unfoldable pub base32 : Text → Text
unfolding all_bits base32_groups
base32 s = base32_groups (all_bits s)

-- CIDv1, raw codec, sha2-256, 32 bytes.
abbrev pub cid_header : Text
cid_header = 0x01 ∷ 0x55 ∷ 0x12 ∷ 0x20 ∷ []

module _ (sha256 : Text → Text) where
  unfoldable pub compute_cid : Text → Text
  unfolding base32
  compute_cid raw = b'b' ∷ base32 (cid_header ++ sha256 raw)

  unfoldable pub verify_cid : Text → Text → Bool
  unfolding compute_cid
  verify_cid raw cid = compute_cid raw == cid

  pub verify_cid_iff : (raw cid : Text) → (verify_cid raw cid ≡ true) ↔ (compute_cid raw ≡ cid)
  unfolding verify_cid
  verify_cid_iff raw cid = eq_iff (compute_cid raw) cid

base32_foobar : base32 (codes "foobar") ≡ codes "mzxw6ytboi"
unfolding base32
base32_foobar = refl

-- Every CID of a SHA-256 digest begins with bafkrei.
cid_prefix : compute_cid (λ _. 0xA0 ∷ []) [] ≡ codes "bafkreifa"
unfolding compute_cid
cid_prefix = refl
