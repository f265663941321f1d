-- ===== src/Identity/DidKey.antt =====
-- internal/identity/didkey.go: did:key identifiers. GenerateDID draws a random key and is left out.
pub mod OneDid
use adtp.Identity.Base58.{base58_encode, base58_decode, Base58Err, invalid_base58}
use adtp.Prelude.{
  ℕ, ◌+◌, ◌≡◌, refl, Bool, true, false, not, Option, none, some, List, [], ◌∷◌, ◌++◌, Text, codes,
  ℕ-eq, Text-eq, ◌==◌, Result, ok, err, ◌>>=◌, ◌>>◌, fail_if, map_err, ok_or, length, strip_prefix,
}

abbrev pub did_key_prefix : Text
did_key_prefix = codes "did:key:"

abbrev pub base58_btc_prefix : Text
base58_btc_prefix = codes "z"

abbrev pub ed25519_multicodec_prefix : Text
ed25519_multicodec_prefix = 0xed ∷ 0x01 ∷ []

abbrev pub public_key_size : ℕ
public_key_size = 32

pub data DidErr : Type 0 where
  unsupported_did_method malformed_did : DidErr

-- EncodeDID
unfoldable pub encode_did : Text → Text
unfolding base58_encode
encode_did pub_key =
    did_key_prefix ++ (base58_btc_prefix ++ base58_encode (ed25519_multicodec_prefix ++ pub_key))

-- The text's first two bytes, and what follows them.
multicodec_of : Text → Text
multicodec_of (a ∷ b ∷ key) = a ∷ b ∷ []
multicodec_of short = short

key_of : Text → Text
key_of (a ∷ b ∷ key) = key
key_of short = []

-- ParseDID
unfoldable pub parse_did : Text → Result DidErr Text
unfolding strip_prefix base58_decode multicodec_of key_of
parse_did did = do
  rest ← ok_or unsupported_did_method (strip_prefix did_key_prefix did)
  multibase ← ok_or malformed_did (strip_prefix base58_btc_prefix rest)
  decoded ← map_err (λ _. malformed_did) (base58_decode multibase)
  fail_if (not (length decoded == length ed25519_multicodec_prefix + public_key_size)) malformed_did
  fail_if (not (multicodec_of decoded == ed25519_multicodec_prefix)) malformed_did
  ok (key_of decoded)

-- ResolveDID
unfoldable pub resolve_did : Text → Result DidErr Text
unfolding parse_did
resolve_did did = parse_did did
