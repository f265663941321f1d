-- ===== src/Signing.antt =====
-- internal/signing/sign.go: the signing discipline SD-2.
-- Ed25519, SHA-256 and base64 are Go's libraries: the record `Crypto` stands for them. JSON encoding
-- and canonicalization are parameters of the codecs that use them, so an object is given here by the
-- canonical bytes of its fields without `sig` (`none`: it does not canonicalize).
pub mod Jcs
use adtp.Prelude.{
  ℕ, Bool, not, Option, none, some, ◌∷◌, ◌++◌, Text, ℕ-eq, codes, ◌==◌, Result, ok, err, ◌>>=◌,
  ◌>>◌, fail_if, ok_or, length,
}

pub record Crypto : Type 0 where
  pub sha256 : Text → Text
  -- public key, message, signature
  pub ed25519_verify : Text → Text → Text → Bool
  -- private key, message
  pub ed25519_sign : Text → Text → Text
  -- the public key of a private key
  pub public : Text → Text
  pub b64_encode : Text → Text
  pub b64_decode : Text → Option Text

pub data SigningErr : Type 0 where
  not_canonicalizable invalid_private_key invalid_public_key invalid_signature : SigningErr
  verification_failed : SigningErr

abbrev pub private_key_size : ℕ
private_key_size = 64

abbrev pub public_key_size : ℕ
public_key_size = 32

abbrev pub signature_size : ℕ
signature_size = 64

abbrev pub domain_prefix : Text
domain_prefix = codes "AITP1"

unfoldable pub signature_input : Option Text → Result SigningErr Text
signature_input none = err not_canonicalizable
signature_input (some canon) = ok (domain_prefix ++ 0 ∷ canon)

module _ (c : Crypto) where
  unfoldable pub sign : Option Text → Text → Result SigningErr Text
  unfolding signature_input
  sign object priv = do
    fail_if (not (length priv == private_key_size)) invalid_private_key
    input ← signature_input object
    ok (c.ed25519_sign priv input)

  unfoldable pub verify : Option Text → Text → Text → Result SigningErr Unit
  unfolding signature_input
  verify object sig pub_key = do
    fail_if (not (length pub_key == public_key_size)) invalid_public_key
    fail_if (not (length sig == signature_size)) invalid_signature
    input ← signature_input object
    fail_if (not (c.ed25519_verify pub_key input sig)) verification_failed

  unfoldable pub encode_signature : Text → Text
  encode_signature sig = c.b64_encode sig

  unfoldable pub decode_signature : Text → Result SigningErr Text
  decode_signature s = ok_or invalid_signature (c.b64_decode s)

  -- What the Verify methods of the signed objects do with their `sig` member.
  unfoldable pub verify_encoded : Option Text → Text → Text → Result SigningErr Unit
  unfolding verify decode_signature
  verify_encoded object sig pub_key = do raw ← decode_signature sig; verify object raw pub_key
