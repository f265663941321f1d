-- ===== src/Credential/Ucan.antt =====
-- internal/credential/ucan.go: UCAN tokens in JWS compact form.
-- encoding/json, the I-JSON check and the canonicalizer are the parameters `TokenCodec`.
use adtp.Prelude.{
  ℕ, Bool, not, ◌&&◌, ◌||◌, Option, none, some, List, [], ◌∷◌, ◌++◌, ltb, Text, Text-eq, ℕ-eq,
  codes, ◌==◌, Result, ok, err, ◌>>=◌, ◌>>◌, fail_if, ok_or, ℤ, pos, ltb_ℤ, leb_ℤ, length, split_on,
}
use adtp.Signing.{Crypto, private_key_size, public_key_size, signature_size}
use adtp.Credential.Capability.{
  Capability, CredentialErr, invalid_key, missing_field, missing_expiry, invalid_expiry,
  too_many_capabilities, malformed_token, unsupported_header, signing_failed, validate_capability,
  is_empty,
}
use adtp.Credential.Cid.{compute_cid}

abbrev pub ucan_typ : Text
ucan_typ = codes "adtp/ucan/1"

abbrev pub ucan_alg : Text
ucan_alg = codes "EdDSA"

abbrev pub ucan_version : Text
ucan_version = codes "0.1.0"

abbrev pub max_capabilities : ℕ
max_capabilities = 100

pub record UcanHeader : Type 0 where
  pub typ : Text
  pub alg : Text
  pub ucv : Text

pub record UcanPayload : Type 0 where
  pub iss : Text
  pub aud : Text
  pub att : List Capability
  pub prf : List Text
  pub exp : ℤ
  pub nbf : ℤ
  pub iat : ℤ

pub record Ucan : Type 0 where
  pub header : UcanHeader
  pub payload : UcanPayload
  pub signature : Text
  pub signing_input : Text
  pub raw : Text

-- `members` says whether the payload is an object, and if so whether it has the member `exp`.
pub record TokenCodec : Type 0 where
  pub valid_ijson : Text → Bool
  pub unmarshal_header : Text → Option UcanHeader
  pub unmarshal_payload : Text → Option UcanPayload
  pub members : Text → Option Bool
  pub canonical_header : UcanHeader → Option Text
  pub canonical_payload : UcanPayload → Option Text

-- Every capability validates.
unfoldable pub validate_capabilities : (Text → Bool) → List Capability → Result CredentialErr Unit
unfolding validate_capability
validate_capabilities ijson [] = ok tt
validate_capabilities ijson (c ∷ cs) =
    let rest = validate_capabilities ijson cs in
    elim (validate_capability ijson c) [ ok _ ↦ rest | err e ↦ err e ]

-- UCANPayload.validateForIssuance
validate_for_issuance : (Text → Bool) → UcanPayload → Result CredentialErr Unit
unfolding is_empty validate_capabilities
validate_for_issuance ijson p = do
  fail_if (is_empty p.iss) missing_field
  fail_if (is_empty p.aud) missing_field
  fail_if (leb_ℤ p.exp (pos 0)) missing_expiry
  fail_if (ltb_ℤ p.nbf (pos 0) || ltb_ℤ p.iat (pos 0)) invalid_expiry
  fail_if (ltb_ℤ (pos 0) p.nbf && leb_ℤ p.exp p.nbf) invalid_expiry
  fail_if (ltb max_capabilities (length p.att)) too_many_capabilities
  validate_capabilities ijson p.att

-- The segments of a compact token, if there are three.
three_parts : List Text → Option (Text × Text × Text)
three_parts (a ∷ b ∷ c ∷ []) = some (a, b, c)
three_parts _ = none

check_header : UcanHeader → Result CredentialErr Unit
check_header h = do
  fail_if (not (h.typ == ucan_typ)) unsupported_header
  fail_if (not (h.alg == ucan_alg)) unsupported_header
  fail_if (not (h.ucv == ucan_version)) unsupported_header

module _ (crypto : Crypto) (codec : TokenCodec) where
  -- createUCAN
  unfoldable pub create_ucan : UcanPayload → Text → Result CredentialErr Text
  unfolding validate_for_issuance
  create_ucan payload priv = do
    fail_if (not (length priv == private_key_size)) invalid_key
    validate_for_issuance codec.valid_ijson payload
    let header : UcanHeader = record { typ = ucan_typ; alg = ucan_alg; ucv = ucan_version }
    header_jcs ← ok_or signing_failed (codec.canonical_header header)
    payload_jcs ← ok_or signing_failed (codec.canonical_payload payload)
    let input = crypto.b64_encode header_jcs ++ codes "." ++ crypto.b64_encode payload_jcs
    ok (input ++ codes "." ++ crypto.b64_encode (crypto.ed25519_sign priv input))

  -- ParseUCAN
  unfoldable pub parse_ucan : Text → Result CredentialErr Ucan
  unfolding three_parts check_header split_on
  parse_ucan token = do
    parts ← ok_or malformed_token (three_parts (split_on b'.' token))
    header_bytes ← ok_or malformed_token (crypto.b64_decode parts.0)
    payload_bytes ← ok_or malformed_token (crypto.b64_decode parts.1)
    sig ← ok_or malformed_token (crypto.b64_decode parts.2)
    fail_if (not (length sig == signature_size)) malformed_token
    fail_if (not (codec.valid_ijson header_bytes)) malformed_token
    fail_if (not (codec.valid_ijson payload_bytes)) malformed_token
    header ← ok_or malformed_token (codec.unmarshal_header header_bytes)
    check_header header
    has_exp ← ok_or malformed_token (codec.members payload_bytes)
    fail_if (not has_exp) missing_expiry
    payload ← ok_or malformed_token (codec.unmarshal_payload payload_bytes)
    fail_if (ltb max_capabilities (length payload.att)) too_many_capabilities
    ok (record {
      header = header;
      payload = payload;
      signature = sig;
      signing_input = parts.0 ++ codes "." ++ parts.1;
      raw = token;
    })

module _ (crypto : Crypto) where
  -- UCAN.Verify
  unfoldable pub verify_token : Ucan → Text → Bool
  verify_token u pub_key =
      (length pub_key == public_key_size)
      && crypto.ed25519_verify pub_key u.signing_input u.signature

  -- UCAN.CID
  unfoldable pub token_cid : Ucan → Text
  unfolding compute_cid
  token_cid u = compute_cid crypto.sha256 u.raw
