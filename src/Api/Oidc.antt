-- ===== src/Api/Oidc.antt =====
-- api/v1/oidc.go: the keys of a JWKS document, and the validation of a bearer token. base64url, JSON decoding,
-- SHA-256 and RSA are parameters; the retrieval of the document and its cache are the argument `provided`.
pub mod Signed
pub mod Accepted
use adtp.Prelude.{
  ℕ, ◌+◌, ◌-◌, ◌*◌, ◌^◌, ℤ, pos, Bool, true, false, not, ◌&&◌, ◌||◌, Option, none, some, List, [],
  ◌∷◌, ◌++◌, Text, Text-eq, ℕ-eq, ℤ-eq, codes, ◌==◌, if◌then◌else◌, Result, ok, err, ◌>>=◌, ◌>>◌,
  fail_if, map_err, ok_or, ltb, ltb_ℤ, add64, sub64, to_int64, contains, insert, lookup, split_on,
}
use adtp.Credential.Capability.{is_empty}

pub record RsaKey : Type 0 where
  pub modulus : ℕ
  pub exponent : ℤ

pub record Jwk : Type 0 where
  pub kty : Text
  pub kid : Text
  pub n : Text
  pub e : Text

pub record TokenHeader : Type 0 where
  pub alg : Text
  pub kid : Text

-- `aud` is the raw JSON of the member, empty if it is missing.
pub record Claims : Type 0 where
  pub iss : Text
  pub sub : Text
  pub aud : Text
  pub exp : ℤ
  pub nbf : ℤ

pub record OidcCodec : Type 0 where
  pub b64_decode : Text → Option Text
  pub unmarshal_header : Text → Option TokenHeader
  pub unmarshal_claims : Text → Option Claims
  pub unmarshal_string : Text → Option Text
  pub unmarshal_strings : Text → Option (List Text)
  pub sha256 : Text → Text
  pub rsa_verify : RsaKey → Text → Text → Bool

pub data OidcErr : Type 0 where
  malformed_token unsupported_alg unavailable_keys unknown_key bad_signature : OidcErr
  wrong_issuer wrong_audience expired not_yet_valid missing_subject : OidcErr

pub data JwksErr : Type 0 where
  undecodable zero_exponent short_modulus no_rsa_keys : JwksErr

abbrev pub min_rsa_modulus_bits : ℕ
min_rsa_modulus_bits = 2048

-- The number of a text, its first byte the highest: big.Int's SetBytes.
set_bytes : ℕ → Text → ℕ
set_bytes n [] = n
set_bytes n (b ∷ bs) = set_bytes (n * 256 + b) bs

-- A number below the given power of two has fewer bits than its exponent plus one.
short : ℕ → Bool
short n = ltb n (2 ^ (min_rsa_modulus_bits - 1))

checked_key : ℕ → ℤ → Result JwksErr RsaKey
unfolding short
checked_key n e =
    if e == pos 0
    then err zero_exponent
    else if short n
    then err short_modulus
    else ok (record { modulus = n; exponent = e })

module _ (codec : OidcCodec) where
  -- rsaPublicKeyFromJWK. Int64 keeps the low 64 bits.
  unfoldable pub rsa_public_key_from_jwk : Jwk → Result JwksErr RsaKey
  unfolding set_bytes checked_key to_int64
  rsa_public_key_from_jwk k = do
    n ← ok_or undecodable (codec.b64_decode k.n)
    e ← ok_or undecodable (codec.b64_decode k.e)
    checked_key (set_bytes 0 n) (to_int64 (pos (set_bytes 0 e)))

  -- The loop of parseJWKS.
  rsa_keys : List Jwk → List (Text × RsaKey) → Result JwksErr (List (Text × RsaKey))
  unfolding rsa_public_key_from_jwk insert
  rsa_keys [] out = ok out
  rsa_keys (k ∷ ks) out = elim (k.kty == codes "RSA") [
    | false ↦ rsa_keys ks out
    | true ↦ elim (rsa_public_key_from_jwk k) [
      | err e ↦ err e
      | ok key ↦ rsa_keys ks (insert k.kid key out)
    ]
  ]

  -- parseJWKS, of a document that is decoded.
  unfoldable pub parse_jwks : List Jwk → Result JwksErr (List (Text × RsaKey))
  unfolding rsa_keys is_empty
  parse_jwks ks = do out ← rsa_keys ks []; fail_if (is_empty out) no_rsa_keys; ok out

-- A time.Time: seconds since the year 1, in 64 bits, and nanoseconds.
pub record Instant : Type 0 where
  pub seconds : ℤ
  pub nanoseconds : ℕ

-- time.Unix(s, 0)
unfoldable pub unix : ℤ → Instant
unfolding add64
unix s = record { seconds = add64 s (pos 62135596800); nanoseconds = 0 }

unfoldable pub is_after : Instant → Instant → Bool
is_after t u =
    ltb_ℤ u.seconds t.seconds || (t.seconds == u.seconds) && ltb u.nanoseconds t.nanoseconds

abbrev pub leeway : ℤ
leeway = pos 60

pub later : Instant → Instant
unfolding add64
later t = record t { seconds = add64 t.seconds leeway }

pub earlier : Instant → Instant
unfolding sub64
earlier t = record t { seconds = sub64 t.seconds leeway }

-- keys[kid], or the only key if the token names none.
pub pick : Text → List (Text × RsaKey) → Option RsaKey → Option RsaKey
pick kid keys (some key) = some key
pick [] ((k, key) ∷ []) none = some key
pick _ _ none = none

three_parts : List Text → Option (Text × Text × Text)
three_parts (a ∷ b ∷ c ∷ []) = some (a, b, c)
three_parts _ = none

expired_at : Instant → Claims → Bool
unfolding is_after unix later
expired_at now c = c.exp == pos 0 || is_after now (later (unix c.exp))

early_at : Instant → Claims → Bool
unfolding is_after unix earlier
early_at now c = not (c.nbf == pos 0) && is_after (earlier (unix c.nbf)) now

module _ (codec : OidcCodec) where
  -- audienceContains
  unfoldable pub audience_contains : Text → Text → Bool
  unfolding is_empty contains
  audience_contains raw want = if is_empty raw then false else elim (codec.unmarshal_string raw) [
    | some one ↦ one == want
    | none ↦ elim (codec.unmarshal_strings raw) [ some many ↦ contains many want | none ↦ false ]
  ]

  -- The checks of the claims.
  unfoldable pub check_claims : Text → Text → Instant → Claims → Result OidcErr Text
  unfolding audience_contains expired_at early_at is_empty
  check_claims issuer audience now c = do
    fail_if (not (c.iss == issuer)) wrong_issuer
    fail_if (not (audience_contains c.aud audience)) wrong_audience
    fail_if (expired_at now c) expired
    fail_if (early_at now c) not_yet_valid
    fail_if (is_empty c.sub) missing_subject
    ok c.sub

  -- OIDCVerifier.Verify, up to the signature: the second part of the token.
  unfoldable pub signed_body : Result JwksErr (List (Text × RsaKey)) → Text → Result OidcErr Text
  unfolding three_parts split_on pick lookup
  signed_body provided token = do
    parts ← ok_or malformed_token (three_parts (split_on b'.' token))
    header_bytes ← ok_or malformed_token (codec.b64_decode parts.0)
    header ← ok_or malformed_token (codec.unmarshal_header header_bytes)
    fail_if (not (header.alg == codes "RS256")) unsupported_alg
    keys ← map_err (λ _. unavailable_keys) provided
    key ← ok_or unknown_key (pick header.kid keys (lookup header.kid keys))
    sig ← ok_or malformed_token (codec.b64_decode parts.2)
    fail_if (not (codec.rsa_verify key (codec.sha256 (parts.0 ++ codes "." ++ parts.1)) sig))
        bad_signature
    ok parts.1

  -- OIDCVerifier.Verify: the subject.
  unfoldable pub verify_token :
      Text → Text → Result JwksErr (List (Text × RsaKey)) → Instant → Text → Result OidcErr Text
  unfolding signed_body check_claims
  verify_token issuer audience provided now token = do
    body ← signed_body provided token
    claim_bytes ← ok_or malformed_token (codec.b64_decode body)
    claims ← ok_or malformed_token (codec.unmarshal_claims claim_bytes)
    check_claims issuer audience now claims
