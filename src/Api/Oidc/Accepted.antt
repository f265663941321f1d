-- ===== src/Api/Oidc/Accepted.antt =====
-- What an accepted bearer token proves.
use adtp.Prelude.{
  ◌^◌, ◌≤◌, pos, ◌≡◌, ◌≢◌, ◌⊎◌, true, false, some, List, [], Text, Text-eq, ℤ-eq, lookup,
}
use adtp.Api.Oidc.Signed.{IsSigned}
use adtp.Api.Oidc.{
  RsaKey, Claims, OidcCodec, Instant, unix, is_after, later, earlier, audience_contains,
}

-- A modulus of 2048 bits at least.
abbrev pub IsStrong : RsaKey → Type 0
IsStrong key = (2 ^ 2047 ≤ key.modulus) × (key.exponent ≢ pos 0)

-- Every key of the map is strong.
abbrev AllStrong : List (Text × RsaKey) → Type 0
AllStrong keys = (kid : Text) (key : RsaKey) → lookup kid keys ≡ some key → IsStrong key

module _ (codec : OidcCodec) where
  module _ (issuer audience : Text) (now : Instant) where
    -- Claims that hold at the time of the call, for this daemon.
    pub record IsTimely (c : Claims) (sub : Text) : Type 0 where
      pub same_issuer : c.iss ≡ issuer
      pub same_audience : audience_contains codec c.aud audience ≡ true
      pub has_expiry : c.exp ≢ pos 0
      pub before_expiry : is_after now (later (unix c.exp)) ≡ false
      pub begun : (c.nbf ≡ pos 0) ⊎ (is_after (earlier (unix c.nbf)) now ≡ false)
      pub subject : c.sub ≡ sub
      pub named : sub ≢ []

    -- A token that is signed by one of the keys, with its claims.
    pub record IsAccepted (keys : List (Text × RsaKey)) (token sub : Text) : Type 0 where
      pub body : Text
      pub signature : IsSigned codec keys token body
      pub claim_bytes : Text
      pub claims : Claims
      pub payload : codec.b64_decode body ≡ some claim_bytes
      pub claimed : codec.unmarshal_claims claim_bytes ≡ some claims
      pub timely : IsTimely claims sub
