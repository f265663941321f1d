-- ===== src/Api/Gates.antt =====
-- Tokens and keys at the gate, and the theorems at concrete inputs.
use adtp.Prelude.{
  ◌≡◌, ◌≢◌, refl, ◌↔◌, ◌⊎◌, Bool, false, Option, none, some, List, [], ◌∷◌, Text, Text-eq, text_eq,
  contains, lookup, insert, codes, pos, err, split_on,
}
use adtp.Samples.{zeros}
use adtp.Api.Messages.{failure, code_denied, code_rate_limited}
use adtp.Api.Oidc.{Jwk, Claims, OidcCodec, Instant, unix, parse_jwks, verify_token, wrong_issuer}
use adtp.Api.Middleware.{HttpRequest, refused, passed, router}
use adtp.Api.Middleware.Authenticated.{IsOpen, IsAuthenticated, router_iff}

abbrev claims : Claims
claims = record {
  iss = codes "idp";
  sub = codes "ann";
  aud = codes "adtp";
  exp = pos 2000;
  nbf = pos 0;
}

abbrev codec : OidcCodec
codec = record {
  b64_decode = λ s. some s;
  unmarshal_header = λ _. some (record { alg = codes "RS256"; kid = codes "k" });
  unmarshal_claims = λ _. some claims;
  unmarshal_string = λ s. some s;
  unmarshal_strings = λ _. none;
  sha256 = λ s. s;
  rsa_verify = λ _ _ sig. text_eq sig (codes "s");
}

abbrev jwks : List Jwk
jwks = record { kty = codes "RSA"; kid = codes "k"; n = 128 ∷ zeros 255; e = 1 ∷ 0 ∷ 1 ∷ [] } ∷ []

abbrev now : Instant
now = unix (pos 2060)

other_issuer_run :
    verify_token codec (codes "other") (codes "adtp") (parse_jwks codec jwks) now (codes "h.p.s")
    ≡ err wrong_issuer
unfolding verify_token parse_jwks text_eq contains lookup insert split_on unix
other_issuer_run = refl

abbrev keyed : HttpRequest
keyed = record { path = codes "/v1/verify"; authorization = codes "Bearer k1" }

abbrev keys : List Text
keys = codes "k0" ∷ codes "k1" ∷ []

keyed_run :
    (router none none keys keyed ≡ passed none)
    × (router none none keys (record keyed { authorization = codes "Bearer " })
        ≡ refused (failure 401 code_denied))
    × (router (some false) none keys keyed ≡ refused (failure 429 code_rate_limited))
    × (router (some false) none [] (record keyed { path = codes "/health" }) ≡ passed none)
unfolding router text_eq
keyed_run = (refl, refl, refl, refl)

router_iff_example : (router none none keys keyed ≡ passed none) ↔ (
    (IsOpen keyed × (◌≡◌ {A = Option Text} none none))
    ⊎ (¬ IsOpen keyed
        × (◌≢◌ {A = Option Bool} none (some false))
        × IsAuthenticated none keys keyed none))
router_iff_example = router_iff none none keys keyed none
