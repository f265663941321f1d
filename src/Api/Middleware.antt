-- ===== src/Api/Middleware.antt =====
-- api/v1/middleware.go, the middleware of oidc.go, and api.go: what stands before the handlers. A request is the
-- part of it that this reads; net/http's ServeMux then chooses the handler. The token bucket is
-- golang.org/x/time/rate's, and gives its answer as an argument.
pub mod Authenticated
use adtp.Prelude.{
  ℕ, Bool, true, false, not, ◌&&◌, ◌||◌, Option, none, some, List, [], ◌∷◌, ◌++◌, Text, Text-eq,
  codes, ◌==◌, if◌then◌else◌, Result, ok, err, strip_prefix,
}
use adtp.Credential.Capability.{is_empty}
use adtp.Api.Messages.{Response, failure, code_denied, code_rate_limited}
use adtp.Api.Oidc.{OidcCodec, OidcErr, JwksErr, RsaKey, Instant, verify_token}

pub record HttpRequest : Type 0 where
  pub path : Text
  pub authorization : Text

abbrev pub bearer_prefix : Text
bearer_prefix = codes "Bearer "

-- What stands before the handlers: it answers itself, or passes on, with the subject of a token.
pub data Gate : Type 0 where
  refused : Response → Gate
  passed : Option Text → Gate

abbrev pub unauthorized : Gate
unauthorized = refused (failure 401 code_denied)

-- authBypass
unfoldable pub auth_bypass : HttpRequest → Bool
auth_bypass r = r.path == codes "/health" || r.path == codes "/v1/revocation/list"

-- constantTimeContains: every key is compared, and the match is kept.
contains_loop : Bool → List Text → Text → Bool
contains_loop matched [] candidate = matched
contains_loop matched (k ∷ ks) candidate =
    contains_loop (if k == candidate then true else matched) ks candidate

unfoldable pub constant_time_contains : List Text → Text → Bool
unfolding contains_loop
constant_time_contains keys candidate = contains_loop false keys candidate

-- AuthMiddleware
unfoldable pub auth_middleware : List Text → HttpRequest → Gate
unfolding auth_bypass strip_prefix is_empty constant_time_contains
auth_middleware keys r =
    if auth_bypass r then passed none else elim (strip_prefix bearer_prefix r.authorization) [
      | none ↦ unauthorized
      | some key ↦
          if is_empty key || not (constant_time_contains keys key)
          then unauthorized
          else passed none
    ]

-- OIDCMiddleware; `verify` is the verifier's method.
unfoldable pub oidc_middleware : (Text → Result OidcErr Text) → HttpRequest → Gate
unfolding auth_bypass strip_prefix
oidc_middleware verify r =
    if auth_bypass r then passed none else elim (strip_prefix bearer_prefix r.authorization) [
      | none ↦ unauthorized
      | some token ↦ elim (verify token) [ err _ ↦ unauthorized | ok sub ↦ passed (some sub) ]
    ]

-- authGate: with an OIDC verifier, tokens; without one, API keys.
unfoldable pub auth_gate : Option (Text → Result OidcErr Text) → List Text → HttpRequest → Gate
unfolding oidc_middleware auth_middleware
auth_gate none keys r = auth_middleware keys r
auth_gate (some verify) keys r = oidc_middleware verify r

-- RateLimitMiddleware around the gate, if a limit is set: whether the limiter allows the request.
unfoldable pub rate_limited : Option Bool → (HttpRequest → Gate) → HttpRequest → Gate
unfolding auth_bypass
rate_limited none next r = next r
rate_limited (some allowed) next r =
    if auth_bypass r || allowed then next r else refused (failure 429 code_rate_limited)

-- NewRouter, before the mux.
unfoldable pub router :
    Option Bool → Option (Text → Result OidcErr Text) → List Text → HttpRequest → Gate
unfolding rate_limited auth_gate
router limiter verify keys r = rate_limited limiter (auth_gate verify keys) r
