-- ===== src/Api/Middleware/Authenticated.antt =====
-- Which requests reach a handler.
use adtp.Prelude.{
  ◌≡◌, ◌≢◌, refl, sym, ap, ◌∙◌, ◌↔◌, ◌⊎◌, inl, inr, Bool, true, false, Option, none, some, List, [],
  ◌∷◌, ◌++◌, Text, Text-eq, codes, ◌==◌, if◌then◌else◌, Result, ok, err, arith, eq_iff, Occurs,
  Bool-cases, Option-cases, Result-cases, strip_prefix, strip_prefix-append, append-strip_prefix,
  false-ne-true,
}
use adtp.Credential.Capability.{is_empty_iff}
use adtp.Api.Oidc.{OidcErr}
use adtp.Api.Middleware.{
  HttpRequest, Gate, passed, bearer_prefix, auth_bypass, contains_loop, constant_time_contains,
  auth_middleware, oidc_middleware, auth_gate, rate_limited, router,
}

-- The two paths that are open to everyone.
abbrev pub IsOpen : HttpRequest → Type 0
IsOpen r = (r.path ≡ codes "/health") ⊎ (r.path ≡ codes "/v1/revocation/list")

auth_bypass_iff : (r : HttpRequest) → (auth_bypass r ≡ true) ↔ IsOpen r
unfolding auth_bypass
auth_bypass_iff r =
    ground (arith, eq_iff r.path (codes "/health"), eq_iff r.path (codes "/v1/revocation/list"))

contains_loop_iff :
    (matched : Bool) (keys : List Text) (key : Text)
    → (contains_loop matched keys key ≡ true) ↔ ((matched ≡ true) ⊎ Occurs key keys)
unfolding contains_loop
contains_loop_iff matched [] key = ground arith
contains_loop_iff matched (k ∷ ks) key =
    ground (arith, eq_iff k key, contains_loop_iff (if k == key then true else matched) ks key)

constant_time_contains_iff :
    (keys : List Text) (key : Text) → (constant_time_contains keys key ≡ true) ↔ Occurs key keys
unfolding constant_time_contains
constant_time_contains_iff keys key = ground (arith, contains_loop_iff false keys key)

-- Who stands behind a request that is passed on.
abbrev pub IsAuthenticated :
    Option (Text → Result OidcErr Text) → List Text → HttpRequest → Option Text → Type 0
IsAuthenticated none keys r principal =
    (principal ≡ none)
    × ((key : Text) × (r.authorization ≡ bearer_prefix ++ key) × (key ≢ []) × Occurs key keys)
IsAuthenticated (some verify) keys r principal =
    (token : Text) × (sub : Text) × (r.authorization ≡ bearer_prefix ++ token)
    × (verify token ≡ ok sub)
    × (principal ≡ some sub)

strip_prefix_iff :
    (r : HttpRequest) (key : Text)
    → (strip_prefix bearer_prefix r.authorization ≡ some key)
      ↔ (r.authorization ≡ bearer_prefix ++ key)
strip_prefix_iff r key = (
  λ h. sym (append-strip_prefix bearer_prefix r.authorization key h),
  λ h. ap (strip_prefix bearer_prefix) h ∙ strip_prefix-append bearer_prefix key,
)

api_key_iff :
    (keys : List Text) (r : HttpRequest) (principal : Option Text)
    → auth_bypass r ≡ false
    → (auth_middleware keys r ≡ passed principal) ↔ IsAuthenticated none keys r principal
unfolding auth_middleware
api_key_iff keys r principal closed = (
  λ h. elim (Option-cases (strip_prefix bearer_prefix r.authorization)) [
    | inl q ↦ absurd (ground arith)
    | inr (key, q) ↦ (
      ground arith,
      (
        key,
        (strip_prefix_iff r key).0 q,
        λ e. absurd (ground (arith, is_empty_iff key)),
        ground (arith, constant_time_contains_iff keys key),
      ),
    )
  ],
  λ h.
      let (same, (key, q, n, o)) = h in
      let known = (constant_time_contains_iff keys key).1 o in
      rw (closed, (strip_prefix_iff r key).1 q) (ground (arith, is_empty_iff key)),
)

token_iff :
    (verify : Text → Result OidcErr Text) (keys : List Text) (r : HttpRequest)
    (principal : Option Text)
    → auth_bypass r ≡ false
    → (oidc_middleware verify r ≡ passed principal) ↔ IsAuthenticated (some verify) keys r principal
unfolding oidc_middleware
token_iff verify keys r principal closed = (
  λ h. elim (Option-cases (strip_prefix bearer_prefix r.authorization)) [
    | inl q ↦ absurd (ground arith)
    | inr (token, q) ↦ elim (Result-cases (verify token)) [
      | err (e, p) ↦ absurd (ground arith)
      | ok (sub, p) ↦ (token, sub, (strip_prefix_iff r token).0 q, p, ground arith)
    ]
  ],
  λ h.
      let (token, sub, q, p, same) = h in
      rw (closed, (strip_prefix_iff r token).1 q) (ground arith),
)

gate_iff :
    (verify : Option (Text → Result OidcErr Text)) (keys : List Text) (r : HttpRequest)
    (principal : Option Text)
    → auth_bypass r ≡ false
    → (auth_gate verify keys r ≡ passed principal) ↔ IsAuthenticated verify keys r principal
unfolding auth_gate
gate_iff none keys r principal closed = api_key_iff keys r principal closed
gate_iff (some verify) keys r principal closed = token_iff verify keys r principal closed

gate_open :
    (verify : Option (Text → Result OidcErr Text)) (keys : List Text) (r : HttpRequest)
    → auth_bypass r ≡ true
    → auth_gate verify keys r ≡ passed none
unfolding auth_gate auth_middleware oidc_middleware
gate_open none keys r e = rw e refl
gate_open (some verify) keys r e = rw e refl

limited_iff :
    (limiter : Option Bool) (next : HttpRequest → Gate) (r : HttpRequest) (principal : Option Text)
    → auth_bypass r ≡ false
    → (rate_limited limiter next r ≡ passed principal)
      ↔ ((limiter ≢ some false) × (next r ≡ passed principal))
unfolding rate_limited
limited_iff none next r principal closed = (λ h. (λ e. cc, h), λ h. h.1)
limited_iff (some true) next r principal closed = rw closed (λ h. (λ e. cc, h), λ h. h.1)
limited_iff (some false) next r principal closed = rw closed (λ h. cc, λ h. absurd (h.0 refl))

open_limited :
    (limiter : Option Bool) (next : HttpRequest → Gate) (r : HttpRequest)
    → auth_bypass r ≡ true
    → rate_limited limiter next r ≡ next r
unfolding rate_limited
open_limited none next r e = refl
open_limited (some allowed) next r e = rw e refl

passed_inj : {a b : Option Text} → passed a ≡ passed b → a ≡ b
passed_inj h = cc

-- A request reaches the handlers exactly if its path is open, and then without a subject, or if the rate limit lets it
-- through and it brings, behind "Bearer ", one of the daemon's API keys, which is not empty, or, where tokens are
-- used, a token that Verify accepts, and then with its subject.
pub router_iff :
    (limiter : Option Bool) (verify : Option (Text → Result OidcErr Text)) (keys : List Text)
    (r : HttpRequest) (principal : Option Text)
    → (router limiter verify keys r ≡ passed principal) ↔ (
        (IsOpen r × (principal ≡ none))
        ⊎ (¬ IsOpen r × (limiter ≢ some false) × IsAuthenticated verify keys r principal))
unfolding router
router_iff limiter verify keys r principal = elim (Bool-cases (auth_bypass r)) [
  | inl e ↦
      let at = open_limited limiter (auth_gate verify keys) r e ∙ gate_open verify keys r e in
      (
        λ h. inl ((auth_bypass_iff r).0 e, passed_inj (sym h ∙ at)),
        λ h. elim h [
          | inl (_, same) ↦ at ∙ ap passed (sym same)
          | inr (n, _, _) ↦ absurd (n ((auth_bypass_iff r).0 e))
        ],
      )
  | inr e ↦ (
    λ h.
        let (l, g) = (limited_iff limiter (auth_gate verify keys) r principal e).0 h in
        inr (
          λ o. false-ne-true (sym e ∙ (auth_bypass_iff r).1 o),
          l,
          (gate_iff verify keys r principal e).0 g,
        ),
    λ h. elim h [
      | inl (o, _) ↦ absurd (false-ne-true (sym e ∙ (auth_bypass_iff r).1 o))
      | inr (_, l, a) ↦
          (limited_iff limiter (auth_gate verify keys) r principal e).1
            (l, (gate_iff verify keys r principal e).1 a)
    ],
  )
]
