-- ===== src/Config/Loaded.antt =====
-- What a configuration that Load returns satisfies.
use adtp.Prelude.{
  ◌≡◌, ◌≢◌, refl, sym, ap, subst, ◌↔◌, ◌⊎◌, inl, inr, Bool, true, false, not, ◌&&◌, ◌||◌, Option,
  none, some, [], Text, Text-eq, ℕ-eq, codes, ◌==◌, ok, fail_if, fail_if-eq-ok, >>=-eq-ok, ok_inj,
  pos, ltb_ℤ, leb_ℤ, ◌<ℤ◌, ◌≤ℤ◌, arith, Occurs, contains, contains_iff, eq_iff, Bool-cases,
}
use adtp.Credential.Capability.{is_empty, is_empty_iff}
use adtp.Config.{
  Config, StoreConfig, VerifyConfig, AuthConfig, File, backend_memory, backend_postgres,
  auth_mode_api_key, auth_mode_oidc, risk_tiers, default_config, default_verify, default_auth,
  check_backend, secure, require_https, check_auth, validate, apply_env, read_over, load,
  invalid_port, incomplete_tls, invalid_risk_tier,
}

-- The configuration with the values that replace absent ones.
abbrev pub defaulted : Config → Config
defaulted c = record c { verify = default_verify c.verify; auth = default_auth c.auth }

module _ (parse_url : Text → Option (Text × Text)) where
  -- A JWKS address that is absolute and https.
  abbrev pub IsSecure : Text → Type 0
  IsSecure raw = (host : Text) × (parse_url raw ≡ some (codes "https", host)) × (host ≢ [])

  pub record IsOidc (a : AuthConfig) : Type 0 where
    pub mode : a.auth_mode ≡ auth_mode_oidc
    pub issuer : a.oidc.issuer ≢ []
    pub audience : a.oidc.audience ≢ []
    pub jwks : a.oidc.jwks_url ≢ []
    pub secured : IsSecure a.oidc.jwks_url

  -- What the daemon relies on.
  pub record IsValid (c : Config) : Type 0 where
    pub port_low : pos 0 <ℤ c.server.port
    pub port_high : c.server.port ≤ℤ pos 65535
    pub tls : (c.server.tls_cert ≡ []) ↔ (c.server.tls_key ≡ [])
    pub backend :
        (c.store.backend ≡ backend_memory)
        ⊎ ((c.store.backend ≡ backend_postgres) × (c.store.postgres ≢ []))
    pub depth : pos 0 <ℤ c.verify.max_chain_depth
    pub skew : pos 0 <ℤ c.verify.clock_skew_seconds
    pub tier : Occurs c.verify.default_risk_tier risk_tiers
    pub auth : (c.auth.auth_mode ≡ auth_mode_api_key) ⊎ IsOidc c.auth

  secure_iff :
      (u : Option (Text × Text))
      → (secure u ≡ true) ↔ ((host : Text) × (u ≡ some (codes "https", host)) × (host ≢ []))
  unfolding secure
  secure_iff none = (λ h. cc, λ h. cc)
  secure_iff (some (scheme, host)) = (
    λ h. (
      host,
      ground (arith, eq_iff scheme (codes "https"), is_empty_iff host),
      ground (arith, is_empty_iff host),
    ),
    λ h.
        let (host', q, n) = h in
        ground (arith, eq_iff scheme (codes "https"), is_empty_iff host, is_empty_iff host'),
  )

  check_backend_iff :
      (s : StoreConfig)
      → (check_backend s ≡ ok tt)
        ↔ ((s.backend ≡ backend_memory) ⊎ ((s.backend ≡ backend_postgres) × (s.postgres ≢ [])))
  unfolding check_backend
  check_backend_iff s = ground (
    arith,
    eq_iff s.backend backend_memory,
    eq_iff s.backend backend_postgres,
    is_empty_iff s.postgres,
  )

  require_https_iff : (raw : Text) → (require_https parse_url raw ≡ ok tt) ↔ IsSecure raw
  unfolding require_https
  require_https_iff raw = (
    λ h. (secure_iff (parse_url raw)).0 (ground arith),
    λ h. let s = (secure_iff (parse_url raw)).1 h in ground arith,
  )

  check_auth_iff :
      (a : AuthConfig)
      → (check_auth parse_url a ≡ ok tt) ↔ ((a.auth_mode ≡ auth_mode_api_key) ⊎ IsOidc a)
  unfolding check_auth
  check_auth_iff a = (
    λ h. elim (Bool-cases (a.auth_mode == auth_mode_api_key)) [
      | inl key ↦ inl ((eq_iff _ _).0 key)
      | inr other ↦ inr (record {
        mode = ground (arith, eq_iff a.auth_mode auth_mode_oidc);
        issuer = ground (arith, is_empty_iff a.oidc.issuer);
        audience = ground (arith, is_empty_iff a.oidc.audience);
        jwks = ground (arith, is_empty_iff a.oidc.jwks_url);
        secured = (require_https_iff a.oidc.jwks_url).0 (ground arith);
      })
    ],
    λ h. elim h [
      | inl key ↦ rw ((eq_iff _ _).1 key) refl
      | inr o ↦
          let https = (require_https_iff a.oidc.jwks_url).1 o.secured in
          let mode = o.mode in
          let issuer = o.issuer in
          let audience = o.audience in
          let jwks = o.jwks in
          ground (
            arith,
            eq_iff a.auth_mode auth_mode_api_key,
            eq_iff a.auth_mode auth_mode_oidc,
            is_empty_iff a.oidc.issuer,
            is_empty_iff a.oidc.audience,
            is_empty_iff a.oidc.jwks_url,
          )
    ],
  )

  default_verify_positive :
      (v : VerifyConfig)
      → (pos 0 <ℤ (default_verify v).max_chain_depth)
        × (pos 0 <ℤ (default_verify v).clock_skew_seconds)
  unfolding default_verify
  default_verify_positive v = ground arith

  module _ (c : Config) where
    port_test : Bool
    port_test = leb_ℤ c.server.port (pos 0) || ltb_ℤ (pos 65535) c.server.port

    tls_test : Bool
    tls_test =
        not (is_empty c.server.tls_cert) && is_empty c.server.tls_key
        || is_empty c.server.tls_cert && not (is_empty c.server.tls_key)

    tier_test : Bool
    tier_test = not (contains risk_tiers (default_verify c.verify).default_risk_tier)

    tls_iff : (tls_test ≡ false) ↔ ((c.server.tls_cert ≡ []) ↔ (c.server.tls_key ≡ []))
    unfolding tls_test
    tls_iff = (
      λ h. ground (arith, is_empty_iff c.server.tls_cert, is_empty_iff c.server.tls_key),
      λ h. ground (arith, h, is_empty_iff c.server.tls_cert, is_empty_iff c.server.tls_key),
    )

    tier_iff : (tier_test ≡ false) ↔ Occurs (default_verify c.verify).default_risk_tier risk_tiers
    unfolding tier_test
    tier_iff = (
      λ h. (contains_iff risk_tiers (default_verify c.verify).default_risk_tier).0 (ground arith),
      λ h.
          let found = (contains_iff risk_tiers (default_verify c.verify).default_risk_tier).1 h in
          rw found refl,
    )

    valid :
        port_test ≡ false
        → tls_test ≡ false
        → check_backend c.store ≡ ok tt
        → tier_test ≡ false
        → check_auth parse_url (default_auth c.auth) ≡ ok tt
        → IsValid (defaulted c)
    unfolding port_test
    valid port tls backend tier auth = record {
      port_low = ground arith;
      port_high = ground arith;
      tls = tls_iff.0 tls;
      backend = (check_backend_iff c.store).0 backend;
      depth = (default_verify_positive c.verify).0;
      skew = (default_verify_positive c.verify).1;
      tier = tier_iff.0 tier;
      auth = (check_auth_iff (default_auth c.auth)).0 auth;
    }

    in_range : IsValid (defaulted c) → port_test ≡ false
    unfolding port_test
    in_range v = let low = v.port_low in let high = v.port_high in ground arith

  -- Validation accepts exactly the configurations that are valid once the defaults are in, and returns them.
  pub validate_iff :
      (c c' : Config)
      → (validate parse_url c ≡ ok c') ↔ ((c' ≡ defaulted c) × IsValid (defaulted c))
  unfolding validate port_test tls_test tier_test
  validate_iff c c' = (
    λ h.
        let (_, port, h1) = >>=-eq-ok (fail_if (port_test c) invalid_port) _ h in
        let (_, tls, h2) = >>=-eq-ok (fail_if (tls_test c) incomplete_tls) _ h1 in
        let (_, backend, h3) = >>=-eq-ok (check_backend c.store) _ h2 in
        let (_, tier, h4) = >>=-eq-ok (fail_if (tier_test c) invalid_risk_tier) _ h3 in
        let (_, auth, h5) = >>=-eq-ok (check_auth parse_url (default_auth c.auth)) _ h4 in
        (
          sym (ok_inj h5),
          valid c (fail_if-eq-ok _ invalid_port port) (fail_if-eq-ok _ incomplete_tls tls) backend
              (fail_if-eq-ok _ invalid_risk_tier tier) auth,
        ),
    λ h.
        let (same, v) = h in
        rw (in_range c v) (
          rw ((tls_iff c).1 v.tls) (
            rw ((check_backend_iff c.store).1 v.backend) (
              rw ((tier_iff c).1 v.tier)
                (rw ((check_auth_iff (default_auth c.auth)).1 v.auth) (ap ok (sym same)))))),
  )

-- Load returns a configuration exactly if the file is absent or readable, it and the environment's numbers
-- can be read, and the result, with defaults for what is absent, is valid: this is what it returns.
pub load_iff :
    (parse_url : Text → Option (Text × Text)) (decode : Text → Config → Option Config)
    (env : Text → Text) (file : File) (c : Config)
    → (load parse_url decode env file ≡ ok c) ↔ (
        (read : Config) × (overlaid : Config) × (read_over decode file default_config ≡ ok read)
        × (apply_env env read ≡ ok overlaid)
        × (c ≡ defaulted overlaid)
        × IsValid parse_url c)
unfolding load
load_iff parse_url decode env file c = (
  λ h.
      let (read, q, h1) = >>=-eq-ok (read_over decode file default_config) _ h in
      let (overlaid, q', h2) = >>=-eq-ok (apply_env env read) _ h1 in
      let (same, v) = (validate_iff parse_url overlaid c).0 h2 in
      (read, overlaid, q, q', same, subst (IsValid parse_url) (sym same) v),
  λ h.
      let (read, overlaid, q, q', same, v) = h in
      rw q (rw q' ((validate_iff parse_url overlaid c).1 (same, subst (IsValid parse_url) same v))),
)
