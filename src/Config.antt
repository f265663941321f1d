-- ===== src/Config.antt =====
-- config/config.go: the daemon's configuration, its overlay by the environment, and its validation.
-- YAML decoding and url.Parse (which gives scheme and host) are parameters. The rate limit is a float and
-- nothing here reads it; it is left out.
mod Settings
pub mod Loaded
mod Tests
use adtp.Prelude.{
  ℕ, Bool, true, false, not, ◌&&◌, ◌||◌, Option, none, some, List, [], ◌∷◌, Text, Text-eq, ℕ-eq,
  codes, ◌==◌, if◌then◌else◌, Result, ok, err, ◌>>=◌, ◌>>◌, fail_if, ok_or, ℤ, pos, ltb_ℤ, leb_ℤ,
  contains, split_on, trim_space, atoi,
}
unfoldable pub use Settings.*
use adtp.Credential.Capability.{is_empty}

-- A variable that is set replaces the text.
override : Text → Text → Text
unfolding is_empty
override v held = if is_empty v then held else v

override_number : ConfigErr → Text → ℤ → Result ConfigErr ℤ
unfolding is_empty atoi
override_number e v held = if is_empty v then ok held else ok_or e (atoi v)

-- The keys between the commas, without white space and without the empty ones.
non_empty_keys : List Text → List Text
unfolding is_empty trim_space
non_empty_keys [] = []
non_empty_keys (k ∷ ks) =
    let rest = non_empty_keys ks in
    let key = trim_space k in if is_empty key then rest else key ∷ rest

override_keys : Text → List Text → List Text
unfolding is_empty split_on non_empty_keys
override_keys v held = if is_empty v then held else non_empty_keys (split_on b',' v)

-- applyEnv
unfoldable pub apply_env : (Text → Text) → Config → Result ConfigErr Config
unfolding override override_number override_keys
apply_env env c = do
  port ← override_number invalid_port (env (codes "ADTP_SERVER_PORT")) c.server.port
  depth ←
      override_number invalid_number (env (codes "ADTP_VERIFY_MAX_CHAIN_DEPTH"))
        c.verify.max_chain_depth
  skew ←
      override_number invalid_number (env (codes "ADTP_VERIFY_CLOCK_SKEW_SECONDS"))
        c.verify.clock_skew_seconds
  ok (record c {
    server = record c.server {
      host = override (env (codes "ADTP_SERVER_HOST")) c.server.host;
      port = port;
      api_keys = override_keys (env (codes "ADTP_SERVER_API_KEYS")) c.server.api_keys;
      tls_cert = override (env (codes "ADTP_SERVER_TLS_CERT")) c.server.tls_cert;
      tls_key = override (env (codes "ADTP_SERVER_TLS_KEY")) c.server.tls_key;
    };
    store = record {
      backend = override (env (codes "ADTP_STORE_BACKEND")) c.store.backend;
      postgres = override (env (codes "ADTP_STORE_POSTGRES")) c.store.postgres;
    };
    identity = record {
      platform_did = override (env (codes "ADTP_IDENTITY_PLATFORM_DID")) c.identity.platform_did;
      platform_key_path =
          override (env (codes "ADTP_IDENTITY_PLATFORM_KEY")) c.identity.platform_key_path;
    };
    verify = record c.verify {
      max_chain_depth = depth;
      clock_skew_seconds = skew;
      default_risk_tier =
          override (env (codes "ADTP_VERIFY_DEFAULT_RISK_TIER")) c.verify.default_risk_tier;
    };
  })

check_backend : StoreConfig → Result ConfigErr Unit
unfolding is_empty
check_backend s =
    if s.backend == backend_memory
    then ok tt
    else if s.backend == backend_postgres
    then fail_if (is_empty s.postgres) missing_dsn
    else err invalid_backend

-- The values that replace absent ones.
pub default_verify : VerifyConfig → VerifyConfig
unfolding is_empty
default_verify v = record v {
  max_chain_depth = if leb_ℤ v.max_chain_depth (pos 0) then pos 10 else v.max_chain_depth;
  clock_skew_seconds = if leb_ℤ v.clock_skew_seconds (pos 0) then pos 60 else v.clock_skew_seconds;
  default_risk_tier = if is_empty v.default_risk_tier then codes "HIGH" else v.default_risk_tier;
}

pub default_auth : AuthConfig → AuthConfig
unfolding is_empty
default_auth a = record a {
  auth_mode = if is_empty a.auth_mode then auth_mode_api_key else a.auth_mode;
}

-- The scheme and the host of a URL that parses.
secure : Option (Text × Text) → Bool
unfolding is_empty
secure none = false
secure (some (scheme, host)) = (scheme == codes "https") && not (is_empty host)

module _ (parse_url : Text → Option (Text × Text)) where
  -- requireHTTPS
  require_https : Text → Result ConfigErr Unit
  unfolding secure
  require_https raw = fail_if (not (secure (parse_url raw))) insecure_jwks

  check_auth : AuthConfig → Result ConfigErr Unit
  unfolding is_empty require_https
  check_auth a =
      if a.auth_mode == auth_mode_api_key
      then ok tt
      else if a.auth_mode == auth_mode_oidc
      then if is_empty a.oidc.issuer || is_empty a.oidc.audience || is_empty a.oidc.jwks_url
        then err incomplete_oidc
        else require_https a.oidc.jwks_url
      else err invalid_auth_mode

  -- Config.validate, and the configuration that it leaves.
  unfoldable pub validate : Config → Result ConfigErr Config
  unfolding is_empty check_backend default_verify default_auth check_auth contains
  validate c = do
    fail_if (leb_ℤ c.server.port (pos 0) || ltb_ℤ (pos 65535) c.server.port) invalid_port
    fail_if
        (not (is_empty c.server.tls_cert) && is_empty c.server.tls_key
          || is_empty c.server.tls_cert && not (is_empty c.server.tls_key))
        incomplete_tls
    check_backend c.store
    let verify = default_verify c.verify
    fail_if (not (contains risk_tiers verify.default_risk_tier)) invalid_risk_tier
    let auth = default_auth c.auth
    check_auth auth
    ok (record c { verify = verify; auth = auth })

-- What os.ReadFile finds.
pub data File : Type 0 where
  missing unreadable_file : File
  contents : Text → File

-- The YAML in the file, over the defaults; an empty path is no file.
pub read_over : (Text → Config → Option Config) → File → Config → Result ConfigErr Config
read_over decode missing c = ok c
read_over decode unreadable_file c = err unreadable
read_over decode (contents t) c = ok_or unparsable (decode t c)

-- Load
unfoldable pub load :
    (Text → Option (Text × Text))
    → (Text → Config → Option Config)
    → (Text → Text)
    → File
    → Result ConfigErr Config
unfolding read_over apply_env validate
load parse_url decode env file = do
  read ← read_over decode file default_config
  overlaid ← apply_env env read
  validate parse_url overlaid

-- TLSEnabled
unfoldable pub tls_enabled : Config → Bool
unfolding is_empty
tls_enabled c = not (is_empty c.server.tls_cert) && not (is_empty c.server.tls_key)
