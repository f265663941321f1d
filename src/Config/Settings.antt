-- ===== src/Config/Settings.antt =====
-- config/config.go: the types, the names of the choices, the errors and the defaults.
use adtp.Prelude.{Bool, false, List, [], ◌∷◌, Text, Text-eq, ℕ-eq, codes, ℤ, pos}

pub record ServerConfig : Type 0 where
  pub host : Text
  pub port : ℤ
  pub tls_cert : Text
  pub tls_key : Text
  pub rate_limit_burst : ℤ
  pub api_keys : List Text

pub record StoreConfig : Type 0 where
  pub backend : Text
  pub postgres : Text

pub record IdentityConfig : Type 0 where
  pub platform_did : Text
  pub platform_key_path : Text

pub record VerifyConfig : Type 0 where
  pub max_chain_depth : ℤ
  pub clock_skew_seconds : ℤ
  pub default_risk_tier : Text
  pub reconcile_interval_minutes : ℤ
  pub allow_custodial_invocation : Bool

pub record OidcConfig : Type 0 where
  pub issuer : Text
  pub audience : Text
  pub jwks_url : Text

pub record AuthConfig : Type 0 where
  pub auth_mode : Text
  pub oidc : OidcConfig

pub record SiemWebhookConfig : Type 0 where
  pub url : Text
  pub headers : List (Text × Text)
  pub batch_size : ℤ
  pub flush_interval : Text

pub record Config : Type 0 where
  pub server : ServerConfig
  pub store : StoreConfig
  pub identity : IdentityConfig
  pub verify : VerifyConfig
  pub auth : AuthConfig
  pub siem_webhook : SiemWebhookConfig

abbrev pub auth_mode_api_key : Text
auth_mode_api_key = codes "api_key"

abbrev pub auth_mode_oidc : Text
auth_mode_oidc = codes "oidc"

abbrev pub backend_memory : Text
backend_memory = codes "memory"

abbrev pub backend_postgres : Text
backend_postgres = codes "postgres"

abbrev pub risk_tiers : List Text
risk_tiers = codes "HIGH" ∷ codes "MEDIUM" ∷ codes "LOW" ∷ codes "ANALYTICS" ∷ []

pub data ConfigErr : Type 0 where
  invalid_port invalid_backend missing_dsn invalid_auth_mode incomplete_oidc : ConfigErr
  insecure_jwks invalid_risk_tier incomplete_tls : ConfigErr
  unreadable unparsable invalid_number : ConfigErr

-- Default
abbrev pub default_config : Config
default_config = record {
  server = record {
    host = codes "127.0.0.1";
    port = pos 8080;
    tls_cert = [];
    tls_key = [];
    rate_limit_burst = pos 0;
    api_keys = [];
  };
  store = record { backend = backend_memory; postgres = [] };
  identity = record { platform_did = []; platform_key_path = codes "platform.key" };
  verify = record {
    max_chain_depth = pos 10;
    clock_skew_seconds = pos 60;
    default_risk_tier = codes "HIGH";
    reconcile_interval_minutes = pos 0;
    allow_custodial_invocation = false;
  };
  auth = record {
    auth_mode = auth_mode_api_key;
    oidc = record { issuer = []; audience = []; jwks_url = [] };
  };
  siem_webhook = record { url = []; headers = []; batch_size = pos 0; flush_interval = [] };
}
