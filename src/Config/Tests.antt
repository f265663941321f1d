-- ===== src/Config/Tests.antt =====
-- Runs of Load, and the theorem at a concrete input.
use adtp.Prelude.{
  ◌≡◌, refl, ◌↔◌, Option, none, [], ◌∷◌, Text, Text-eq, text_eq, contains, codes, ◌==◌,
  if◌then◌else◌, ok, err, pos,
}
use adtp.Config.{
  Config, missing, default_config, load, read_over, apply_env, invalid_risk_tier, invalid_port,
}
use adtp.Config.Loaded.{defaulted, IsValid, load_iff}

abbrev only : Text → Text → Text → Text
only name value asked = if asked == name then value else []

abbrev env : Text → Text
env asked =
    if asked == codes "ADTP_SERVER_API_KEYS"
    then codes " k1 ,, k2"
    else only (codes "ADTP_SERVER_PORT") (codes "9090") asked

abbrev loaded : Config
loaded = record default_config {
  server = record default_config.server {
    port = pos 9090;
    api_keys = codes "k1" ∷ codes "k2" ∷ [];
  };
}

abbrev no_url : Text → Option (Text × Text)
no_url _ = none

abbrev no_yaml : Text → Config → Option Config
no_yaml _ _ = none

load_run : load no_url no_yaml env missing ≡ ok loaded
unfolding load text_eq contains
load_run = refl

bad_tier_run :
    load no_url no_yaml (only (codes "ADTP_VERIFY_DEFAULT_RISK_TIER") (codes "high")) missing
    ≡ err invalid_risk_tier
unfolding load text_eq contains
bad_tier_run = refl

bad_port_run :
    load no_url no_yaml (only (codes "ADTP_SERVER_PORT") (codes "65536")) missing ≡ err invalid_port
unfolding load text_eq contains
bad_port_run = refl

load_iff_example : (load no_url no_yaml env missing ≡ ok loaded) ↔ (
    (read : Config) × (overlaid : Config) × (read_over no_yaml missing default_config ≡ ok read)
    × (apply_env env read ≡ ok overlaid)
    × (loaded ≡ defaulted overlaid)
    × IsValid no_url loaded)
load_iff_example = load_iff no_url no_yaml env missing loaded
