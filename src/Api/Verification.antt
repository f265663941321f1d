-- ===== src/Api/Verification.antt =====
-- api/v1/handlers.go: POST /v1/verify, with the invocation that is verified.
pub mod Authorized
pub mod Unbound
use adtp.Prelude.{
  ℕ, ℤ, pos, Bool, true, false, not, ◌||◌, Option, none, some, List, [], ◌∷◌, Text, Text-eq, codes,
  ◌==◌, if◌then◌else◌, Result, ok, err, map_err, ok_or, fail_if, split_on, length,
}
use adtp.Prelude.Steps.{◌>>=◌, ◌>>◌, pure, lift}
use adtp.Credential.Capability.{is_empty}
use adtp.Identity.KeyStore
use adtp.Delegation.{Chain}
use adtp.Store.Memory
use adtp.Verify.Errors.{VerificationError, RiskTier, analytics, low, medium, high}
use adtp.Verify.Config.{VerifierConfig, UcanInvocation, VerificationResult}
use adtp.Verify.Pop.{create_invocation}
use adtp.Verify.Run.{State, verify}
use adtp.Api.Messages.{
  VerifyRequest, VerifyResponse, Response, Body, verified, bad_request, external_code, read_json,
}
use adtp.Api.Service.{Env, Service, Daemon, Draws, Handled, written, proofs}
use adtp.Api.Handlers.{refuse_if, audience_of}

-- parseTier
unfoldable pub parse_tier : Text → RiskTier
parse_tier s =
    if s == codes "HIGH"
    then high
    else if s == codes "LOW"
    then low
    else if s == codes "ANALYTICS"
    then analytics
    else medium

-- rejectWildcardResource: whether a segment is a wildcard.
wildcard_in : List Text → Bool
wildcard_in [] = false
wildcard_in (seg ∷ segs) = (seg == codes "*") || (seg == codes "**") || wildcard_in segs

unfoldable pub has_wildcard_segment : Text → Bool
unfolding wildcard_in split_on
has_wildcard_segment resource = wildcard_in (split_on b'/' resource)

-- verifierConfig. The stores are those of the daemon as it is when the request is served.
unfoldable pub verifier_config : Service → Daemon → VerifierConfig
unfolding parse_tier proofs Memory.get_status Memory.contains_link
verifier_config svc d = record {
  verifier_did = svc.platform_did;
  trusted_root_dids = λ did. did == svc.platform_did;
  max_chain_depth = svc.config.verify.max_chain_depth;
  clock_skew_seconds = svc.config.verify.clock_skew_seconds;
  risk_tier_fn = some (λ _. parse_tier svc.config.verify.default_risk_tier);
  proof_store = some (proofs d);
  revocation_cache = some (λ subject. ok (Memory.get_status d.store subject));
  registration_store = some (Memory.contains_link d.store);
  trust_policies = [];
  audit_log = true;
  expected_channel_binding = [];
  start_time = svc.start_time;
  metering_enabled = false;
}

-- The chain of a request has one element: the leaf.
the_leaf : List Text → Option Text
the_leaf [] = none
the_leaf (leaf ∷ []) = some leaf
the_leaf (leaf ∷ _ ∷ _) = none

chain_length : Option Chain → ℕ
chain_length none = 0
chain_length (some chain) = length chain.elements

error_code_of : Bool → Option VerificationError → Text
unfolding external_code
error_code_of accepted none = []
error_code_of accepted (some e) = if accepted then [] else external_code e

-- The answer to a verification.
unfoldable pub verify_response : RiskTier → VerificationResult → VerifyResponse
unfolding chain_length error_code_of
verify_response tier res = record {
  authorized = res.accepted;
  chain_depth = chain_length res.chain;
  risk_tier = tier;
  error_code = error_code_of res.accepted res.error;
}

module _ (env : Env) (svc : Service) (draws : Draws) where
  -- The invocation that the daemon signs with the key of the leaf's audience.
  unfoldable pub custodial_invocation : VerifyRequest → Text → Daemon → Option UcanInvocation
  unfolding proofs audience_of KeyStore.load create_invocation
  custodial_invocation req leaf d = elim (proofs d leaf) [
    | none ↦ none
    | some raw ↦ elim (audience_of env.world.codecs raw) [
      | none ↦ none
      | some aud ↦ elim (KeyStore.load d.keys aud) [
        | err _ ↦ none
        | ok key ↦
            elim (create_invocation env.world.codecs.crypto env.world.unsigned leaf req.action
              req.resource req.parameters key svc.platform_did [] draws.nonce (draws.reading 0)) [
                | err _ ↦ none
                | ok inv ↦ some inv
              ]
      ]
    ]
  ]

  -- invocationFor: the client's invocation, or the daemon's where that is switched on.
  unfoldable pub invocation_for : VerifyRequest → Text → Daemon → Option UcanInvocation
  unfolding is_empty custodial_invocation
  invocation_for req leaf d =
      if is_empty req.invocation
      then if svc.config.verify.allow_custodial_invocation
        then custodial_invocation req leaf d
        else none
      else env.unmarshal_invocation req.invocation

  -- The call of Verify on the daemon's nonce cache and audit log.
  unfoldable pub run_verify : UcanInvocation → Daemon → Daemon × VerificationResult
  unfolding verify verifier_config
  run_verify inv d =
      let (s, res) =
        verify env.world (verifier_config svc d) none (some inv) draws.verifying
          (record { nonces = d.nonces; audit = d.store.audit_log }) in
      (record d { nonces = s.nonces; store = record d.store { audit_log = s.audit } }, res)

  unfoldable pub respond : UcanInvocation → Handled Response
  unfolding verify_response parse_tier
  respond inv d =
      let (d', res) = run_verify inv d in
      (d', ok (verified (verify_response (parse_tier svc.config.verify.default_risk_tier) res)))

  -- The checks of the request, and the invocation to verify.
  unfoldable pub admitted : VerifyRequest → Daemon → Option UcanInvocation
  unfolding is_empty the_leaf has_wildcard_segment invocation_for
  admitted req d = elim (the_leaf req.chain_cids) [
    | none ↦ none
    | some leaf ↦
        if is_empty req.action || is_empty req.resource || has_wildcard_segment req.resource
        then none
        else invocation_for req leaf d
  ]

  -- handleVerify. Every early return is a malformed request.
  unfoldable pub handle_verify : Body VerifyRequest → Daemon → Daemon × Response
  unfolding read_json admitted
  handle_verify body d = written (
      (do req ← lift (read_json body); inv ← lift (ok_or bad_request (admitted req d)); respond inv)
        d)
