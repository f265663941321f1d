-- ===== src/Verify/Run.antt =====
-- internal/verify/verifier.go: Verify, which runs the steps and records the outcome.
-- The state is the nonce cache and the audit log. The interfaces of other parts come as `World`.
pub mod Accepted
use adtp.Prelude.{
  ℕ, ◌≡◌, refl, Bool, true, false, not, ◌&&◌, Option, none, some, List, [], ◌∷◌, Text, Text-eq,
  ℕ-eq, codes, ◌==◌, if◌then◌else◌, Result, ok, err, ◌>>=◌, ◌>>◌, fail_if, ℤ, pos, ltb_ℤ,
}
use adtp.Signing.{Crypto}
use adtp.Credential.Capability.{Capability, is_empty}
use adtp.Credential.Ucan.{Ucan, token_cid}
use adtp.Delegation.{ChainElement, Chain, ProofStore, Codecs}
use adtp.Audit.{
  AuditEntry, AuditCodec, MemoryAuditLog, Field, Payload, append, capability_invoked,
  capability_denied,
}
use adtp.Audit
use adtp.Verify.Errors.{VerificationError, ErrorCode, RiskTier, medium, verr}
use adtp.Verify.Errors
use adtp.Verify.Codes.{code_text}
use adtp.Verify.Caveats.{InvocationContext}
use adtp.Verify.Config.{VerifierConfig, UcanInvocation, Clock, VerificationResult}
use adtp.Verify.Pop.{MemoryNonceCache, verify_invocation}
use adtp.Verify.Elements.{Step, refuse_if, leaf_cid, leaf_aud}
use adtp.Verify.Unrevoked.{step6_revocation}
use adtp.Verify.Authorize.{step8_authorization}
use adtp.Verify.Steps.{
  step0_structural, step1_build_chain, step2_linkage, step3_root_trust, step4_signatures,
  step5_temporal, step7_attenuation, step9_cross_org, step11_registration,
}

-- What the verifier calls outside its package.
pub record World : Type 0 where
  pub codecs : Codecs
  pub parse_did : Text → Option Text
  pub unsigned : UcanInvocation → Option Text
  pub audit_codec : AuditCodec
  pub iterate : List Text → List Text

pub record State : Type 0 where
  pub nonces : MemoryNonceCache
  pub audit : MemoryAuditLog

-- VerifierConfig.clockSkew and tierFor
unfoldable pub clock_skew : VerifierConfig → ℤ
clock_skew config =
    if ltb_ℤ (pos 0) config.clock_skew_seconds then config.clock_skew_seconds else pos 60

unfoldable pub tier_for : VerifierConfig → Text → RiskTier
tier_for config resource = elim config.risk_tier_fn [ none ↦ medium | some f ↦ f resource ]

base_store : Option ProofStore → ProofStore
base_store none cid = none
base_store (some store) cid = store cid

module _ (w : World) where
  -- effectiveStore: the inline token is found under its CID.
  unfoldable pub effective_store : VerifierConfig → Option Ucan → ProofStore
  unfolding base_store token_cid
  effective_store config none cid = base_store config.proof_store cid
  effective_store config (some u) cid =
      if cid == token_cid w.codecs.crypto u then some u.raw else base_store config.proof_store cid

  -- The steps on a chain up to 8: whether the chain crosses organizations, and the capability.
  unfoldable pub chain_steps :
      VerifierConfig → UcanInvocation → Clock → Chain → Result VerificationError (Bool × Capability)
  unfolding clock_skew tier_for step0_structural step2_linkage step3_root_trust step4_signatures
      step5_temporal step6_revocation step7_attenuation step8_authorization
  chain_steps config inv clock chain = do
    step0_structural w.codecs.blocks.valid_ijson chain
    step2_linkage chain
    cross ← step3_root_trust chain config
    step4_signatures w.codecs w.parse_did chain
    step5_temporal chain clock.temporal (clock_skew config)
    step6_revocation w.iterate chain config (tier_for config inv.run.resource)
    step7_attenuation chain
    cap ← step8_authorization chain (record {
      action = inv.run.action;
      resource = inv.run.resource;
      parameters = inv.run.parameters;
      now = clock.authorization;
      metering_enabled = config.metering_enabled;
    })
    ok (cross, cap)

  channel_bound : VerifierConfig → UcanInvocation → Step
  unfolding is_empty
  channel_bound config inv =
      refuse_if
        (not (is_empty config.expected_channel_binding)
          && not (inv.cb == config.expected_channel_binding))
        10 Errors.pop_failed

  then_bound : VerifierConfig → UcanInvocation → MemoryNonceCache × Step → MemoryNonceCache × Step
  unfolding channel_bound
  then_bound config inv (nonces, err e) = (nonces, err e)
  then_bound config inv (nonces, ok _) = (nonces, channel_bound config inv)

  -- Step 10, for an invocation that is there: the nonces after it, and its outcome.
  unfoldable pub step10_pop :
      VerifierConfig → UcanInvocation → Text → Clock → MemoryNonceCache → MemoryNonceCache × Step
  unfolding then_bound verify_invocation
  step10_pop config inv leaf clock nonces =
      if ltb_ℤ (pos 0) config.start_time && ltb_ℤ inv.iat config.start_time
      then (nonces, err (verr 10 Errors.pop_failed))
      else then_bound config inv (
          verify_invocation w.codecs.crypto w.unsigned w.parse_did nonces inv config.verifier_did
            leaf clock.possession clock.nonce_stored clock.nonce_tested)

  -- Append, if there is an audit log. Its error is dropped.
  record_audit : VerifierConfig → Clock → AuditEntry → State → State
  unfolding append
  record_audit config clock entry s =
      if config.audit_log
      then record s { audit = (append w.audit_codec s.audit entry clock.append).0 }
      else s

  audit_entry : Text → Text → Text → ℤ → Payload → AuditEntry
  audit_entry event agent cid ts payload = record {
    entry_id = [];
    seq = pos 0;
    ts = ts;
    event_type = event;
    agent_id = agent;
    cred_cid = cid;
    chain_hash = [];
    payload = payload;
    prev_hash = [];
    entry_hash = [];
  }

  chain_leaf : Option Chain → Text × Text
  unfolding leaf_cid leaf_aud
  chain_leaf none = ([], [])
  chain_leaf (some chain) = (leaf_cid chain.elements, leaf_aud chain.elements)

  -- `fail`: the denial and its audit entry.
  unfoldable pub deny :
      VerifierConfig
      → Clock
      → Option Chain
      → Option Capability
      → VerificationError
      → State
      → State × VerificationResult
  unfolding record_audit audit_entry chain_leaf code_text
  deny config clock chain cap e s = (
    record_audit config clock
        (audit_entry capability_denied (chain_leaf chain).1 (chain_leaf chain).0 clock.audit (
          (codes "result", Field.text (codes "DENY"))
          ∷ (codes "code", Field.text (code_text e.code))
          ∷ (codes "step", Field.number (pos e.step))
          ∷ []))
        s,
    record { accepted = false; chain = chain; authorized_capability = cap; error = some e },
  )

  -- Step 12 and the result.
  unfoldable pub allow :
      VerifierConfig → Clock → Chain → Capability → State → State × VerificationResult
  unfolding record_audit audit_entry leaf_cid leaf_aud
  allow config clock chain cap s = (
    record_audit config clock
        (audit_entry capability_invoked (leaf_aud chain.elements) (leaf_cid chain.elements)
          clock.audit ((codes "result", Field.text (codes "ALLOW")) ∷ []))
        s,
    record { accepted = true; chain = some chain; authorized_capability = some cap; error = none },
  )

  -- Steps 11 and 12, after the outcome of step 10.
  finish :
      VerifierConfig
      → UcanInvocation
      → Clock
      → Chain
      → Capability
      → State
      → Step
      → State × VerificationResult
  unfolding deny allow step11_registration tier_for
  finish config inv clock chain cap s (err e) = deny config clock (some chain) (some cap) e s
  finish config inv clock chain cap s (ok _) =
      elim (step11_registration chain (tier_for config inv.run.resource)
        config.registration_store) [
          | err e ↦ deny config clock (some chain) (some cap) e s
          | ok _ ↦ allow config clock chain cap s
        ]

  -- Steps 10 to 12, after the outcome of step 9.
  after_cross_org :
      VerifierConfig
      → UcanInvocation
      → Clock
      → Chain
      → Capability
      → State
      → Step
      → State × VerificationResult
  unfolding finish step10_pop leaf_aud deny
  after_cross_org config inv clock chain granted s (err e) =
      deny config clock (some chain) (some granted) e s
  after_cross_org config inv clock chain granted s (ok _) =
      let popped = step10_pop config inv (leaf_aud chain.elements) clock s.nonces in
      finish config inv clock chain granted (record s { nonces = popped.0 }) popped.1

  -- Steps 9 to 12, after the outcome of the steps before.
  present :
      VerifierConfig
      → UcanInvocation
      → Clock
      → Chain
      → State
      → Result VerificationError (Bool × Capability)
      → State × VerificationResult
  unfolding after_cross_org step9_cross_org deny
  present config inv clock chain s (err e) = deny config clock (some chain) none e s
  present config inv clock chain s (ok (cross, granted)) =
      after_cross_org config inv clock chain granted s
        (step9_cross_org chain config.trust_policies cross)

  on_chain :
      VerifierConfig
      → UcanInvocation
      → Clock
      → State
      → Result VerificationError Chain
      → State × VerificationResult
  unfolding present chain_steps
  on_chain config inv clock s (err e) = deny config clock none none e s
  on_chain config inv clock s (ok chain) =
      present config inv clock chain s (chain_steps config inv clock chain)

  -- Verify
  unfoldable pub verify :
      VerifierConfig
      → Option Ucan
      → Option UcanInvocation
      → Clock
      → State
      → State × VerificationResult
  unfolding on_chain effective_store step1_build_chain is_empty
  verify config inline none clock s = deny config clock none none (verr 10 Errors.pop_failed) s
  verify config inline (some inv) clock s =
      if is_empty inv.run.delegation_cid
      then deny config clock none none (verr 0 Errors.malformed) s
      else on_chain config inv clock s (
          step1_build_chain w.codecs inv.run.delegation_cid (effective_store config inline)
            config.max_chain_depth)
