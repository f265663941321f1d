-- ===== src/Verify/Run/Accepted.antt =====
-- What an accepting run of Verify has checked.
use adtp.Prelude.{
  ◌≡◌, refl, inl, inr, ap, sym, ◌∙◌, Bool, true, false, Option, some, arith, Text-eq, Result, ok,
  err, Result-cases, >>=-eq-ok, Bool-cases,
}
use adtp.Credential.Capability.{Capability, is_empty}
use adtp.Credential.Ucan.{Ucan}
use adtp.Delegation.{Chain, build_chain}
use adtp.Verify.Errors.{VerificationError}
use adtp.Verify.Caveats.{InvocationContext}
use adtp.Verify.Config.{VerifierConfig, UcanInvocation, Clock, VerificationResult}
use adtp.Verify.Elements.{Step, leaf_aud}
use adtp.Verify.Unrevoked.{step6_revocation}
use adtp.Verify.Authorize.{step8_authorization}
use adtp.Verify.Steps.{
  step0_structural, step1_build_chain, step2_linkage, step3_root_trust, step4_signatures,
  step5_temporal, step7_attenuation, step9_cross_org, step11_registration,
}
use adtp.Verify.Run.{
  World, State, clock_skew, tier_for, effective_store, chain_steps, step10_pop, deny, allow, finish,
  after_cross_org, present, on_chain, verify,
}

-- The context in which constraints and caveats are evaluated.
abbrev pub context : VerifierConfig → UcanInvocation → Clock → InvocationContext
context config inv clock = record {
  action = inv.run.action;
  resource = inv.run.resource;
  parameters = inv.run.parameters;
  now = clock.authorization;
  metering_enabled = config.metering_enabled;
}

module _ (w : World) (config : VerifierConfig) (inline : Option Ucan) (inv : UcanInvocation)
    (clock : Clock) where
  -- Every step passed on this chain.
  pub record Passed (s : State) (chain : Chain) (granted : Capability) : Type 0 where
    pub cross : Bool
    pub named : is_empty inv.run.delegation_cid ≡ false
    pub built :
        build_chain w.codecs
          (effective_store w config inline)
          inv.run.delegation_cid
          config.max_chain_depth
        ≡ ok chain
    pub structural : step0_structural w.codecs.blocks.valid_ijson chain ≡ ok tt
    pub linked : step2_linkage chain ≡ ok tt
    pub trusted : step3_root_trust chain config ≡ ok cross
    pub signed : step4_signatures w.codecs w.parse_did chain ≡ ok tt
    pub timely : step5_temporal chain clock.temporal (clock_skew config) ≡ ok tt
    pub unrevoked :
        step6_revocation w.iterate chain config (tier_for config inv.run.resource) ≡ ok tt
    pub attenuated : step7_attenuation chain ≡ ok tt
    pub authorized : step8_authorization chain (context config inv clock) ≡ ok granted
    pub bilateral : step9_cross_org chain config.trust_policies cross ≡ ok tt
    pub possessed : (step10_pop w config inv (leaf_aud chain.elements) clock s.nonces).1 ≡ ok tt
    pub registered :
        step11_registration chain (tier_for config inv.run.resource) config.registration_store
        ≡ ok tt

  step1-ok :
      (chain : Chain)
      → step1_build_chain w.codecs inv.run.delegation_cid
          (effective_store w config inline)
          config.max_chain_depth
        ≡ ok chain
      → build_chain w.codecs
          (effective_store w config inline)
          inv.run.delegation_cid
          config.max_chain_depth
        ≡ ok chain
  unfolding step1_build_chain
  step1-ok chain h = ground arith

  finish-accepted :
      (chain : Chain) (granted : Capability) (s : State) (p : Step)
      → (finish w config inv clock chain granted s p).1.accepted ≡ true
      → (p ≡ ok tt)
        × (step11_registration chain (tier_for config inv.run.resource) config.registration_store
            ≡ ok tt)
        × ((finish w config inv clock chain granted s p).1.chain ≡ some chain)
        × ((finish w config inv clock chain granted s p).1.authorized_capability ≡ some granted)
  unfolding finish deny allow
  finish-accepted chain granted s (err e) h = cc
  finish-accepted chain granted s (ok _) h =
      elim (Result-cases
        (step11_registration chain (tier_for config inv.run.resource) config.registration_store)) [
          | err (e, q) ↦ absurd (ground arith)
          | ok (u, q) ↦ (refl, q, ground arith, ground arith)
        ]

  -- The steps on the chain, before the invocation is looked at.
  record Tested (chain : Chain) (cross : Bool) (granted : Capability) : Type 0 where
    structural : step0_structural w.codecs.blocks.valid_ijson chain ≡ ok tt
    linked : step2_linkage chain ≡ ok tt
    trusted : step3_root_trust chain config ≡ ok cross
    signed : step4_signatures w.codecs w.parse_did chain ≡ ok tt
    timely : step5_temporal chain clock.temporal (clock_skew config) ≡ ok tt
    unrevoked : step6_revocation w.iterate chain config (tier_for config inv.run.resource) ≡ ok tt
    attenuated : step7_attenuation chain ≡ ok tt
    authorized : step8_authorization chain (context config inv clock) ≡ ok granted

  chain_steps-Tested :
      (chain : Chain) (cross : Bool) (granted : Capability)
      → chain_steps w config inv clock chain ≡ ok (cross, granted)
      → Tested chain cross granted
  unfolding chain_steps
  chain_steps-Tested chain cross granted h =
      let (s0, p0, h0) = >>=-eq-ok (step0_structural w.codecs.blocks.valid_ijson chain) _ h in
      let (s2, p2, h2) = >>=-eq-ok (step2_linkage chain) _ h0 in
      let (s3, p3, h3) = >>=-eq-ok (step3_root_trust chain config) _ h2 in
      let (s4, p4, h4) = >>=-eq-ok (step4_signatures w.codecs w.parse_did chain) _ h3 in
      let (s5, p5, h5) = >>=-eq-ok (step5_temporal chain clock.temporal (clock_skew config)) _ h4 in
      let (s6, p6, h6) =
        >>=-eq-ok (step6_revocation w.iterate chain config (tier_for config inv.run.resource)) _
          h5 in
      let (s7, p7, h7) = >>=-eq-ok (step7_attenuation chain) _ h6 in
      let (s8, p8, h8) = >>=-eq-ok (step8_authorization chain (context config inv clock)) _ h7 in
      record {
        structural = p0;
        linked = p2;
        trusted = cc;
        signed = p4;
        timely = p5;
        unrevoked = p6;
        attenuated = p7;
        authorized = cc;
      }

  -- What is left after the steps on the chain.
  abbrev Presented : State → Chain → Bool → Capability → State × VerificationResult → Type 0
  Presented s chain cross granted out =
      (step9_cross_org chain config.trust_policies cross ≡ ok tt)
      × ((step10_pop w config inv (leaf_aud chain.elements) clock s.nonces).1 ≡ ok tt)
      × (step11_registration chain (tier_for config inv.run.resource) config.registration_store
          ≡ ok tt)
      × (out.1.chain ≡ some chain)
      × (out.1.authorized_capability ≡ some granted)

  after_cross_org-accepted :
      (chain : Chain) (cross : Bool) (granted : Capability) (s : State) (m : Step)
      → step9_cross_org chain config.trust_policies cross ≡ m
      → (after_cross_org w config inv clock chain granted s m).1.accepted ≡ true
      → Presented s chain cross granted (after_cross_org w config inv clock chain granted s m)
  unfolding after_cross_org deny
  after_cross_org-accepted chain cross granted s (err e) q h = cc
  after_cross_org-accepted chain cross granted s (ok _) q h =
      let (popped, registered, ch, au) =
        finish-accepted chain granted
          (record s {
            nonces = (step10_pop w config inv (leaf_aud chain.elements) clock s.nonces).0;
          })
          (step10_pop w config inv (leaf_aud chain.elements) clock s.nonces).1 h in
      (q, popped, registered, ch, au)

  present-accepted :
      (chain : Chain) (s : State) (m : Result VerificationError (Bool × Capability))
      → (present w config inv clock chain s m).1.accepted ≡ true
      → (cross : Bool) × (granted : Capability) × (m ≡ ok (cross, granted))
        × Presented s chain cross granted (present w config inv clock chain s m)
  unfolding present deny
  present-accepted chain s (err e) h = cc
  present-accepted chain s (ok (cross, granted)) h =
      (cross, granted, refl, after_cross_org-accepted chain cross granted s _ refl h)

  on_chain-accepted :
      (s : State) (m : Result VerificationError Chain)
      → (on_chain w config inv clock s m).1.accepted ≡ true
      → (chain : Chain) × (cross : Bool) × (granted : Capability) × (m ≡ ok chain)
        × Tested chain cross granted
        × Presented s chain cross granted (on_chain w config inv clock s m)
  unfolding on_chain deny
  on_chain-accepted s (err e) h = cc
  on_chain-accepted s (ok chain) h =
      let (cross, granted, q, rest) =
        present-accepted chain s (chain_steps w config inv clock chain) h in
      (chain, cross, granted, refl, chain_steps-Tested chain cross granted q, rest)

  verify-named :
      (s : State)
      → (verify w config inline (some inv) clock s).1.accepted ≡ true
      → (is_empty inv.run.delegation_cid ≡ false)
        × (verify w config inline (some inv) clock s
            ≡ on_chain w config inv clock s (
                step1_build_chain w.codecs inv.run.delegation_cid
                  (effective_store w config inline)
                  config.max_chain_depth))
  unfolding verify deny
  verify-named s h = elim (Bool-cases (is_empty inv.run.delegation_cid)) [
    | inl q ↦ absurd (ground arith)
    | inr q ↦ (q, ground arith)
  ]

  -- If Verify accepts, the invocation names a credential, the chain it returns is the one BuildChain
  -- finds for it, and the chain and the capability it returns have passed every step from 0 to 11.
  pub verify-accepted :
      (s : State)
      → (verify w config inline (some inv) clock s).1.accepted ≡ true
      → (chain : Chain) × (granted : Capability) × Passed s chain granted
        × ((verify w config inline (some inv) clock s).1.chain ≡ some chain)
        × ((verify w config inline (some inv) clock s).1.authorized_capability ≡ some granted)
  verify-accepted s h =
      let (named, eq) = verify-named s h in
      let (chain, cross, granted, built, t, (bilateral, possessed, registered, ch, au)) =
        on_chain-accepted s _
          (ap (λ (r : State × VerificationResult). r.1.accepted) (sym eq) ∙ h) in
      (
        chain,
        granted,
        record {
          cross = cross;
          named = named;
          built = step1-ok chain built;
          structural = t.structural;
          linked = t.linked;
          trusted = t.trusted;
          signed = t.signed;
          timely = t.timely;
          unrevoked = t.unrevoked;
          attenuated = t.attenuated;
          authorized = t.authorized;
          bilateral = bilateral;
          possessed = possessed;
          registered = registered;
        },
        ap (λ (r : State × VerificationResult). r.1.chain) eq ∙ ch,
        ap (λ (r : State × VerificationResult). r.1.authorized_capability) eq ∙ au,
      )
