-- ===== src/Api/Verification/Authorized.antt =====
-- What an answer "authorized" of POST /v1/verify stands on.
use adtp.Prelude.{
  ◌≡◌, ◌≢◌, refl, sym, ap, ◌∙◌, ◌⊎◌, inl, inr, Bool, true, false, none, some, List, [], ◌∷◌, Text,
  Text-eq, arith, eq_iff, Bool-cases, Option-cases, ok,
}
use adtp.Credential.Capability.{Capability, is_empty, is_empty_iff}
use adtp.Delegation.{Chain}
use adtp.Verify.Elements.{root_iss}
use adtp.Verify.Steps.{step3_root_trust}
use adtp.Verify.Config.{UcanInvocation}
use adtp.Verify.Run.{State, verify}
use adtp.Verify.Run.Accepted.{Passed, verify-accepted}
use adtp.Prelude.Steps.{◌>>=◌, lift}
use adtp.Api.Messages.{VerifyRequest, VerifyResponse, decoded, verified, bad_request, read_json}
use adtp.Api.Service.{Env, Service, Daemon, Draws, written}
use adtp.Api.Verification.{
  the_leaf, has_wildcard_segment, verifier_config, custodial_invocation, invocation_for, admitted,
  run_verify, respond, verify_response, handle_verify,
}

the_leaf-eq-some : (cids : List Text) (leaf : Text) → the_leaf cids ≡ some leaf → cids ≡ leaf ∷ []
unfolding the_leaf
the_leaf-eq-some [] leaf h = cc
the_leaf-eq-some (c ∷ []) leaf h = cc
the_leaf-eq-some (c ∷ c' ∷ cs) leaf h = cc

refused-ne-verified : {r : VerifyResponse} → bad_request ≡ verified r → ⊥
refused-ne-verified h = cc

abbrev pub state_of : Daemon → State
state_of d = record { nonces = d.nonces; audit = d.store.audit_log }

module _ (env : Env) (svc : Service) (draws : Draws) where
  -- Where the invocation comes from: the client, or the daemon itself if that is switched on.
  abbrev pub IsPresented : VerifyRequest → Text → Daemon → UcanInvocation → Type 0
  IsPresented req leaf d inv =
      ((req.invocation ≢ []) × (env.unmarshal_invocation req.invocation ≡ some inv))
      ⊎ ((req.invocation ≡ [])
          × (svc.config.verify.allow_custodial_invocation ≡ true)
          × (custodial_invocation env svc draws req leaf d ≡ some inv))

  pub record IsAuthorized (req : VerifyRequest) (d : Daemon) : Type 0 where
    pub leaf : Text
    pub inv : UcanInvocation
    pub chain : Chain
    pub granted : Capability
    pub one : req.chain_cids ≡ leaf ∷ []
    pub concrete : has_wildcard_segment req.resource ≡ false
    pub presented : IsPresented req leaf d inv
    pub passed :
        Passed env.world (verifier_config svc d) none inv draws.verifying (state_of d) chain granted
    pub rooted : root_iss chain.elements ≡ svc.platform_did

  invocation_for-IsPresented :
      (req : VerifyRequest) (leaf : Text) (d : Daemon) (inv : UcanInvocation)
      → invocation_for env svc draws req leaf d ≡ some inv
      → IsPresented req leaf d inv
  unfolding invocation_for
  invocation_for-IsPresented req leaf d inv h = elim (Bool-cases (is_empty req.invocation)) [
    | inl absent ↦ elim (Bool-cases svc.config.verify.allow_custodial_invocation) [
      | inl on ↦ inr ((is_empty_iff req.invocation).0 absent, on, ground arith)
      | inr off ↦ absurd (ground arith)
    ]
    | inr given ↦ inl (λ e. absurd (ground (arith, is_empty_iff req.invocation)), ground arith)
  ]

  -- The request that was admitted, and the invocation that it led to.
  admitted-eq-some :
      (req : VerifyRequest) (d : Daemon) (inv : UcanInvocation)
      → admitted env svc draws req d ≡ some inv
      → (leaf : Text) × (req.chain_cids ≡ leaf ∷ [])
        × (has_wildcard_segment req.resource ≡ false)
        × (invocation_for env svc draws req leaf d ≡ some inv)
  unfolding admitted
  admitted-eq-some req d inv h = elim (Option-cases (the_leaf req.chain_cids)) [
    | inl q ↦ absurd (ground arith)
    | inr (leaf, q) ↦ (leaf, the_leaf-eq-some req.chain_cids leaf q, ground arith, ground arith)
  ]

  step3-rooted :
      (chain : Chain) (d : Daemon) (cross : Bool)
      → step3_root_trust chain (verifier_config svc d) ≡ ok cross
      → root_iss chain.elements ≡ svc.platform_did
  unfolding step3_root_trust verifier_config
  step3-rooted chain d cross h = ground (arith, eq_iff (root_iss chain.elements) svc.platform_did)

  respond-verified :
      (inv : UcanInvocation) (d : Daemon) (r : VerifyResponse)
      → (written (respond env svc draws inv d)).1 ≡ verified r
      → r.authorized ≡ true
      → (verify env.world
          (verifier_config svc d)
          none
          (some inv)
          draws.verifying
          (state_of d)).1.accepted
        ≡ true
  unfolding written respond run_verify verify_response
  respond-verified inv d r h t = ground arith

  handle_verify-admitted :
      (req : VerifyRequest) (d : Daemon) (inv : UcanInvocation)
      → admitted env svc draws req d ≡ some inv
      → handle_verify env svc draws (decoded req) d ≡ written (respond env svc draws inv d)
  unfolding handle_verify read_json ◌>>=◌ lift
  handle_verify-admitted req d inv q = rw q refl

  handle_verify-refused :
      (req : VerifyRequest) (d : Daemon)
      → admitted env svc draws req d ≡ none
      → handle_verify env svc draws (decoded req) d ≡ (d, bad_request)
  unfolding handle_verify read_json ◌>>=◌ lift written
  handle_verify-refused req d q = rw q refl

  -- An answer "authorized" is given only to a request of one CID for a resource without a wildcard segment,
  -- about an invocation that the client sent or, if that is switched on, the daemon signed with the key of the
  -- leaf's audience; and then a chain that the platform has issued, and a capability, have passed all steps of
  -- Verify for that invocation.
  pub handle_verify-IsAuthorized :
      (req : VerifyRequest) (d : Daemon) (r : VerifyResponse)
      → (handle_verify env svc draws (decoded req) d).1 ≡ verified r
      → r.authorized ≡ true
      → IsAuthorized req d
  handle_verify-IsAuthorized req d r h t = elim (Option-cases (admitted env svc draws req d)) [
    | inl q ↦ absurd (refused-ne-verified (sym (ap (λ p. p.1) (handle_verify-refused req d q)) ∙ h))
    | inr (inv, q) ↦
        let (leaf, one, concrete, made) = admitted-eq-some req d inv q in
        let accepted =
          respond-verified inv d r (sym (ap (λ p. p.1) (handle_verify-admitted req d inv q)) ∙ h)
            t in
        let (chain, granted, passed, _, _) =
          verify-accepted env.world (verifier_config svc d) none inv draws.verifying (state_of d)
            accepted in
        record {
          leaf = leaf;
          inv = inv;
          chain = chain;
          granted = granted;
          one = one;
          concrete = concrete;
          presented = invocation_for-IsPresented req leaf d inv made;
          passed = passed;
          rooted = step3-rooted chain d passed.cross passed.trusted;
        }
  ]
