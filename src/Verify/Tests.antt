-- ===== src/Verify/Tests.antt =====
-- Runs of the verifier, and the theorems at concrete inputs.
use adtp.Prelude.{
  ℤ, All, ◌≡◌, refl, ◌↔◌, true, false, none, some, [], ◌∷◌, Text, Text-eq, text_eq, contains,
  lookup, ok, pos, split_on, length, err, codes, arith, ◌<ℤ◌, ◌+ℤ◌,
}
use adtp.Credential.Capability.{Capability}
use adtp.Credential.Restrict.{parse_restrict_block}
use adtp.Credential.Ucan.{parse_ucan}
use adtp.Delegation.{Chain, build_chain}
use adtp.Verify.Caveats.{evaluate_all}
use adtp.Verify.Elements.{elem_delegable_depth}
use adtp.Verify.Unrevoked.{step6_revocation}
use adtp.Verify.Unrevoked.Denied.{IsSubject, Clear, step6_revocation_iff}
use adtp.Verify.Authorize.{has_wildcard, effective_att, caveats_hold, step8_authorization}
use adtp.Verify.Authorize.Restricts.{
  IsMatch, delegated, step8_authorization-Granted, step8_authorization-delegated,
}
use adtp.Verify.Errors.{high}
use adtp.Verify.Steps.{step2_linkage, step7_attenuation}
use adtp.Verify.Steps.Linked.{Hop, Hops, AtLeast, last_element, step2_linkage_iff, linked_depth}
use adtp.Verify.Errors.{VerificationError}
use adtp.Verify.Pop.{MemoryNonceCache, nonce_ttl, verify_invocation}
use adtp.Verify.Pop.Replay.{Call, call, serve, verify_invocation_replay}
use adtp.Verify.Run.{verify}
use adtp.Verify.Run.Accepted.{Passed, context, verify-accepted}
use adtp.Samples.{
  crypto, world, config, invocation, clock, start, root_chain, leaf_chain, codecs, store, block_cid,
  restricted, tools, root_element, block_element,
}

chain_run : build_chain codecs store block_cid (pos 0) ≡ ok leaf_chain
unfolding build_chain text_eq contains parse_restrict_block parse_ucan
chain_run = refl

accepted_run : (verify world config none (some invocation) clock start).1.accepted ≡ true
unfolding verify text_eq contains lookup parse_restrict_block parse_ucan
accepted_run = refl

-- The same invocation is refused the second time.
replay_run :
    (verify world config none
      (some invocation)
      clock
      (verify world config none (some invocation) clock start).0).1.accepted
    ≡ false
unfolding verify text_eq contains lookup parse_restrict_block parse_ucan
replay_run = refl

verify-accepted_example :
    (chain : Chain) × (granted : Capability) × Passed world config none invocation clock start chain
      granted
    × ((verify world config none (some invocation) clock start).1.chain ≡ some chain)
    × ((verify world config none (some invocation) clock start).1.authorized_capability
        ≡ some granted)
verify-accepted_example = verify-accepted world config none invocation clock start accepted_run

step6_revocation_example :
    (step6_revocation (λ xs. xs) leaf_chain config high ≡ ok tt)
    ↔ ((s : Text) → IsSubject s leaf_chain.elements → Clear high (ok none))
step6_revocation_example =
    step6_revocation_iff (λ xs. xs) leaf_chain config high (λ _. ok none) (λ xs s. (λ o. o, λ o. o))
      refl

granted_run : step8_authorization leaf_chain (context config invocation clock) ≡ ok tools
unfolding step8_authorization text_eq
granted_run = refl

step8_authorization-Granted_example :
    IsMatch (context config invocation clock) (effective_att leaf_chain.elements) tools
    × (has_wildcard (split_on b'/' (context config invocation clock).resource) ≡ false)
    × (evaluate_all tools.constraints (context config invocation clock) ≡ true)
    × (caveats_hold leaf_chain.elements (context config invocation clock) ≡ true)
step8_authorization-Granted_example =
    step8_authorization-Granted leaf_chain (context config invocation clock) tools granted_run

step8_authorization-delegated_example :
    (step8_authorization
        (delegated block_cid restricted root_chain)
        (context config invocation clock)
      ≡ ok tools)
    ↔ ((step8_authorization root_chain (context config invocation clock) ≡ ok tools)
        × (evaluate_all restricted.cav (context config invocation clock) ≡ true))
step8_authorization-delegated_example =
    step8_authorization-delegated block_cid restricted root_chain (context config invocation clock)
      tools

linked_run : step2_linkage leaf_chain ≡ ok tt
unfolding step2_linkage text_eq
linked_run = refl

attenuated_run : step7_attenuation leaf_chain ≡ ok tt
unfolding step7_attenuation
attenuated_run = refl

step2_linkage_example : (step2_linkage leaf_chain ≡ ok tt) ↔ Hops Hop leaf_chain.elements
step2_linkage_example = step2_linkage_iff leaf_chain

linked_depth_example :
    AtLeast
      (length (root_element ∷ []))
      (elem_delegable_depth (last_element block_element (root_element ∷ [])))
linked_depth_example =
    linked_depth leaf_chain block_element root_element [] refl linked_run attenuated_run

abbrev spent : MemoryNonceCache
spent = (codes "n", pos 50000000000) ∷ []

abbrev attempt : ℤ → Call
attempt at = record {
  inv = invocation;
  aud = codes "did:v";
  leaf = codes "did:bob";
  now = pos 1000;
  stored_at = at;
  tested_at = at;
}

spent_run : call crypto world.unsigned world.parse_did [] (attempt (pos 0)) ≡ (spent, ok tt)
unfolding verify_invocation text_eq lookup
spent_run = refl

in_window :
    All
      (λ k. k.tested_at <ℤ pos 0 +ℤ nonce_ttl (pos 1050) (pos 1000))
      (attempt (pos 7) ∷ attempt (pos 5) ∷ [])
unfolding nonce_ttl ◌+ℤ◌
in_window = (omega arith, (omega arith, tt))

verify_invocation_replay_example :
    (e : VerificationError) × (call crypto world.unsigned world.parse_did
        (serve crypto world.unsigned world.parse_did spent (attempt (pos 5) ∷ []))
        (attempt (pos 7))
      ≡ (serve crypto world.unsigned world.parse_did spent (attempt (pos 5) ∷ []), err e))
verify_invocation_replay_example =
    verify_invocation_replay crypto world.unsigned world.parse_did [] spent (attempt (pos 0))
      (attempt (pos 7)) (attempt (pos 5) ∷ []) spent_run refl in_window
