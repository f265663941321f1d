-- ===== src/Verify/Steps.antt =====
-- internal/verify/steps.go: the steps but 6, 8 and 10, which have modules of their own.
pub mod Linked
use adtp.Prelude.{
  Bool, true, false, not, ◌&&◌, ◌||◌, Option, none, some, List, [], ◌∷◌, ltb, Text, Text-eq, ℕ-eq,
  ℤ-eq, ◌==◌, contains, if◌then◌else◌, Result, ok, err, ◌>>◌, map_err, ℤ, pos, ltb_ℤ, leb_ℤ, add64,
  sub64, length,
}
use adtp.Credential.Capability.{is_empty}
use adtp.Credential.Restrict.{max_caveats_per_block, verify_block}
use adtp.Credential.Ucan.{max_capabilities, verify_token, validate_capabilities}
use adtp.Delegation.{
  ChainErr, proof_not_found, cid_mismatch, circular_chain, chain_too_deep, chain_too_wide,
  branching_unsupported, non_root_token, Credential, token, block, ChainElement, Chain, ProofStore,
  Codecs, build_chain,
}
use adtp.Verify.Errors.{VerificationError, ErrorCode, RiskTier, high, medium, verr}
use adtp.Verify.Errors
use adtp.Verify.Config.{TrustPolicy, VerifierConfig}
use adtp.Verify.Elements.{
  Step, refuse_if, elem_iss, elem_aud, elem_exp, elem_nbf, elem_parent_cid, elem_delegable_depth,
  root_iss, leaf_cid, each, each_hop,
}
use adtp.Verify.Unrevoked.{is_high}

-- Step 0, one element.
unfoldable pub structural_element : (Text → Bool) → ChainElement → Step
unfolding elem_exp validate_capabilities is_empty
structural_element ijson e = do
  refuse_if (leb_ℤ (elem_exp e) (pos 0)) 0 Errors.malformed
  elim e.credential [
    | token u ↦
        refuse_if (ltb max_capabilities (length u.payload.att)) 0 Errors.malformed
        >> map_err (λ _. verr 0 Errors.malformed) (validate_capabilities ijson u.payload.att)
    | block b ↦
        refuse_if (is_empty b.cav) 0 Errors.malformed
        >> refuse_if (ltb max_caveats_per_block (length b.cav)) 0 Errors.malformed
        >> refuse_if (not (is_empty b.crit)) 0 Errors.malformed
  ]

unfoldable pub step0_structural : (Text → Bool) → Chain → Step
unfolding structural_element each
step0_structural ijson chain = each (structural_element ijson) chain.elements

unfoldable pub map_chain_error : ChainErr → VerificationError
map_chain_error circular_chain = verr 1 Errors.circular
map_chain_error chain_too_deep = verr 1 Errors.chain_too_deep
map_chain_error chain_too_wide = verr 1 Errors.malformed
map_chain_error branching_unsupported = verr 1 Errors.branching
map_chain_error proof_not_found = verr 1 Errors.proof_cache_miss
map_chain_error non_root_token = verr 1 Errors.chain_broken
map_chain_error cid_mismatch = verr 1 Errors.cid_mismatch
map_chain_error _ = verr 1 Errors.chain_broken

unfoldable pub step1_build_chain : Codecs → Text → ProofStore → ℤ → Result VerificationError Chain
unfolding build_chain map_chain_error
step1_build_chain c leaf store max_depth =
    map_err map_chain_error (build_chain c store leaf max_depth)

-- The bounds on the depth of a block below its parent.
below_parent : ℤ → Option ℤ → Step
below_parent dl none = ok tt
below_parent dl (some parent) = refuse_if (leb_ℤ parent dl) 2 Errors.attenuation

depth_bounds : Credential → Option ℤ → Step
unfolding below_parent
depth_bounds (token u) parent = ok tt
depth_bounds (block b) parent =
    refuse_if (ltb_ℤ b.dl (pos 0)) 2 Errors.attenuation >> below_parent b.dl parent

depth_hop : ChainElement → ChainElement → Step
unfolding depth_bounds elem_delegable_depth
depth_hop child parent = depth_bounds child.credential (elem_delegable_depth parent)

unfoldable pub linkage_hop : ChainElement → ChainElement → Step
unfolding elem_iss elem_aud elem_exp elem_nbf elem_parent_cid depth_hop
linkage_hop child parent = do
  refuse_if (not (elem_iss child == elem_aud parent)) 2 Errors.chain_broken
  refuse_if (not (elem_parent_cid child == parent.cid)) 2 Errors.chain_broken
  refuse_if (ltb_ℤ (elem_exp parent) (elem_exp child)) 2 Errors.expiry_escalate
  refuse_if (ltb_ℤ (elem_nbf child) (elem_nbf parent)) 2 Errors.chain_broken
  depth_hop child parent

unfoldable pub step2_linkage : Chain → Step
unfolding linkage_hop each_hop
step2_linkage chain = each_hop linkage_hop chain.elements

names_platform : List TrustPolicy → Text → Bool
unfolding contains
names_platform [] iss = false
names_platform (p ∷ ps) iss = contains p.platforms iss || names_platform ps iss

-- Whether the chain is cross-organizational.
unfoldable pub step3_root_trust : Chain → VerifierConfig → Result VerificationError Bool
unfolding root_iss names_platform
step3_root_trust chain config =
    if config.trusted_root_dids (root_iss chain.elements)
    then ok false
    else if names_platform config.trust_policies (root_iss chain.elements)
    then ok true
    else err (verr 3 Errors.untrusted_root)

module _ (c : Codecs) (parse_did : Text → Option Text) where
  unfoldable pub signature_element : ChainElement → Step
  unfolding elem_iss verify_token verify_block
  signature_element e = elim (parse_did (elem_iss e)) [
    | none ↦ err (verr 4 Errors.did_resolution)
    | some pub_key ↦ elim e.credential [
      | token u ↦ refuse_if (not (verify_token c.crypto u pub_key)) 4 Errors.sig_invalid
      | block b ↦
          map_err (λ _. verr 4 Errors.sig_invalid) (verify_block c.crypto c.blocks b pub_key)
    ]
  ]

  unfoldable pub step4_signatures : Chain → Step
  unfolding signature_element each
  step4_signatures chain = each signature_element chain.elements

unfoldable pub temporal_element : ℤ → ℤ → ChainElement → Step
unfolding elem_exp elem_nbf add64 sub64
temporal_element now skew e = do
  refuse_if (ltb_ℤ (add64 (elem_exp e) skew) now) 5 Errors.expired
  refuse_if (ltb_ℤ now (sub64 (elem_nbf e) skew)) 5 Errors.not_yet_valid

unfoldable pub step5_temporal : Chain → ℤ → ℤ → Step
unfolding temporal_element each
step5_temporal chain now skew = each (temporal_element now skew) chain.elements

-- A hop that carries a capability set.
token_hop : ChainElement → ChainElement → Step
token_hop child parent = elim child.credential [
  | token u ↦ err (verr 7 Errors.chain_broken)
  | block b ↦ ok tt
]

unfoldable pub step7_attenuation : Chain → Step
unfolding token_hop each_hop
step7_attenuation chain = each_hop token_hop chain.elements

-- The first policy that names the root's platform decides.
policy_depth : List TrustPolicy → Text → Option ℤ
unfolding contains
policy_depth [] iss = none
policy_depth (p ∷ ps) iss =
    let rest = policy_depth ps iss in
    if contains p.platforms iss then some p.max_delegation_depth else rest

unfoldable pub step9_cross_org : Chain → List TrustPolicy → Bool → Step
unfolding policy_depth root_iss
step9_cross_org chain policies false = ok tt
step9_cross_org chain policies true = elim (policy_depth policies (root_iss chain.elements)) [
  | none ↦ err (verr 9 Errors.cross_org)
  | some max ↦ refuse_if (ltb_ℤ (pos 0) max && ltb_ℤ max (pos chain.depth)) 9 Errors.cross_org
]

unfoldable pub step11_registration : Chain → RiskTier → Option (Text → Text → Bool) → Step
unfolding leaf_cid is_high
step11_registration chain tier none = ok tt
step11_registration chain tier (some contains_cid) =
    refuse_if
      (not (contains_cid (leaf_cid chain.elements) (leaf_cid chain.elements)) && is_high tier) 11
      Errors.unregistered
