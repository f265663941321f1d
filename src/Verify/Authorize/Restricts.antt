-- ===== src/Verify/Authorize/Restricts.antt =====
-- What step 8 grants, and that a block can only take away from what its parents grant.
use adtp.Prelude.{
  suc, ◌≡◌, refl, ◌↔◌, inl, inr, subst, true, false, ◌&&◌, some, List, [], ◌∷◌, arith, Text,
  Text-eq, ◌==◌, eq_iff, Occurs, ok, split_on, Bool-cases, Option-cases,
}
use adtp.Credential.Uri.{uri_covers}
use adtp.Credential.Capability.{Capability}
use adtp.Credential.Restrict.{RestrictBlock}
use adtp.Delegation.{block, ChainElement, Chain, Mode}
use adtp.Verify.Caveats.{InvocationContext, evaluate_all}
use adtp.Verify.Authorize.{
  has_wildcard, effective_att, match_capability, caveats_hold, authorize, step8_authorization,
}

-- `c` is one of the capabilities and names the action and a resource that covers the one asked for.
abbrev pub IsMatch : InvocationContext → List Capability → Capability → Type 0
IsMatch ctx cs c = Occurs c cs × (c.can ≡ ctx.action) × (uri_covers c.with ctx.resource ≡ true)

match_capability-IsMatch :
    (cs : List Capability) (ctx : InvocationContext) (c : Capability)
    → match_capability cs ctx ≡ some c
    → IsMatch ctx cs c
unfolding match_capability
match_capability-IsMatch [] ctx c h = cc
match_capability-IsMatch (x ∷ cs) ctx c h =
    elim (Bool-cases ((x.can == ctx.action) && uri_covers x.with ctx.resource)) [
      | inl q ↦
          let same : x ≡ c = ground (arith, q, h) in
          subst (IsMatch ctx (x ∷ cs)) same
            (inl refl, ground (arith, q, eq_iff x.can ctx.action), ground (arith, q))
      | inr q ↦
          let found : match_capability cs ctx ≡ some c = ground (arith, q, h) in
          let (o, a, r) = match_capability-IsMatch cs ctx c found in (inr o, a, r)
    ]

authorize_iff :
    (es : List ChainElement) (ctx : InvocationContext) (c d : Capability)
    → (authorize es ctx c ≡ ok d)
      ↔ ((evaluate_all c.constraints ctx ≡ true) × (caveats_hold es ctx ≡ true) × (c ≡ d))
unfolding authorize
authorize_iff es ctx c d =
    elim (Bool-cases (evaluate_all c.constraints ctx && caveats_hold es ctx)) [
      | inl q ↦ ground (arith, q)
      | inr q ↦ ground (arith, q)
    ]

-- A success of step 8, taken apart.
step8-inversion :
    (chain : Chain) (ctx : InvocationContext) (d : Capability)
    → (step8_authorization chain ctx ≡ ok d) ↔ (
        (has_wildcard (split_on b'/' ctx.resource) ≡ false)
        × (match_capability (effective_att chain.elements) ctx ≡ some d)
        × (authorize chain.elements ctx d ≡ ok d))
unfolding step8_authorization
step8-inversion chain ctx d =
    elim (Option-cases (match_capability (effective_att chain.elements) ctx)) [
      | inl q ↦ ground (arith, q)
      | inr (c, q) ↦ ground (arith, q, authorize_iff chain.elements ctx c d)
    ]

-- What step 8 grants is a capability of the chain's token, for the action asked for, covering the
-- resource, and its constraints and every caveat on the path hold. The resource has no wildcard segment.
pub step8_authorization-Granted :
    (chain : Chain) (ctx : InvocationContext) (d : Capability)
    → step8_authorization chain ctx ≡ ok d
    → IsMatch ctx (effective_att chain.elements) d
      × (has_wildcard (split_on b'/' ctx.resource) ≡ false)
      × (evaluate_all d.constraints ctx ≡ true)
      × (caveats_hold chain.elements ctx ≡ true)
step8_authorization-Granted chain ctx d h =
    let (plain, found, allowed) = (step8-inversion chain ctx d).0 h in
    let (holds, path, _) = (authorize_iff chain.elements ctx d d).0 allowed in
    (match_capability-IsMatch (effective_att chain.elements) ctx d found, plain, holds, path)

-- The chain with one more block at its leaf.
abbrev pub delegated : Text → RestrictBlock → Chain → Chain
delegated cid b chain = record {
  elements =
      record { credential = block b; cid = cid; is_root = false; mode = Mode.restrict }
      ∷ chain.elements;
  depth = suc chain.depth;
}

-- A block grants exactly what its parent chain grants and its own caveats allow: a delegation never
-- adds an authority, and takes one away only through its caveats.
pub step8_authorization-delegated :
    (cid : Text) (b : RestrictBlock) (chain : Chain) (ctx : InvocationContext) (d : Capability)
    → (step8_authorization (delegated cid b chain) ctx ≡ ok d)
      ↔ ((step8_authorization chain ctx ≡ ok d) × (evaluate_all b.cav ctx ≡ true))
unfolding effective_att caveats_hold
step8_authorization-delegated cid b chain ctx d = ground (
  arith,
  step8-inversion (delegated cid b chain) ctx d,
  step8-inversion chain ctx d,
  authorize_iff (delegated cid b chain).elements ctx d d,
  authorize_iff chain.elements ctx d d,
)
