-- ===== src/Verify/Authorize.antt =====
-- internal/verify/steps.go: step 8, the requested action and resource against the root's
-- capabilities and the caveats of the path.
pub mod Restricts
use adtp.Prelude.{
  Bool, true, false, ◌&&◌, ◌||◌, Option, none, some, List, [], ◌∷◌, Text, Text-eq, ℕ-eq, ℤ-eq,
  codes, ◌==◌, if◌then◌else◌, Result, ok, err, split_on,
}
use adtp.Credential.Uri.{uri_covers}
use adtp.Credential.Capability.{Capability}
use adtp.Delegation.{token, block, ChainElement, Chain}
use adtp.Verify.Errors.{VerificationError, ErrorCode, RiskTier, high, medium, verr}
use adtp.Verify.Errors
use adtp.Verify.Caveats.{InvocationContext, evaluate_all}

-- Step 8.
pub has_wildcard : List Text → Bool
has_wildcard [] = false
has_wildcard (s ∷ ss) = s == codes "*" || s == codes "**" || has_wildcard ss

unfoldable pub effective_att : List ChainElement → List Capability
effective_att [] = []
effective_att (e ∷ es) = elim e.credential [ token u ↦ u.payload.att | block b ↦ effective_att es ]

unfoldable pub match_capability : List Capability → InvocationContext → Option Capability
unfolding uri_covers
match_capability [] ctx = none
match_capability (c ∷ cs) ctx =
    if (c.can == ctx.action) && uri_covers c.with ctx.resource
    then some c
    else match_capability cs ctx

unfoldable pub caveats_hold : List ChainElement → InvocationContext → Bool
unfolding evaluate_all
caveats_hold [] ctx = true
caveats_hold (e ∷ es) ctx =
    elim e.credential [ token u ↦ true | block b ↦ evaluate_all b.cav ctx ] && caveats_hold es ctx

-- The matched capability's constraints, then the caveats of the path.
authorize : List ChainElement → InvocationContext → Capability → Result VerificationError Capability
unfolding evaluate_all caveats_hold
authorize es ctx cap =
    if evaluate_all cap.constraints ctx && caveats_hold es ctx
    then ok cap
    else err (verr 8 Errors.cap_insufficient)

unfoldable pub step8_authorization : Chain → InvocationContext → Result VerificationError Capability
unfolding has_wildcard effective_att match_capability authorize split_on
step8_authorization chain ctx =
    if has_wildcard (split_on b'/' ctx.resource)
    then err (verr 8 Errors.cap_insufficient)
    else elim (match_capability (effective_att chain.elements) ctx) [
      | none ↦ err (verr 8 Errors.cap_insufficient)
      | some cap ↦ authorize chain.elements ctx cap
    ]
