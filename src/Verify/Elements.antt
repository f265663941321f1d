-- ===== src/Verify/Elements.antt =====
-- internal/verify/steps.go: the field accessors and the loops that the steps share. BuildChain yields
-- no empty chain; where the code indexes the first or last element, the functions here return an
-- empty text on an empty chain.
use adtp.Prelude.{
  ℕ, Bool, Option, some, List, [], ◌∷◌, Text, Text-eq, ℕ-eq, ℤ-eq, Result, ok, ◌>>◌, fail_if, ℤ,
}
use adtp.Delegation.{Credential, token, block, ChainElement, delegable_depth}
use adtp.Verify.Errors.{VerificationError, ErrorCode, verr}

-- Field accessors.
unfoldable pub elem_iss : ChainElement → Text
elem_iss e = elim e.credential [ token u ↦ u.payload.iss | block b ↦ b.iss ]

unfoldable pub elem_aud : ChainElement → Text
elem_aud e = elim e.credential [ token u ↦ u.payload.aud | block b ↦ b.aud ]

unfoldable pub elem_exp : ChainElement → ℤ
elem_exp e = elim e.credential [ token u ↦ u.payload.exp | block b ↦ b.exp ]

unfoldable pub elem_nbf : ChainElement → ℤ
elem_nbf e = elim e.credential [ token u ↦ u.payload.nbf | block b ↦ b.nbf ]

only_proof : List Text → Text
only_proof (p ∷ []) = p
only_proof _ = []

unfoldable pub elem_parent_cid : ChainElement → Text
unfolding only_proof
elem_parent_cid e = elim e.credential [ token u ↦ only_proof u.payload.prf | block b ↦ b.prf ]

unfoldable pub credential_depth : Credential → Option ℤ
unfolding delegable_depth
credential_depth (token u) = delegable_depth u.payload.att
credential_depth (block b) = some b.dl

unfoldable pub elem_delegable_depth : ChainElement → Option ℤ
unfolding credential_depth
elem_delegable_depth e = credential_depth e.credential

unfoldable pub root_iss : List ChainElement → Text
unfolding elem_iss
root_iss [] = []
root_iss (e ∷ []) = elem_iss e
root_iss (e ∷ f ∷ es) = root_iss (f ∷ es)

unfoldable pub leaf_cid : List ChainElement → Text
leaf_cid [] = []
leaf_cid (e ∷ es) = e.cid

unfoldable pub leaf_aud : List ChainElement → Text
unfolding elem_aud
leaf_aud [] = []
leaf_aud (e ∷ es) = elem_aud e

abbrev pub Step : Type 0
Step = Result VerificationError Unit

abbrev pub refuse_if : Bool → ℕ → ErrorCode → Step
refuse_if test step code = fail_if test (verr step code)

-- A loop over the elements that stops at the first error.
unfoldable pub each : (ChainElement → Step) → List ChainElement → Step
each f [] = ok tt
each f (e ∷ es) = let rest = each f es in f e >> rest

-- A loop over the hops, a child and its parent.
unfoldable pub each_hop : (ChainElement → ChainElement → Step) → List ChainElement → Step
each_hop f [] = ok tt
each_hop f (e ∷ []) = ok tt
each_hop f (e ∷ p ∷ es) = let rest = each_hop f (p ∷ es) in f e p >> rest
