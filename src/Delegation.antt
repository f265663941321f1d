-- ===== src/Delegation.antt =====
-- internal/delegation/chain.go and delegate.go: chains of credentials.
-- A proof store is what its Get returns: a context or an error behind a missing value only leads to
-- ErrProofNotFound. The loop of BuildChain takes fuel.
pub mod Chains
pub mod Walk
pub mod Pinning
pub mod Tests
use adtp.Prelude.{
  ℕ, zero, suc, ◌+◌, ◌-◌, ◌≡◌, refl, Bool, true, false, not, ◌&&◌, ◌||◌, Option, none, some, List,
  [], ◌∷◌, ◌++◌, ltb, leb, Text, Text-eq, ℕ-eq, codes, ◌==◌, contains, if◌then◌else◌, Result, ok,
  err, ◌>>=◌, ◌>>◌, fail_if, map_err, ok_or, ℤ, pos, negsuc, ltb_ℤ, leb_ℤ, length, lookup, insert,
  is_space, is_space2, is_space3,
}
use adtp.Signing.{Crypto}
use adtp.Credential.Capability
use adtp.Credential.Capability.{Constraint, Capability, CredentialErr, delegation_depth, is_empty}
use adtp.Credential.Capability.Ability
use adtp.Credential.Cid.{compute_cid, verify_cid}
use adtp.Credential.Restrict.{
  RestrictBlock, BlockCodec, DelegationParent, parse_restrict_block, create_restrict_block,
}
use adtp.Credential.Ucan.{Ucan, TokenCodec, parse_ucan}

abbrev pub default_max_depth : ℕ
default_max_depth = 10

abbrev pub hard_max_depth : ℕ
hard_max_depth = 100

abbrev pub max_chain_caps_caveats : ℕ
max_chain_caps_caveats = 1000

-- `out_of_fuel` belongs to the model only.
pub data ChainErr : Type 0 where
  proof_not_found cid_mismatch circular_chain chain_too_deep chain_too_wide : ChainErr
  chain_broken branching_unsupported non_root_token out_of_fuel : ChainErr

pub data Mode : Type 0 where
  root restrict : Mode

-- Exactly one of Token and Block.
pub data Credential : Type 0 where
  token : Ucan → Credential
  block : RestrictBlock → Credential

pub record ChainElement : Type 0 where
  pub credential : Credential
  pub cid : Text
  pub is_root : Bool
  pub mode : Mode

pub record Chain : Type 0 where
  pub elements : List ChainElement
  pub depth : ℕ

abbrev pub ProofStore : Type 0
ProofStore = Text → Option Text

-- bytes.TrimSpace and the look at the first byte.
unfoldable pub starts_with_brace : Text → Bool
unfolding is_space is_space2 is_space3
starts_with_brace [] = false
starts_with_brace (a ∷ []) = a == b'{'
starts_with_brace (a ∷ b ∷ []) = elim (is_space a) [
  | true ↦ starts_with_brace (b ∷ [])
  | false ↦ a == b'{'
]
starts_with_brace (a ∷ b ∷ c ∷ s) = elim (is_space a) [
  | true ↦ starts_with_brace (b ∷ c ∷ s)
  | false ↦ elim (is_space2 a b) [
    | true ↦ starts_with_brace (c ∷ s)
    | false ↦ elim (is_space3 a b c) [ true ↦ starts_with_brace s | false ↦ a == b'{' ]
  ]
]

-- Capabilities and their constraints.
unfoldable pub weight_of : List Capability → ℕ
weight_of [] = 0
weight_of (c ∷ cs) = suc (length c.constraints + weight_of cs)

-- The switch on the number of proofs of a token.
token_element : Ucan → Text → List Text → Result ChainErr (ChainElement × Text × ℕ)
unfolding weight_of
token_element u cid [] = ok (
  record { credential = token u; cid = cid; is_root = true; mode = root },
  [],
  weight_of u.payload.att,
)
token_element u cid (p ∷ []) = err non_root_token
token_element u cid (p ∷ q ∷ ps) = err branching_unsupported

block_element : RestrictBlock → Text → ChainElement × Text × ℕ
block_element b cid = (
  record { credential = block b; cid = cid; is_root = false; mode = restrict },
  b.prf,
  length b.cav,
)

-- What the chain builder needs of the credentials: their parsers and their CIDs.
pub record Codecs : Type 0 where
  pub crypto : Crypto
  pub blocks : BlockCodec
  pub tokens : TokenCodec

abbrev pub effective_depth : ℤ → ℕ
effective_depth (pos zero) = default_max_depth
effective_depth (pos (suc n)) = if ltb hard_max_depth (suc n) then hard_max_depth else suc n
effective_depth (negsuc n) = default_max_depth

module _ (c : Codecs) where
  -- parseElement: the element, its parent's CID, and its weight.
  unfoldable pub parse_element : Text → Text → Result ChainErr (ChainElement × Text × ℕ)
  unfolding starts_with_brace token_element block_element
  parse_element raw cid = elim (starts_with_brace raw) [
    | true ↦ elim (parse_restrict_block c.blocks raw) [
      | ok b ↦ ok (block_element b cid)
      | err _ ↦ err chain_broken
    ]
    | false ↦ elim (parse_ucan c.crypto c.tokens raw) [
      | ok u ↦ token_element u cid u.payload.prf
      | err _ ↦ err chain_broken
    ]
  ]

  -- The checks of one round that come before the element is parsed, and the parsed element.
  pub fetch : ProofStore → Text → List Text → Result ChainErr (ChainElement × Text × ℕ)
  unfolding parse_element is_empty contains verify_cid
  fetch store cid seen = do
    fail_if (is_empty cid) chain_broken
    fail_if (contains seen cid) circular_chain
    raw ← ok_or proof_not_found (store cid)
    fail_if (not (verify_cid c.crypto.sha256 raw cid)) cid_mismatch
    parse_element raw cid

  -- The loop. `elements` and `seen` are what the loop has gathered.
  pub walk :
      ℕ
      → ProofStore
      → ℕ
      → Text
      → List Text
      → List ChainElement
      → ℕ
      → Result ChainErr (List ChainElement)
  unfolding fetch
  walk zero store max cid seen elements total = err out_of_fuel
  walk (suc f) store max cid seen elements total = elim (fetch store cid seen) [
    | err e ↦ err e
    | ok (elem, parent, weight) ↦
        if ltb max_chain_caps_caveats (total + weight)
        then err chain_too_wide
        else if ltb max (length elements)
        then err chain_too_deep
        else elim elem.is_root [
          | true ↦ ok (elements ++ elem ∷ [])
          | false ↦ walk f store max parent (cid ∷ seen) (elements ++ elem ∷ []) (total + weight)
        ]
  ]

  -- BuildChain. One round for each element, and at most one more than the depth cap allows.
  unfoldable pub build_chain : ProofStore → Text → ℤ → Result ChainErr Chain
  unfolding walk
  build_chain store leaf_cid max_depth = do
    elements ←
        walk (effective_depth max_depth + 2) store (effective_depth max_depth) leaf_cid [] [] 0
    ok (record { elements = elements; depth = length elements - 1 })

-- delegableDepth, and elemDelegableDepth of a token.
unfoldable pub depth_constraint : List Constraint → Option ℤ
depth_constraint [] = none
depth_constraint (delegation_depth type max ∷ cs) = some max
depth_constraint (_ ∷ cs) = depth_constraint cs

unfoldable pub delegable_depth : List Capability → Option ℤ
unfolding depth_constraint
delegable_depth [] = none
delegable_depth (c ∷ cs) =
    let rest = delegable_depth cs in
    if c.can == Ability.agent_delegate
    then elim (depth_constraint c.constraints) [ some d ↦ some d | none ↦ rest ]
    else rest

pub data DelegateErr : Type 0 where
  cannot_delegate depth_exhausted : DelegateErr
  credential_error : CredentialErr → DelegateErr

unfoldable pub parent_from_ucan : Ucan → Text → Result DelegateErr DelegationParent
unfolding delegable_depth
parent_from_ucan u cid = elim (delegable_depth u.payload.att) [
  | none ↦ err cannot_delegate
  | some depth ↦ ok (record {
    cid = cid;
    aud = u.payload.aud;
    exp = u.payload.exp;
    nbf = u.payload.nbf;
    dl = depth;
  })
]

unfoldable pub parent_from_block : RestrictBlock → Text → DelegationParent
parent_from_block b cid = record { cid = cid; aud = b.aud; exp = b.exp; nbf = b.nbf; dl = b.dl }

-- MemoryProofStore
abbrev pub MemoryProofStore : Type 0
MemoryProofStore = List (Text × Text)

unfoldable pub store_get : MemoryProofStore → ProofStore
unfolding lookup
store_get m cid = lookup cid m

module _ (c : Codecs) where
  unfoldable pub store_put : MemoryProofStore → Text → MemoryProofStore × Text
  unfolding insert compute_cid
  store_put m raw = let cid = compute_cid c.crypto.sha256 raw in (insert cid raw m, cid)

  unfoldable pub store_put_verified :
      MemoryProofStore → Text → Text → MemoryProofStore × Result ChainErr Unit
  unfolding store_put
  store_put_verified m raw claimed =
      if compute_cid c.crypto.sha256 raw == claimed
      then ((store_put m raw).0, ok tt)
      else (m, err cid_mismatch)

  -- DelegateRestrict: the block, its CID, and the store with the block in it.
  unfoldable pub delegate_restrict :
      MemoryProofStore
      → DelegationParent
      → Text
      → List Constraint
      → ℤ
      → Text
      → Result DelegateErr (RestrictBlock × Text × MemoryProofStore)
  unfolding store_put
  delegate_restrict m parent aud caveats depth signer_key = do
    fail_if (leb_ℤ parent.dl (pos 0)) depth_exhausted
    made ←
        map_err credential_error
          (create_restrict_block c.crypto c.blocks parent aud depth caveats signer_key)
    let (m', cid) = store_put m made.1
    ok (made.0, cid, m')
