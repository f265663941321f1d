-- ===== src/Delegation/Chains.antt =====
-- What BuildChain returns: the chain that the stored bytes determine, within its bounds.
use adtp.Prelude.{
  ℕ, ◌+◌, ◌≡◌, refl, sym, ap, ◌∙◌, ◌≢◌, ◌⊎◌, inl, inr, true, false, some, List, [], ◌∷◌, arith,
  Text, Text-eq, contains, ok, err, length, Bool-cases, Option-cases, Result-cases,
}
use adtp.Credential.Cid.{compute_cid, verify_cid_iff}
use adtp.Credential.Restrict.{RestrictBlock, parse_restrict_block}
use adtp.Credential.Ucan.{Ucan, parse_ucan}
use adtp.Delegation.{
  out_of_fuel, root, restrict, Credential, token, block, ChainElement, ProofStore, Codecs,
  starts_with_brace, token_element, block_element, weight_of, parse_element, fetch,
}

-- Capabilities with their constraints, or caveats.
abbrev pub credential_weight : Credential → ℕ
credential_weight (token u) = weight_of u.payload.att
credential_weight (block b) = length b.cav

unfoldable pub chain_weight : List ChainElement → ℕ
chain_weight [] = 0
chain_weight (e ∷ es) = credential_weight e.credential + chain_weight es

token_element-root :
    (u : Ucan) (cid : Text) (prf : List Text) {e : ChainElement} {p : Text} {w : ℕ}
    → token_element u cid prf ≡ ok (e, p, w)
    → (prf ≡ [])
      × (e ≡ record { credential = token u; cid = cid; is_root = true; mode = root })
      × (w ≡ weight_of u.payload.att)
unfolding token_element
token_element-root u cid [] h = (refl, ground arith, ground arith)
token_element-root u cid (x ∷ []) h = cc
token_element-root u cid (x ∷ y ∷ r) h = cc

token_element-ne-out_of_fuel :
    (u : Ucan) (cid : Text) (prf : List Text) → token_element u cid prf ≢ err out_of_fuel
unfolding token_element
token_element-ne-out_of_fuel u cid [] h = cc
token_element-ne-out_of_fuel u cid (x ∷ []) h = cc
token_element-ne-out_of_fuel u cid (x ∷ y ∷ r) h = cc

module _ (c : Codecs) where
  -- The text is a root, a token without proofs, or any other element: a RESTRICT block whose `prf` is the
  -- parent's CID.
  abbrev pub IsElement : Text → Text → ChainElement → Text → Type 0
  IsElement raw cid e parent =
      ((u : Ucan) × (parse_ucan c.crypto c.tokens raw ≡ ok u)
        × (u.payload.prf ≡ [])
        × (e ≡ record { credential = token u; cid = cid; is_root = true; mode = root }))
      ⊎ ((b : RestrictBlock) × (parse_restrict_block c.blocks raw ≡ ok b)
          × (b.prf ≡ parent)
          × (e ≡ record { credential = block b; cid = cid; is_root = false; mode = restrict }))

  pub parse_element-IsElement :
      (raw cid : Text) {e : ChainElement} {p : Text} {w : ℕ}
      → parse_element c raw cid ≡ ok (e, p, w)
      → IsElement raw cid e p × (w ≡ credential_weight e.credential)
  unfolding parse_element block_element
  parse_element-IsElement raw cid {e} {p} {w} h = elim (Bool-cases (starts_with_brace raw)) [
    | inl b ↦ elim (Result-cases (parse_restrict_block c.blocks raw)) [
      | ok (k, q) ↦ (inr (k, q, ground arith, ground arith), ground arith)
      | err (x, q) ↦ absurd (ground arith)
    ]
    | inr b ↦ elim (Result-cases (parse_ucan c.crypto c.tokens raw)) [
      | ok (u, q) ↦
          let t : token_element u cid u.payload.prf ≡ ok (e, p, w) = ground arith in
          let (bare, same, weighs) = token_element-root u cid u.payload.prf t in
          (
            inl (u, q, bare, same),
            weighs ∙ ap (λ (x : ChainElement). credential_weight x.credential) (sym same),
          )
      | err (x, q) ↦ absurd (ground arith)
    ]
  ]

  -- The bytes under `cid` hash to it, and are the element, with its parent's CID.
  pub record Fetched (store : ProofStore) (cid : Text) (e : ChainElement) (parent : Text)
      : Type 0 where
    pub raw : Text
    pub stored : store cid ≡ some raw
    pub hashes : compute_cid c.crypto.sha256 raw ≡ cid
    pub weight : ℕ
    pub parses : parse_element c raw cid ≡ ok (e, parent, weight)
    pub element : IsElement raw cid e parent

  -- The elements from `cid` up to a root.
  pub data IsChain (store : ProofStore) : Text → List ChainElement → Type 0 where
    last :
        {cid : Text} (e : ChainElement) (parent : Text)
        → Fetched store cid e parent
        → e.is_root ≡ true
        → IsChain store cid (e ∷ [])
    hop :
        {cid : Text} (e : ChainElement) (parent : Text) (es : List ChainElement)
        → Fetched store cid e parent
        → e.is_root ≡ false
        → IsChain store parent es
        → IsChain store cid (e ∷ es)

  pub fetch-Fetched :
      (store : ProofStore) (cid : Text) (seen : List Text) (e : ChainElement) (p : Text) (w : ℕ)
      → fetch c store cid seen ≡ ok (e, p, w)
      → Fetched store cid e p × (w ≡ credential_weight e.credential) × (contains seen cid ≡ false)
  unfolding fetch
  fetch-Fetched store cid seen e p w h = elim (Option-cases (store cid)) [
    | inl n ↦ absurd (ground arith)
    | inr (raw, s) ↦
        let q : parse_element c raw cid ≡ ok (e, p, w) = ground arith in
        (
          record {
            raw = raw;
            stored = s;
            hashes = ground (arith, verify_cid_iff c.crypto.sha256 raw cid);
            weight = w;
            parses = q;
            element = (parse_element-IsElement raw cid q).0;
          },
          (parse_element-IsElement raw cid q).1,
          ground arith,
        )
  ]

  parse_element-ne-out_of_fuel : (raw cid : Text) → parse_element c raw cid ≢ err out_of_fuel
  unfolding parse_element
  parse_element-ne-out_of_fuel raw cid h = elim (Bool-cases (starts_with_brace raw)) [
    | inl b ↦ ground arith
    | inr b ↦ elim (Result-cases (parse_ucan c.crypto c.tokens raw)) [
      | ok (u, q) ↦ token_element-ne-out_of_fuel u cid u.payload.prf (ground arith)
      | err (x, q) ↦ ground arith
    ]
  ]

  pub fetch-ne-out_of_fuel :
      (store : ProofStore) (cid : Text) (seen : List Text)
      → fetch c store cid seen ≢ err out_of_fuel
  unfolding fetch
  fetch-ne-out_of_fuel store cid seen h = elim (Option-cases (store cid)) [
    | inl n ↦ ground arith
    | inr (raw, s) ↦ parse_element-ne-out_of_fuel raw cid (ground arith)
  ]
