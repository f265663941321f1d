-- ===== src/Delegation/Walk.antt =====
-- The loop of BuildChain: it ends within its fuel, and a chain that it returns is within its bounds.
use mathlib.Core.List.{append_assoc}
use adtp.Prelude.{
  ℕ, zero, suc, ◌+◌, ◌≤◌, ◌≡◌, ◌≢◌, inl, inr, sym, subst, ◌∙◌, false, List, [], ◌∷◌, ◌++◌, arith,
  ltb, Text, Text-eq, contains, ok, err, Result-cases, length, length-append, Bool-cases, ℤ,
}
use adtp.Delegation.{
  out_of_fuel, ChainElement, Chain, ProofStore, Codecs, max_chain_caps_caveats, effective_depth,
  fetch, walk, build_chain,
}
use adtp.Delegation.Chains.{
  chain_weight, IsElement, IsChain, last, hop, fetch-Fetched, fetch-ne-out_of_fuel,
}

-- No CID of the list is among `seen` or stands twice.
abbrev pub Distinct : List Text → List ChainElement → Type 0
Distinct seen [] = Unit
Distinct seen (e ∷ es) = (contains seen e.cid ≡ false) × Distinct (e.cid ∷ seen) es

IsElement-cid :
    (c : Codecs) (raw cid : Text) (e : ChainElement) (p : Text)
    → IsElement c raw cid e p
    → e.cid ≡ cid
IsElement-cid c raw cid e p (inl (u, _, q, h)) = ground arith
IsElement-cid c raw cid e p (inr (b, _, q, h)) = ground arith

IsChain-length :
    (c : Codecs) (store : ProofStore) (cid : Text) (es : List ChainElement)
    → IsChain c store cid es
    → 1 ≤ length es
IsChain-length c store cid [] ch = elim ch [ ]
IsChain-length c store cid (e ∷ es) ch = omega arith

module _ (c : Codecs) (store : ProofStore) (max : ℕ) where
  -- What a successful run of the loop adds to what it had gathered.
  record Gathered (cid : Text) (seen : List Text) (acc : List ChainElement) (total : ℕ)
      (out : List ChainElement) : Type 0 where
    es : List ChainElement
    added : out ≡ acc ++ es
    chain : IsChain c store cid es
    deep : length out ≤ max + 1
    wide : total + chain_weight es ≤ max_chain_caps_caveats
    distinct : Distinct seen es

  walk-Gathered :
      (f : ℕ) (cid : Text) (seen : List Text) (acc : List ChainElement) (total : ℕ)
      (out : List ChainElement)
      → walk c f store max cid seen acc total ≡ ok out
      → Gathered cid seen acc total out
  unfolding walk chain_weight
  walk-Gathered zero cid seen acc total out h = absurd (ground arith)
  walk-Gathered (suc f) cid seen acc total out h = elim (Result-cases (fetch c store cid seen)) [
    | err (x, q) ↦ absurd (ground arith)
    | ok ((e, parent, w), q) ↦
        let (got, weighs, fresh) = fetch-Fetched c store cid seen e parent w q in
        let same : e.cid ≡ cid = IsElement-cid c got.raw cid e parent got.element in
        elim (Bool-cases e.is_root) [
          | inl r ↦ record {
            es = e ∷ [];
            added = ground arith;
            chain = last e parent got r;
            deep = ground (arith, length-append acc (e ∷ []));
            wide = ground arith;
            distinct = (rw same fresh, tt);
          }
          | inr r ↦
              let rest : Gathered parent (cid ∷ seen) (acc ++ e ∷ []) (total + w) out =
                walk-Gathered f parent (cid ∷ seen) (acc ++ e ∷ []) (total + w) out
                  (ground arith) in
              record {
                es = e ∷ rest.es;
                added = rest.added ∙ append_assoc acc (e ∷ []) rest.es;
                chain = hop e parent rest.es got r rest.chain;
                deep = rest.deep;
                wide = omega (arith, rest.wide, weighs);
                distinct = (
                  rw same fresh,
                  subst (λ t. Distinct (t ∷ seen) rest.es) (sym same) rest.distinct,
                );
              }
        ]
  ]

  -- Every round adds an element, and no more than `max + 1` are kept.
  walk-ne-out_of_fuel :
      (f : ℕ) (cid : Text) (seen : List Text) (acc : List ChainElement) (total : ℕ)
      → length acc ≤ max + 1
      → max + 2 ≤ length acc + f
      → walk c f store max cid seen acc total ≢ err out_of_fuel
  unfolding walk
  walk-ne-out_of_fuel zero cid seen acc total a h = absurd (omega arith)
  walk-ne-out_of_fuel (suc f) cid seen acc total a h = λ e.
      elim (Result-cases (fetch c store cid seen)) [
        | err (x, q) ↦ fetch-ne-out_of_fuel c store cid seen (ground arith)
        | ok ((el, parent, w), q) ↦
            let longer : length (acc ++ el ∷ []) ≡ length acc + 1 = length-append acc (el ∷ []) in
            elim (Bool-cases (ltb max (length acc))) [
              | inl deep ↦ ground arith
              | inr fits ↦
                  walk-ne-out_of_fuel f parent (cid ∷ seen) (acc ++ el ∷ []) (total + w)
                    (ground arith) (ground arith) (ground arith)
            ]
      ]

module _ (c : Codecs) (store : ProofStore) (leaf_cid : Text) (max_depth : ℤ) where
  -- Whatever the store holds, BuildChain ends: its loop makes at most two rounds more than the cap on
  -- the depth.
  pub build_chain-ne-out_of_fuel : build_chain c store leaf_cid max_depth ≢ err out_of_fuel
  unfolding build_chain
  build_chain-ne-out_of_fuel e =
      walk-ne-out_of_fuel c store (effective_depth max_depth) (effective_depth max_depth + 2)
        leaf_cid [] [] 0 (omega arith) (omega arith) (ground arith)

  -- What holds of a chain that BuildChain returns.
  pub record IsBuilt (chain : Chain) : Type 0 where
    pub links : IsChain c store leaf_cid chain.elements
    pub depth_is : length chain.elements ≡ chain.depth + 1
    pub depth_bound : chain.depth ≤ effective_depth max_depth
    pub weight_bound : chain_weight chain.elements ≤ max_chain_caps_caveats
    pub distinct : Distinct [] chain.elements

  -- A chain that BuildChain returns leads by `prf` links from the leaf's CID to a root, through elements
  -- that are no roots. Each element comes from stored bytes that hash to its CID; a root is a token that
  -- ParseUCAN reads from them and that has no proofs, and every other element a block that
  -- ParseRestrictBlock reads from them. No CID stands twice; the depth is the number of hops, within the
  -- cap; and the capabilities with their constraints, and the caveats, number 1000 at most.
  pub build_chain-IsBuilt :
      (chain : Chain) → build_chain c store leaf_cid max_depth ≡ ok chain → IsBuilt chain
  unfolding build_chain
  build_chain-IsBuilt chain h =
      elim (Result-cases (
        walk c (effective_depth max_depth + 2) store (effective_depth max_depth) leaf_cid [] []
          0)) [
            | err (x, q) ↦ absurd (ground arith)
            | ok (out, q) ↦
                let got =
                  walk-Gathered c store (effective_depth max_depth) (effective_depth max_depth + 2)
                    leaf_cid [] [] 0 out q in
                let same : chain.elements ≡ got.es = ground arith in
                let some_element : 1 ≤ length got.es =
                  IsChain-length c store leaf_cid got.es got.chain in
                record {
                  links = rw same got.chain;
                  depth_is = ground arith;
                  depth_bound = ground arith;
                  weight_bound = rw same (omega (arith, got.wide));
                  distinct = rw same got.distinct;
                }
          ]
