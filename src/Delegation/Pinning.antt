-- ===== src/Delegation/Pinning.antt =====
-- A leaf CID pins the whole chain, whatever store serves it.
use adtp.Prelude.{
  ◌≡◌, some, ◌≢◌, ◌⊎◌, inl, inr, sym, ap, ap₂, subst, List, [], ◌∷◌, arith, Text, Text-eq, ◌==◌,
  eq_iff, ok, Bool-cases, length, ℤ,
}
use adtp.Credential.Cid.{compute_cid}
use adtp.Delegation.{ChainElement, Chain, ProofStore, Codecs, parse_element, build_chain}
use adtp.Delegation.Chains.{Fetched, IsChain, last, hop}
use adtp.Delegation.Walk.{build_chain-IsBuilt}

module _ (c : Codecs) where
  module _ (s t : ProofStore) where
    -- A CID under which the two stores hold different texts, both of which hash to it.
    pub record Collision : Type 0 where
      pub cid : Text
      pub left : Text
      pub right : Text
      pub stored_left : s cid ≡ some left
      pub stored_right : t cid ≡ some right
      pub differ : left ≢ right
      pub hash_left : compute_cid c.crypto.sha256 left ≡ cid
      pub hash_right : compute_cid c.crypto.sha256 right ≡ cid

    same_element :
        (cid : Text) (e f : ChainElement) (p q : Text)
        → Fetched c s cid e p
        → Fetched c t cid f q
        → ((e ≡ f) × (p ≡ q)) ⊎ Collision
    same_element cid e f p q a b = elim (Bool-cases (a.raw == b.raw)) [
      | inl h ↦
          let same : a.raw ≡ b.raw = (eq_iff a.raw b.raw).0 h in
          let one : ok (f, q, b.weight) ≡ parse_element c a.raw cid =
            sym (subst (λ r. parse_element c r cid ≡ ok (f, q, b.weight)) (sym same) b.parses) in
          inl (ground (arith, one, a.parses), ground (arith, one, a.parses))
      | inr h ↦ inr (record {
        cid = cid;
        left = a.raw;
        right = b.raw;
        stored_left = a.stored;
        stored_right = b.stored;
        differ = λ e. ground (arith, eq_iff a.raw b.raw);
        hash_left = a.hashes;
        hash_right = b.hashes;
      })
    ]

    IsChain-unique :
        {cid : Text} {es fs : List ChainElement}
        → IsChain c s cid es
        → IsChain c t cid fs
        → (es ≡ fs) ⊎ Collision
    IsChain-unique {cid} (last e p a r) (last f q b r') = elim (same_element cid e f p q a b) [
      | inl (h, k) ↦ inl (ap (λ x. x ∷ []) h)
      | inr x ↦ inr x
    ]
    IsChain-unique {cid} (last e p a r) (hop f q fs b r' ch) = elim (same_element cid e f p q a b) [
      | inl (h, k) ↦ absurd (ground arith)
      | inr x ↦ inr x
    ]
    IsChain-unique {cid} (hop e p es a r ch) (last f q b r') = elim (same_element cid e f p q a b) [
      | inl (h, k) ↦ absurd (ground arith)
      | inr x ↦ inr x
    ]
    IsChain-unique {cid} (hop e p es a r ch) (hop f q fs b r' ch') = elim (Bool-cases (p == q)) [
      | inl same ↦
          extend e f p q es fs (same_element cid e f p q a b)
            (IsChain-unique ch (subst (λ x. IsChain c t x fs) (sym ((eq_iff p q).0 same)) ch'))
      | inr other ↦ elim (same_element cid e f p q a b) [
        | inl (h, k) ↦ absurd (ground (arith, eq_iff p q))
        | inr x ↦ inr x
      ]
    ]
      where
        extend :
            (e f : ChainElement) (p q : Text) (es fs : List ChainElement)
            → ((e ≡ f) × (p ≡ q)) ⊎ Collision
            → (es ≡ fs) ⊎ Collision
            → (e ∷ es ≡ f ∷ fs) ⊎ Collision
        extend e f p q es fs (inl (h, k)) (inl h') = inl (ap₂ (λ x xs. x ∷ xs) h h')
        extend e f p q es fs (inl (h, k)) (inr x) = inr x
        extend e f p q es fs (inr x) h' = inr x

    -- Two stores that both yield a chain for one leaf CID, under any depth caps, yield the same chain,
    -- unless they hold, under one CID, two different texts that both hash to it.
    pub build_chain_unique :
        (leaf_cid : Text) (m n : ℤ) (x y : Chain)
        → build_chain c s leaf_cid m ≡ ok x
        → build_chain c t leaf_cid n ≡ ok y
        → (x ≡ y) ⊎ Collision
    build_chain_unique leaf_cid m n x y h k =
        let bx = build_chain-IsBuilt c s leaf_cid m x h in
        let by = build_chain-IsBuilt c t leaf_cid n y k in
        elim (IsChain-unique bx.links by.links) [
          | inl e ↦ inl (ground (arith, e, bx.depth_is, by.depth_is, ap length e))
          | inr z ↦ inr z
        ]
