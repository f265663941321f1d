-- ===== src/Credential/Restrict/Issuance.antt =====
-- What CreateRestrictBlock signs is what ParseRestrictBlock, Verify and ValidateAgainstParent accept.
use adtp.Prelude.{
  ◌<◌, ◌≡◌, refl, ap, ◌∙◌, inl, inr, Bool, true, false, Option, none, some, List, [], arith, Text,
  Text-eq, ℕ-eq, eq_iff, eq_refl, ok, err, Result-cases, Option-cases, length, ℤ, pos, ◌<ℤ◌, ◌≤ℤ◌,
  ltb_ℤ, leb_ℤ,
}
use adtp.Signing.{Crypto, sign, signature_input, private_key_size, public_key_size, signature_size}
use adtp.Credential.Capability.{Constraint, is_empty}
use adtp.Credential.Restrict.{
  RestrictBlock, BlockCodec, DelegationParent, issuable, unsigned_block, create_restrict_block,
  parse_restrict_block, validate_against_parent, verify_block,
}

-- Ed25519 verifies what it signs, with keys and signatures of its sizes, and base64 decodes what it
-- encodes.
pub record CryptoLaws (c : Crypto) : Type 0 where
  pub verify_sign :
      (priv msg : Text)
      → length priv ≡ private_key_size
      → c.ed25519_verify (c.public priv) msg (c.ed25519_sign priv msg) ≡ true
  pub length-public : (priv : Text) → length (c.public priv) ≡ public_key_size
  pub length-sign : (priv msg : Text) → length (c.ed25519_sign priv msg) ≡ signature_size
  pub decode-encode : (s : Text) → c.b64_decode (c.b64_encode s) ≡ some s
  pub encode_nonempty : (s : Text) → 0 < length s → is_empty (c.b64_encode s) ≡ false

-- The canonical bytes of the block are I-JSON and decode to the block, and the bytes that are signed
-- do not depend on the `sig` member.
pub record RoundTrips (c : BlockCodec) (b : RestrictBlock) : Type 0 where
  pub canonical_ijson : (raw : Text) → c.canonical b ≡ some raw → c.valid_ijson raw ≡ true
  pub unmarshal-canonical : (raw : Text) → c.canonical b ≡ some raw → c.unmarshal raw ≡ some b
  pub unsigned_sig : (s : Text) → c.unsigned b ≡ c.unsigned (record b { sig = s })

parse-canonical :
    (codec : BlockCodec) (raw : Text) (b : RestrictBlock)
    → parse_restrict_block codec raw ≡ ok b
    → codec.canonical b ≡ some raw
unfolding parse_restrict_block
parse-canonical codec raw b h = elim (Option-cases (codec.unmarshal raw)) [
  | inl n ↦ absurd (ground arith)
  | inr (b', q) ↦ elim (Option-cases (codec.canonical b')) [
    | inl n ↦ absurd (ground arith)
    | inr (r, t) ↦ ground (arith, eq_iff r raw)
  ]
]

sign_ok :
    (c : Crypto) (object : Option Text) (key sig : Text)
    → sign c object key ≡ ok sig
    → (input : Text) × (signature_input object ≡ ok input) × (sig ≡ c.ed25519_sign key input)
unfolding sign
sign_ok c none key sig h = absurd (ground arith)
sign_ok c (some canon) key sig h = (_, refl, ground arith)

-- What the checks before issuance establish.
record IsIssuable (ijson : Text → Bool) (parent : DelegationParent) (aud : Text) (dl : ℤ)
    (caveats : List Constraint) (key : Text) : Type 0 where
  key_size : length key ≡ private_key_size
  parent_cid : is_empty parent.cid ≡ false
  parent_aud : is_empty parent.aud ≡ false
  audience : is_empty aud ≡ false
  some_caveat : is_empty caveats ≡ false
  reduced : leb_ℤ parent.dl dl ≡ false
  nonneg : ltb_ℤ dl (pos 0) ≡ false

issuable-IsIssuable :
    (ijson : Text → Bool) (parent : DelegationParent) (aud : Text) (dl : ℤ)
    (caveats : List Constraint) (key : Text)
    → issuable ijson parent aud dl caveats key ≡ ok tt
    → IsIssuable ijson parent aud dl caveats key
unfolding issuable
issuable-IsIssuable ijson parent aud dl caveats key h = record {
  key_size = ground arith;
  parent_cid = ground arith;
  parent_aud = ground arith;
  audience = ground arith;
  some_caveat = ground arith;
  reduced = ground arith;
  nonneg = ground arith;
}

module _ (crypto : Crypto) (codec : BlockCodec) where
  record IsCreated (parent : DelegationParent) (aud : Text) (dl : ℤ) (caveats : List Constraint)
      (key : Text) (b : RestrictBlock) (raw : Text) : Type 0 where
    checked : issuable codec.valid_ijson parent aud dl caveats key ≡ ok tt
    signature : Text
    signed : sign crypto (codec.unsigned (unsigned_block parent aud dl caveats)) key ≡ ok signature
    is_block :
        b ≡ record (unsigned_block parent aud dl caveats) { sig = crypto.b64_encode signature }
    canonical : codec.canonical b ≡ some raw

  create-IsCreated :
      (parent : DelegationParent) (aud : Text) (dl : ℤ) (caveats : List Constraint) (key : Text)
      (b : RestrictBlock) (raw : Text)
      → create_restrict_block crypto codec parent aud dl caveats key ≡ ok (b, raw)
      → IsCreated parent aud dl caveats key b raw
  unfolding create_restrict_block
  create-IsCreated parent aud dl caveats key b raw h =
      let block = unsigned_block parent aud dl caveats in
      elim (Result-cases (sign crypto (codec.unsigned block) key)) [
        | err (e, q) ↦ absurd (ground arith)
        | ok (sig, q) ↦
            let signed : RestrictBlock = record block { sig = crypto.b64_encode sig } in
            elim (Option-cases (codec.canonical signed)) [
              | inl n ↦ absurd (ground arith)
              | inr (r, s) ↦ record {
                checked = ground arith;
                signature = sig;
                signed = q;
                is_block = ground arith;
                canonical = ground arith;
              }
            ]
      ]

  module _ (cl : CryptoLaws crypto) (parent : DelegationParent) (aud : Text) (dl : ℤ)
      (caveats : List Constraint) (key : Text) (b : RestrictBlock) (raw : Text)
      (bl : RoundTrips codec b) (made : IsCreated parent aud dl caveats key b raw) where
    made_signature :
        (input : Text) × (signature_input (codec.unsigned (unsigned_block parent aud dl caveats))
          ≡ ok input)
        × (made.signature ≡ crypto.ed25519_sign key input)
    made_signature = sign_ok crypto _ key made.signature made.signed

    signature_length : length made.signature ≡ signature_size
    signature_length = let (input, q, e) = made_signature in rw e (cl.length-sign key input)

    facts : IsIssuable codec.valid_ijson parent aud dl caveats key
    facts = issuable-IsIssuable codec.valid_ijson parent aud dl caveats key made.checked

    created_parses : parse_restrict_block codec raw ≡ ok b
    unfolding parse_restrict_block unsigned_block
    created_parses = ground (
      arith,
      facts,
      made.is_block,
      made.canonical,
      bl.canonical_ijson raw made.canonical,
      bl.unmarshal-canonical raw made.canonical,
      cl.encode_nonempty made.signature (omega (arith, signature_length)),
      eq_refl b.typ,
      eq_refl raw,
    )

    created_links : validate_against_parent b parent ≡ ok tt
    unfolding validate_against_parent unsigned_block
    created_links = ground (arith, facts, made.is_block, eq_refl parent.aud, eq_refl parent.cid)

    stripped : codec.unsigned b ≡ codec.unsigned (unsigned_block parent aud dl caveats)
    unfolding unsigned_block
    stripped = bl.unsigned_sig [] ∙ ap codec.unsigned (ground (arith, made.is_block))

    created_verifies : verify_block crypto codec b (crypto.public key) ≡ ok tt
    unfolding verify_block
    created_verifies =
        let (input, q, e) = made_signature in
        ground (
          arith,
          facts.key_size,
          made.is_block,
          q,
          e,
          stripped,
          cl.decode-encode made.signature,
          cl.length-public key,
          signature_length,
          cl.verify_sign key input facts.key_size,
        )

    created_fields :
        (b.dl <ℤ parent.dl)
        × (pos 0 ≤ℤ b.dl)
        × (b.exp ≡ parent.exp)
        × (b.nbf ≡ parent.nbf)
        × (b.cav ≡ caveats)
    unfolding unsigned_block
    created_fields = (
      ground (arith, facts.reduced, made.is_block),
      ground (arith, facts.nonneg, made.is_block),
      ground (arith, made.is_block),
      ground (arith, made.is_block),
      ground (arith, made.is_block),
    )

-- A block that CreateRestrictBlock returns is, from its canonical bytes, parsed back by
-- ParseRestrictBlock, satisfies ValidateAgainstParent for its parent and verifies under the signer's
-- public key; its depth is below the parent's and not negative, it has the parent's validity window,
-- and its caveats are those asked for. Ed25519, base64 and the JSON codec are assumed to satisfy
-- `CryptoLaws` and `RoundTrips`.
pub create_restrict_block_lem :
    (crypto : Crypto) (codec : BlockCodec) (parent : DelegationParent) (aud : Text) (dl : ℤ)
    (caveats : List Constraint) (key : Text) (b : RestrictBlock) (raw : Text)
    → CryptoLaws crypto
    → RoundTrips codec b
    → create_restrict_block crypto codec parent aud dl caveats key ≡ ok (b, raw)
    → (parse_restrict_block codec raw ≡ ok b)
      × (validate_against_parent b parent ≡ ok tt)
      × (verify_block crypto codec b (crypto.public key) ≡ ok tt)
      × (b.dl <ℤ parent.dl)
      × (pos 0 ≤ℤ b.dl)
      × (b.exp ≡ parent.exp)
      × (b.nbf ≡ parent.nbf)
      × (b.cav ≡ caveats)
create_restrict_block_lem crypto codec parent aud dl caveats key b raw cl bl h =
    let made = create-IsCreated crypto codec parent aud dl caveats key b raw h in
    let (below, nonneg, e, n, c) =
      created_fields crypto codec cl parent aud dl caveats key b raw bl made in
    (
      created_parses crypto codec cl parent aud dl caveats key b raw bl made,
      created_links crypto codec cl parent aud dl caveats key b raw bl made,
      created_verifies crypto codec cl parent aud dl caveats key b raw bl made,
      below,
      nonneg,
      e,
      n,
      c,
    )

-- A block has one encoding: two texts that ParseRestrictBlock reads as one block are equal.
parse_restrict_block_injective :
    (codec : BlockCodec) (r s : Text) (b : RestrictBlock)
    → parse_restrict_block codec r ≡ ok b
    → parse_restrict_block codec s ≡ ok b
    → r ≡ s
parse_restrict_block_injective codec r s b h k =
    let e : codec.canonical b ≡ some r = parse-canonical codec r b h in
    let f : codec.canonical b ≡ some s = parse-canonical codec s b k in cc
