-- ===== src/Credential/Restrict/Tests.antt =====
-- Issuance at a concrete parent, and the theorems there.
use adtp.Prelude.{
  ◌<◌, ◌≡◌, refl, false, [], ◌∷◌, arith, Text, Text-eq, text_eq, codes, ok, pos, length, ◌<ℤ◌, ◌≤ℤ◌,
}
use adtp.Credential.Uri.{canonicalize_uri}
use adtp.Credential.Capability.{is_empty}
use adtp.Credential.Restrict.{
  create_restrict_block, parse_restrict_block, validate_against_parent, verify_block,
}
use adtp.Credential.Restrict.Issuance.{CryptoLaws, RoundTrips, create_restrict_block_lem}
use adtp.Samples.{zeros, crypto, blocks, parent, caveat, restricted, block_raw}

nonempty : (s : Text) → 0 < length s → is_empty s ≡ false
unfolding is_empty
nonempty [] h = absurd (omega arith)
nonempty (x ∷ s) h = refl

sample_laws : CryptoLaws crypto
sample_laws = record {
  verify_sign = λ _ _ _. refl;
  length-public = λ _. refl;
  length-sign = λ _ _. refl;
  decode-encode = λ _. refl;
  encode_nonempty = nonempty;
}

sample_trips : RoundTrips blocks restricted
sample_trips = record {
  canonical_ijson = λ _ _. refl;
  unmarshal-canonical = λ _ _. refl;
  unsigned_sig = λ _. refl;
}

issued_run :
    create_restrict_block crypto blocks parent (codes "did:bob") (pos 0) (caveat ∷ []) (zeros 64)
    ≡ ok (restricted, block_raw)
unfolding create_restrict_block text_eq canonicalize_uri
issued_run = refl

create_restrict_block_example :
    (parse_restrict_block blocks block_raw ≡ ok restricted)
    × (validate_against_parent restricted parent ≡ ok tt)
    × (verify_block crypto blocks restricted (crypto.public (zeros 64)) ≡ ok tt)
    × (restricted.dl <ℤ parent.dl)
    × (pos 0 ≤ℤ restricted.dl)
    × (restricted.exp ≡ parent.exp)
    × (restricted.nbf ≡ parent.nbf)
    × (restricted.cav ≡ caveat ∷ [])
create_restrict_block_example =
    create_restrict_block_lem crypto blocks parent (codes "did:bob") (pos 0) (caveat ∷ [])
      (zeros 64) restricted block_raw sample_laws sample_trips issued_run

parsed_run : parse_restrict_block blocks block_raw ≡ ok restricted
unfolding parse_restrict_block text_eq
parsed_run = refl
