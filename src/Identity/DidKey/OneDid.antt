-- ===== src/Identity/DidKey/OneDid.antt =====
-- ParseDID accepts exactly what EncodeDID writes of a 32-byte key.
use adtp.Identity.Base58.{base58_encode, base58_decode}
use adtp.Identity.Base58.RoundTrip.{base58_decode-encode, base58_encode-decode}
use adtp.Identity.DidKey.{
  encode_did, parse_did, did_key_prefix, base58_btc_prefix, ed25519_multicodec_prefix,
  unsupported_did_method, malformed_did, multicodec_of, key_of,
}
use adtp.Prelude.{
  ok_inj, ◌<◌, ◌≡◌, refl, sym, ap, subst, ◌∙◌, ◌↔◌, false, not, [], ◌∷◌, ◌++◌, arith, Text, ℕ-eq,
  Text-eq, ◌==◌, eq_iff, All, ok, fail_if, fail_if-eq-ok, map_err, ok_or, ok_or-eq-ok, >>=-eq-ok,
  length, strip_prefix, append-strip_prefix, map_err-eq-ok, text_eq, Eq,
}

-- 32 bytes.
abbrev pub IsPublicKey : Text → Type 0
IsPublicKey key = (length key ≡ 32) × All (λ c. c < 256) key

split :
    (t : Text)
    → length t ≡ 34
    → multicodec_of t ≡ ed25519_multicodec_prefix
    → t ≡ ed25519_multicodec_prefix ++ key_of t
unfolding multicodec_of key_of
split [] h q = cc
split (a ∷ []) h q = cc
split (a ∷ b ∷ key) h q = ap (λ front. front ++ key) q

not-eq : {T : Type 0} ⦃e : Eq T⦄ (a b : T) → not (a == b) ≡ false → a ≡ b
not-eq a b h = ground (arith, eq_iff a b)

parsed-key : (key : Text) → IsPublicKey key → parse_did (encode_did key) ≡ ok key
unfolding parse_did encode_did key_of multicodec_of text_eq
parsed-key key (n, h) =
    rw (base58_decode-encode (ed25519_multicodec_prefix ++ key) (omega arith, (omega arith, h)))
      (rw n refl)

parsed_did : (did key : Text) → parse_did did ≡ ok key → (encode_did key ≡ did) × IsPublicKey key
unfolding parse_did encode_did
parsed_did did key h =
    let (rest, p1, h1) =
      >>=-eq-ok (ok_or unsupported_did_method (strip_prefix did_key_prefix did)) _ h in
    let (multibase, p2, h2) =
      >>=-eq-ok (ok_or malformed_did (strip_prefix base58_btc_prefix rest)) _ h1 in
    let (decoded, p3, h3) =
      >>=-eq-ok (map_err (λ _. malformed_did) (base58_decode multibase)) _ h2 in
    let (_, p4, h4) = >>=-eq-ok (fail_if (not (length decoded == 34)) malformed_did) _ h3 in
    let (_, p5, h5) =
      >>=-eq-ok (fail_if (not (multicodec_of decoded == ed25519_multicodec_prefix)) malformed_did) _
        h4 in
    let size = not-eq (length decoded) 34 (fail_if-eq-ok _ malformed_did p4) in
    let front =
      not-eq (multicodec_of decoded) ed25519_multicodec_prefix (fail_if-eq-ok _ malformed_did p5) in
    let bytes : decoded ≡ ed25519_multicodec_prefix ++ key =
      split decoded size front ∙ ap (λ k. ed25519_multicodec_prefix ++ k) (ok_inj h5) in
    let (text, below) =
      base58_encode-decode multibase decoded (map_err-eq-ok _ (base58_decode multibase) p3) in
    let cut1 =
      append-strip_prefix did_key_prefix did rest (ok_or-eq-ok unsupported_did_method _ p1) in
    let cut2 =
      append-strip_prefix base58_btc_prefix rest multibase (ok_or-eq-ok malformed_did _ p2) in
    let (_, (_, small)) = subst (All (λ c. c < 256)) bytes below in
    (
      ap (λ t. did_key_prefix ++ (base58_btc_prefix ++ t)) (ap base58_encode (sym bytes) ∙ text)
          ∙ ap (λ t. did_key_prefix ++ t) cut2
          ∙ cut1,
      (omega (arith, subst (λ t. length t ≡ 34) bytes size), small),
    )

-- ParseDID accepts a text exactly if EncodeDID writes it of 32 bytes, and returns these: a key has one
-- DID, and a DID one key.
pub parse_did_iff :
    (did key : Text) → (parse_did did ≡ ok key) ↔ ((encode_did key ≡ did) × IsPublicKey key)
parse_did_iff did key = (parsed_did did key, λ h. ap parse_did (sym h.0) ∙ parsed-key key h.1)
