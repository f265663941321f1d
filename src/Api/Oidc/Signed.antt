-- ===== src/Api/Oidc/Signed.antt =====
-- The signature of a bearer token, in OIDCVerifier.Verify.
use adtp.Prelude.{
  ◌≡◌, ap, subst, ◌∙◌, arith, true, false, not, some, List, [], ◌∷◌, ◌++◌, Text, Text-eq, codes,
  ◌==◌, eq_iff, Result, ok, >>=-eq-ok, fail_if, fail_if-eq-ok, map_err, map_err-eq-ok, ok_or,
  ok_or-eq-ok, ok_inj, lookup, split_on,
}
use adtp.Api.Oidc.{
  RsaKey, TokenHeader, OidcCodec, JwksErr, malformed_token, unsupported_alg, unavailable_keys,
  unknown_key, bad_signature, pick, three_parts, signed_body,
}

three_parts-eq-some :
    (ps : List Text) (a b c : Text) → three_parts ps ≡ some (a, b, c) → ps ≡ a ∷ b ∷ c ∷ []
unfolding three_parts
three_parts-eq-some [] a b c h = cc
three_parts-eq-some (x ∷ []) a b c h = cc
three_parts-eq-some (x ∷ y ∷ []) a b c h = cc
three_parts-eq-some (x ∷ y ∷ z ∷ []) a b c h = cc
three_parts-eq-some (x ∷ y ∷ z ∷ w ∷ ps) a b c h = cc

module _ (codec : OidcCodec) where
  -- A token of three parts, signed by one of the keys.
  pub record IsSigned (keys : List (Text × RsaKey)) (token body : Text) : Type 0 where
    pub head : Text
    pub tail : Text
    pub shape : split_on b'.' token ≡ head ∷ body ∷ tail ∷ []
    pub header_bytes : Text
    pub header : TokenHeader
    pub decoded : codec.b64_decode head ≡ some header_bytes
    pub read : codec.unmarshal_header header_bytes ≡ some header
    pub alg : header.alg ≡ codes "RS256"
    pub key : RsaKey
    pub picked : pick header.kid keys (lookup header.kid keys) ≡ some key
    pub sig : Text
    pub signature : codec.b64_decode tail ≡ some sig
    pub signed : codec.rsa_verify key (codec.sha256 (head ++ codes "." ++ body)) sig ≡ true

  pub signed_body-IsSigned :
      (provided : Result JwksErr (List (Text × RsaKey))) (token body : Text)
      → signed_body codec provided token ≡ ok body
      → (keys : List (Text × RsaKey)) × (provided ≡ ok keys) × IsSigned keys token body
  unfolding signed_body
  signed_body-IsSigned provided token body h =
      let ((head, middle, tail), p0, h0) =
        >>=-eq-ok (ok_or malformed_token (three_parts (split_on b'.' token))) _ h in
      let (header_bytes, p1, h1) = >>=-eq-ok (ok_or malformed_token (codec.b64_decode head)) _ h0 in
      let (header, p2, h2) =
        >>=-eq-ok (ok_or malformed_token (codec.unmarshal_header header_bytes)) _ h1 in
      let (_, p3, h3) =
        >>=-eq-ok (fail_if (not (header.alg == codes "RS256")) unsupported_alg) _ h2 in
      let (keys, p4, h4) = >>=-eq-ok (map_err (λ _. unavailable_keys) provided) _ h3 in
      let (key, p5, h5) =
        >>=-eq-ok (ok_or unknown_key (pick header.kid keys (lookup header.kid keys))) _ h4 in
      let (sig, p6, h6) = >>=-eq-ok (ok_or malformed_token (codec.b64_decode tail)) _ h5 in
      let (_, p7, h7) =
        >>=-eq-ok
          (fail_if (not (codec.rsa_verify key (codec.sha256 (head ++ codes "." ++ middle)) sig))
            bad_signature)
          _ h6 in
      let same : middle ≡ body = ok_inj h7 in
      let alg : not (header.alg == codes "RS256") ≡ false = fail_if-eq-ok _ unsupported_alg p3 in
      let signed : not (codec.rsa_verify key (codec.sha256 (head ++ codes "." ++ middle)) sig)
          ≡ false =
        fail_if-eq-ok _ bad_signature p7 in
      (
        keys,
        map_err-eq-ok (λ _. unavailable_keys) provided p4,
        record {
          head = head;
          tail = tail;
          shape =
              three_parts-eq-some _ head middle tail (ok_or-eq-ok malformed_token _ p0)
              ∙ ap (λ b. head ∷ b ∷ tail ∷ []) same;
          header_bytes = header_bytes;
          header = header;
          decoded = ok_or-eq-ok malformed_token (codec.b64_decode head) p1;
          read = ok_or-eq-ok malformed_token (codec.unmarshal_header header_bytes) p2;
          alg = ground (arith, eq_iff header.alg (codes "RS256"));
          key = key;
          picked = ok_or-eq-ok unknown_key _ p5;
          sig = sig;
          signature = ok_or-eq-ok malformed_token (codec.b64_decode tail) p6;
          signed =
              subst (λ b. codec.rsa_verify key (codec.sha256 (head ++ codes "." ++ b)) sig ≡ true)
                same (ground arith);
        },
      )
