-- ===== src/Credential/Restrict.antt =====
-- internal/credential/restrict.go: RESTRICT blocks, their issuance, parsing and linkage.
-- encoding/json and the canonicalizer of internal/signing/jcs.go are the parameters `BlockCodec`.
-- A block without `sig` is the input of its signature.
pub mod Issuance
pub mod Tests
use adtp.Prelude.{
  ℕ, ◌≡◌, refl, Bool, true, false, not, ◌&&◌, ◌||◌, Option, none, some, List, [], ◌∷◌, ltb, Text,
  Text-eq, ℕ-eq, codes, ◌==◌, if◌then◌else◌, Result, ok, err, ◌>>=◌, ◌>>◌, fail_if, map_err, ok_or,
  ℤ, pos, ltb_ℤ, leb_ℤ, length,
}
use adtp.Signing.{Crypto, SigningErr, sign, verify_encoded, encode_signature, private_key_size}
use adtp.Credential.Capability.{
  Constraint, CredentialErr, not_restrict_block, no_caveats, too_many_caveats, depth_not_reduced,
  negative_depth, non_canonical, expiry_escalation, not_before_regression, issuer_mismatch,
  invalid_key, missing_field, signing_failed, validate_constraints, is_empty,
}
use adtp.Credential.Cid.{compute_cid}

abbrev pub restrict_block_typ : Text
restrict_block_typ = codes "adtp/cav/1"

abbrev pub max_caveats_per_block : ℕ
max_caveats_per_block = 50

pub record RestrictBlock : Type 0 where
  pub typ : Text
  pub iss : Text
  pub aud : Text
  pub prf : Text
  pub nbf : ℤ
  pub exp : ℤ
  pub dl : ℤ
  pub cav : List Constraint
  pub crit : List Text
  pub sig : Text

pub record DelegationParent : Type 0 where
  pub cid : Text
  pub aud : Text
  pub exp : ℤ
  pub nbf : ℤ
  pub dl : ℤ

-- ValidateIJSON; json.Unmarshal into a block; CanonicalizeValue of a block, and of a block less its
-- `sig` member.
pub record BlockCodec : Type 0 where
  pub valid_ijson : Text → Bool
  pub unmarshal : Text → Option RestrictBlock
  pub canonical : RestrictBlock → Option Text
  pub unsigned : RestrictBlock → Option Text

-- The checks of CreateRestrictBlock before it builds the block, in their order.
issuable :
    (Text → Bool) → DelegationParent → Text → ℤ → List Constraint → Text → Result CredentialErr Unit
unfolding is_empty validate_constraints
issuable ijson parent aud child_dl caveats signer_key = do
  fail_if (not (length signer_key == private_key_size)) invalid_key
  fail_if (is_empty parent.cid || is_empty parent.aud) missing_field
  fail_if (is_empty aud) missing_field
  fail_if (is_empty caveats) no_caveats
  fail_if (ltb max_caveats_per_block (length caveats)) too_many_caveats
  fail_if (leb_ℤ parent.dl child_dl) depth_not_reduced
  fail_if (ltb_ℤ child_dl (pos 0)) negative_depth
  validate_constraints ijson caveats

unsigned_block : DelegationParent → Text → ℤ → List Constraint → RestrictBlock
unsigned_block parent aud child_dl caveats = record {
  typ = restrict_block_typ;
  iss = parent.aud;
  aud = aud;
  prf = parent.cid;
  nbf = parent.nbf;
  exp = parent.exp;
  dl = child_dl;
  cav = caveats;
  crit = [];
  sig = [];
}

-- RestrictBlock.ValidateAgainstParent
unfoldable pub validate_against_parent :
    RestrictBlock → DelegationParent → Result CredentialErr Unit
unfolding is_empty
validate_against_parent b parent = do
  fail_if (not (b.iss == parent.aud)) issuer_mismatch
  fail_if (not (b.prf == parent.cid)) not_restrict_block
  fail_if (ltb_ℤ parent.exp b.exp) expiry_escalation
  fail_if (ltb_ℤ b.nbf parent.nbf) not_before_regression
  fail_if (leb_ℤ parent.dl b.dl) depth_not_reduced
  fail_if (is_empty b.cav) no_caveats

module _ (crypto : Crypto) (codec : BlockCodec) where
  -- CreateRestrictBlock: the block and its canonical bytes.
  unfoldable pub create_restrict_block :
      DelegationParent
      → Text
      → ℤ
      → List Constraint
      → Text
      → Result CredentialErr (RestrictBlock × Text)
  unfolding issuable unsigned_block sign encode_signature
  create_restrict_block parent aud child_dl caveats signer_key = do
    issuable codec.valid_ijson parent aud child_dl caveats signer_key
    let block = unsigned_block parent aud child_dl caveats
    sig ← map_err (λ _. signing_failed) (sign crypto (codec.unsigned block) signer_key)
    let signed : RestrictBlock = record block { sig = encode_signature crypto sig }
    raw ← ok_or signing_failed (codec.canonical signed)
    ok (signed, raw)

  -- RestrictBlock.Verify
  unfoldable pub verify_block : RestrictBlock → Text → Result SigningErr Unit
  unfolding verify_encoded
  verify_block b pub_key = verify_encoded crypto (codec.unsigned b) b.sig pub_key

  -- RestrictBlock.CID
  unfoldable pub block_cid : RestrictBlock → Option Text
  unfolding compute_cid
  block_cid b = elim (codec.canonical b) [
    | none ↦ none
    | some raw ↦ some (compute_cid crypto.sha256 raw)
  ]

module _ (codec : BlockCodec) where
  -- ParseRestrictBlock
  unfoldable pub parse_restrict_block : Text → Result CredentialErr RestrictBlock
  unfolding is_empty
  parse_restrict_block raw = do
    fail_if (not (codec.valid_ijson raw)) not_restrict_block
    block ← ok_or not_restrict_block (codec.unmarshal raw)
    fail_if (not (block.typ == restrict_block_typ)) not_restrict_block
    fail_if (is_empty block.iss || is_empty block.aud || is_empty block.prf) missing_field
    fail_if (is_empty block.sig) missing_field
    fail_if (ltb_ℤ block.dl (pos 0)) negative_depth
    canonical ← ok_or non_canonical (codec.canonical block)
    fail_if (not (canonical == raw)) non_canonical
    ok block
