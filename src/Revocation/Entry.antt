-- ===== src/Revocation/Entry.antt =====
-- internal/revocation/entry.go and list.go: signed revocation entries and lists.
-- JSON encoding is a parameter: `unsigned` gives the canonical bytes less the `sig` member. The clock
-- is an argument. internal/identity's ParseDID is the parameter `parse_did`.
pub mod Authentic
use adtp.Prelude.{
  ok_inj, ◌≡◌, sym, ap, >>=-eq-ok, not, ◌&&◌, Option, List, [], Text, Text-eq, ℕ-eq, codes, ◌==◌,
  if◌then◌else◌, Result, ok, ◌>>=◌, ◌>>◌, fail_if, map_err, ok_or, ℤ, pos, add64, length,
}
use adtp.Signing.{Crypto, SigningErr, sign, verify_encoded, encode_signature, private_key_size}
use adtp.Credential.Capability.{is_empty}
use adtp.Revocation.Authority.{
  RevocationAuthority, RevocationScope, RevocationStatus, AuthorityErr, validate_authority,
}

abbrev pub revocation_entry_typ : Text
revocation_entry_typ = codes "adtp/rev/1"

abbrev pub revocation_list_typ : Text
revocation_list_typ = codes "adtp/revlist/1"

abbrev pub revocation_list_schema_version : Text
revocation_list_schema_version = codes "1.0"

abbrev pub default_list_validity : ℤ
default_list_validity = pos 900

pub data RevocationErr : Type 0 where
  not_revocation_entry missing_subject invalid_key not_revocation_list : RevocationErr
  sequence_rollback : RevocationErr
  authority_error : AuthorityErr → RevocationErr
  signing_error : SigningErr → RevocationErr

pub record RevocationSubject : Type 0 where
  pub cid : Text
  pub did : Text

-- RevocationSubject.Key
unfoldable pub subject_key : RevocationSubject → Text
unfolding is_empty
subject_key s = if is_empty s.cid then s.did else s.cid

pub record RevocationAuth : Type 0 where
  pub did : Text
  pub basis : RevocationAuthority
  pub proof : Text

pub record RevocationEntry : Type 0 where
  pub typ : Text
  pub seq : ℤ
  pub subject : RevocationSubject
  pub scope : RevocationScope
  pub status : RevocationStatus
  pub authority : RevocationAuth
  pub iat : ℤ
  pub prev : Text
  pub sig : Text

pub record RevocationList : Type 0 where
  pub typ : Text
  pub schema_version : Text
  pub issued_at : ℤ
  pub expires_at : ℤ
  pub issuer : Text
  pub list_id : Text
  pub sequence : ℤ
  pub entries : List RevocationEntry
  pub prev_list_hash : Text
  pub sig : Text

-- Go's JSON encoder with the canonicalizer, and fmt.Sprintf("%s:%d") with the hex digest of listID.
pub record EntryCodec : Type 0 where
  pub unsigned : RevocationEntry → Option Text
  pub unsigned_list : RevocationList → Option Text
  pub make_list_id : Text → ℤ → Text
  pub parse_did : Text → Option Text

unsigned_entry :
    RevocationSubject
    → RevocationScope
    → RevocationStatus
    → RevocationAuth
    → ℤ
    → Text
    → ℤ
    → RevocationEntry
unsigned_entry subject scope status authority seq prev now = record {
  typ = revocation_entry_typ;
  seq = seq;
  subject = subject;
  scope = scope;
  status = status;
  authority = authority;
  iat = now;
  prev = prev;
  sig = [];
}

module _ (crypto : Crypto) (codec : EntryCodec) where
  -- CreateRevocationEntry
  unfoldable pub create_revocation_entry :
      RevocationSubject
      → RevocationScope
      → RevocationStatus
      → RevocationAuth
      → ℤ
      → Text
      → Text
      → ℤ
      → Result RevocationErr RevocationEntry
  unfolding is_empty validate_authority unsigned_entry sign encode_signature
  create_revocation_entry subject scope status authority seq prev key now = do
    fail_if (not (length key == private_key_size)) invalid_key
    fail_if (is_empty subject.cid && is_empty subject.did) missing_subject
    map_err authority_error (validate_authority authority.basis status scope)
    let entry = unsigned_entry subject scope status authority seq prev now
    sig ← map_err signing_error (sign crypto (codec.unsigned entry) key)
    ok (record entry { sig = encode_signature crypto sig })

  -- VerifyRevocationEntry
  unfoldable pub verify_revocation_entry : RevocationEntry → Text → Result RevocationErr Unit
  unfolding validate_authority verify_encoded
  verify_revocation_entry e pub_key = do
    fail_if (not (e.typ == revocation_entry_typ)) not_revocation_entry
    map_err authority_error (validate_authority e.authority.basis e.status e.scope)
    map_err signing_error (verify_encoded crypto (codec.unsigned e) e.sig pub_key)

  -- VerifyEntrySelfSignature
  unfoldable pub verify_entry_self_signature : RevocationEntry → Result RevocationErr Unit
  unfolding verify_revocation_entry
  verify_entry_self_signature e = do
    pub_key ← ok_or not_revocation_entry (codec.parse_did e.authority.did)
    verify_revocation_entry e pub_key

  -- CreateRevocationList. A nil list of entries becomes an empty one, which it is here.
  unfoldable pub create_revocation_list :
      List RevocationEntry → Text → Text → ℤ → Text → ℤ → Result RevocationErr RevocationList
  unfolding sign encode_signature
  create_revocation_list entries issuer prev seq key now = do
    fail_if (not (length key == private_key_size)) invalid_key
    let list : RevocationList = record {
      typ = revocation_list_typ;
      schema_version = revocation_list_schema_version;
      issued_at = now;
      expires_at = add64 now default_list_validity;
      issuer = issuer;
      list_id = codec.make_list_id issuer seq;
      sequence = seq;
      entries = entries;
      prev_list_hash = prev;
      sig = [];
    }
    sig ← map_err signing_error (sign crypto (codec.unsigned_list list) key)
    ok (record list { sig = encode_signature crypto sig })

  -- VerifyRevocationList
  unfoldable pub verify_revocation_list : RevocationList → Text → Result RevocationErr Unit
  unfolding verify_encoded
  verify_revocation_list list pub_key = do
    fail_if (not (list.typ == revocation_list_typ)) not_revocation_list
    fail_if (not (list.schema_version == revocation_list_schema_version)) not_revocation_list
    map_err signing_error (verify_encoded crypto (codec.unsigned_list list) list.sig pub_key)

-- An entry that is created has the given subject, status and sequence.
pub create_revocation_entry-shape :
    (crypto : Crypto) (codec : EntryCodec) (subject : RevocationSubject) (scope : RevocationScope)
    (status : RevocationStatus) (auth : RevocationAuth) (seq : ℤ) (prev key : Text) (now : ℤ)
    (e : RevocationEntry)
    → create_revocation_entry crypto codec subject scope status auth seq prev key now ≡ ok e
    → (e.subject ≡ subject) × (e.status ≡ status) × (e.seq ≡ seq)
unfolding create_revocation_entry unsigned_entry
create_revocation_entry-shape crypto codec subject scope status auth seq prev key now e h =
    let (_, _, h1) = >>=-eq-ok (fail_if (not (length key == private_key_size)) invalid_key) _ h in
    let (_, _, h2) =
      >>=-eq-ok (fail_if (is_empty subject.cid && is_empty subject.did) missing_subject) _ h1 in
    let (_, _, h3) =
      >>=-eq-ok (map_err authority_error (validate_authority auth.basis status scope)) _ h2 in
    let entry = unsigned_entry subject scope status auth seq prev now in
    let (sig, _, h4) =
      >>=-eq-ok (map_err signing_error (sign crypto (codec.unsigned entry) key)) _ h3 in
    let shape : record entry { sig = encode_signature crypto sig } ≡ e = ok_inj h4 in
    (ap (λ x. x.subject) (sym shape), ap (λ x. x.status) (sym shape), ap (λ x. x.seq) (sym shape))
