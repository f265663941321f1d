-- ===== src/Revocation/Entry/Authentic.antt =====
-- What VerifyEntrySelfSignature asks of an entry.
use adtp.Prelude.{
  ◌≡◌, refl, some, Text, Text-eq, ◌==◌, eq_iff, not, arith, ok, fail_if, fail_if-eq-ok, >>=-eq-ok,
  map_err, map_err-eq-ok, ok_or, ok_or-eq-ok,
}
use adtp.Signing.{Crypto, verify_encoded}
use adtp.Revocation.Authority.{validate_authority}
use adtp.Revocation.Authority.Model.{MaySet, MayUse, validate_authority_iff}
use adtp.Revocation.Entry.{
  RevocationEntry, EntryCodec, verify_entry_self_signature, verify_revocation_entry,
  revocation_entry_typ, not_revocation_entry, authority_error, signing_error,
}

module _ (crypto : Crypto) (codec : EntryCodec) where
  -- An entry is authentic: it has the entries' type, its authority may set the status and use the scope, and
  -- it is signed by the key of the DID that it names.
  pub record IsAuthentic (e : RevocationEntry) : Type 0 where
    pub typed : e.typ ≡ revocation_entry_typ
    pub may_set : MaySet e.authority.basis e.status
    pub may_use : MayUse e.authority.basis e.scope
    pub key : Text
    pub named : codec.parse_did e.authority.did ≡ some key
    pub signed : verify_encoded crypto (codec.unsigned e) e.sig key ≡ ok tt

  pub verify_entry_self_signature-IsAuthentic :
      (e : RevocationEntry) → verify_entry_self_signature crypto codec e ≡ ok tt → IsAuthentic e
  unfolding verify_entry_self_signature verify_revocation_entry
  verify_entry_self_signature-IsAuthentic e h =
      let (key, p0, h0) =
        >>=-eq-ok (ok_or not_revocation_entry (codec.parse_did e.authority.did)) _ h in
      let (_, p1, h1) =
        >>=-eq-ok (fail_if (not (e.typ == revocation_entry_typ)) not_revocation_entry) _ h0 in
      let (_, p2, h2) =
        >>=-eq-ok (map_err authority_error (validate_authority e.authority.basis e.status e.scope))
          _ h1 in
      let (set, scoped) =
        (validate_authority_iff e.authority.basis e.status e.scope).0
          (map_err-eq-ok authority_error _ p2) in
      let typed = fail_if-eq-ok _ not_revocation_entry p1 in
      record {
        typed = ground (arith, eq_iff e.typ revocation_entry_typ);
        may_set = set;
        may_use = scoped;
        key = key;
        named = ok_or-eq-ok not_revocation_entry _ p0;
        signed = map_err-eq-ok signing_error _ h2;
      }

  pub IsAuthentic-accepted :
      (e : RevocationEntry) → IsAuthentic e → verify_entry_self_signature crypto codec e ≡ ok tt
  unfolding verify_entry_self_signature verify_revocation_entry
  IsAuthentic-accepted e a = rw a.named (
      rw ((eq_iff e.typ revocation_entry_typ).1 a.typed) (
        rw ((validate_authority_iff e.authority.basis e.status e.scope).1 (a.may_set, a.may_use))
          (rw a.signed refl)))
