-- ===== src/Revocation/Tests.antt =====
-- Runs of the revocation cache, and the theorems at concrete inputs.
use adtp.Prelude.{
  ◌≡◌, ◌≢◌, refl, ◌↔◌, [], ◌∷◌, some, Text-eq, text_eq, codes, ok, err, ℤ, pos, ◌<ℤ◌, lookup,
  insert,
}
use adtp.Revocation.Authority.{
  hop_issuer, platform, RevocationStatus, suspended, reinstated, revoked, credential,
  validate_authority,
}
use adtp.Revocation.Authority.Model.{MaySet, MayUse, validate_authority_iff}
use adtp.Revocation.Entry.{
  RevocationEntry, RevocationList, EntryCodec, revocation_entry_typ, revocation_list_typ,
  revocation_list_schema_version, subject_key, verify_revocation_list, sequence_rollback,
}
use adtp.Revocation.Cache.{MemoryRevocationCache, empty_cache, revoke, update_from_list}
use adtp.Revocation.Entry.Authentic.{IsAuthentic}
use adtp.Revocation.Cache.Sequence.{
  IsLatest, Keeps, posted, listed, apply_all, revoke_iff, update_from_list_lem, apply_all-Keeps,
}
use adtp.Samples.{zeros, crypto}

abbrev pub codec : EntryCodec
codec = record {
  unsigned = λ _. some [];
  unsigned_list = λ _. some [];
  make_list_id = λ t n. t;
  parse_did = λ _. some (zeros 32);
}

abbrev pub entry : ℤ → RevocationStatus → RevocationEntry
entry n s = record {
  typ = revocation_entry_typ;
  seq = n;
  subject = record { cid = codes "bafkrei"; did = [] };
  scope = credential;
  status = s;
  authority = record { did = codes "did:p"; basis = platform; proof = [] };
  iat = pos 5;
  prev = [];
  sig = zeros 64;
}

abbrev posted_list : RevocationList
posted_list = record {
  typ = revocation_list_typ;
  schema_version = revocation_list_schema_version;
  issued_at = pos 5;
  expires_at = pos 905;
  issuer = codes "did:p";
  list_id = [];
  sequence = pos 1;
  entries = entry (pos 1) revoked ∷ entry (pos 2) suspended ∷ [];
  prev_list_hash = [];
  sig = zeros 64;
}

abbrev after_list : MemoryRevocationCache
after_list = record { entries = (codes "bafkrei", entry (pos 2) suspended) ∷ []; list_seq = pos 1 }

validate_authority_example :
    (validate_authority hop_issuer suspended credential ≡ ok tt)
    ↔ (MaySet hop_issuer suspended × MayUse hop_issuer credential)
validate_authority_example = validate_authority_iff hop_issuer suspended credential

list_run : update_from_list crypto codec empty_cache posted_list (zeros 32) ≡ ok after_list
unfolding update_from_list text_eq insert lookup
list_run = refl

rollback_run : revoke crypto codec after_list (entry (pos 2) revoked) ≡ err sequence_rollback
unfolding revoke text_eq insert lookup
rollback_run = refl

update_from_list_example :
    (verify_revocation_list crypto codec posted_list (zeros 32) ≡ ok tt)
    × (empty_cache.list_seq <ℤ posted_list.sequence)
    × (after_list.list_seq ≡ posted_list.sequence)
    × IsLatest (codes "bafkrei") empty_cache.entries posted_list.entries after_list.entries
update_from_list_example =
    update_from_list_lem crypto codec empty_cache after_list posted_list (zeros 32)
      (codes "bafkrei") list_run

abbrev after_revoke : MemoryRevocationCache
after_revoke = record {
  entries = (codes "bafkrei", entry (pos 3) reinstated) ∷ [];
  list_seq = pos 1;
}

revoke_example : (revoke crypto codec after_list (entry (pos 3) reinstated) ≡ ok after_revoke) ↔ (
    (subject_key (entry (pos 3) reinstated).subject ≢ [])
    × IsAuthentic crypto codec (entry (pos 3) reinstated)
    × ((old : RevocationEntry)
        → lookup (subject_key (entry (pos 3) reinstated).subject) after_list.entries ≡ some old
        → old.seq <ℤ (entry (pos 3) reinstated).seq)
    × (after_revoke ≡ record after_list {
      entries =
          insert
            (subject_key (entry (pos 3) reinstated).subject)
            (entry (pos 3) reinstated)
            after_list.entries;
    }))
revoke_example = revoke_iff crypto codec after_list after_revoke (entry (pos 3) reinstated)

apply_all_example :
    Keeps
      (codes "bafkrei")
      after_list.entries
      (apply_all crypto codec after_list
        (posted (entry (pos 3) reinstated) ∷ listed posted_list (zeros 32) ∷ [])).entries
apply_all_example =
    apply_all-Keeps crypto codec (codes "bafkrei") after_list
      (posted (entry (pos 3) reinstated) ∷ listed posted_list (zeros 32) ∷ [])
