-- ===== src/Revocation/Cascade.antt =====
-- internal/revocation/cascade.go: the cascade that follows a compromised credential.
-- The services behind the interfaces share one state, and their calls may fail; a context is left out.
-- The clock is read once for each entry: `clock n` is the reading for the n-th, the primary one is 0.
pub mod Posted
pub mod Complete
pub mod Revoked
pub mod Memory
pub mod Tests
use adtp.Prelude.{
  ℕ, zero, suc, ◌≡◌, Bool, true, false, not, Option, none, some, List, [], ◌∷◌, ◌++◌, Text, codes,
  ℕ-eq, ◌==◌, Result, ok, err, fail_if, map_err, ℤ, pos, add64, length,
}
use adtp.Prelude.Steps.{Steps, ◌>>=◌, ◌>>◌, pure, lift, reading}
use adtp.Signing.{Crypto, private_key_size}
use adtp.Identity.DidKey.{encode_did}
use adtp.Audit.{
  AuditEntry, AuditErr, MemoryAuditLog, AuditCodec, Payload, text, number, append,
  revocation_posted, compromise_cascade,
}
use adtp.Revocation.Authority.{
  RevocationScope, RevocationStatus, platform, subtree, credential, compromised, cascade,
}
use adtp.Revocation.Entry.{
  RevocationEntry, RevocationAuth, EntryCodec, RevocationErr, invalid_key, create_revocation_entry,
}
use adtp.Revocation.Cache.{MemoryRevocationCache, revoke, current_seq}
use adtp.Revocation.Registration.{MemoryRegistrationIndex, find_descendants}

pub data CascadeErr : Type 0 where
  revocation_error : RevocationErr → CascadeErr
  audit_error : AuditErr → CascadeErr
  lookup_failed push_failed : CascadeErr

-- RevocationService, RegistrationIndex, EmergencyChannel and audit.AuditLog; the last two may be nil.
pub record Services (S : Type 0) : Type 0 where
  pub current_seq : S → Text → Result CascadeErr ℤ
  pub revoke : RevocationEntry → Steps S CascadeErr Unit
  pub find_descendants : S → Text → Result CascadeErr (List Text)
  pub push : Option (List RevocationEntry → Steps S CascadeErr Unit)
  pub append : Option (AuditEntry → Steps S CascadeErr Unit)

pub record CascadeReport : Type 0 where
  pub compromised_cid : Text
  pub primary_entry : RevocationEntry
  pub cascade_entries : List RevocationEntry
  pub descendant_count : ℕ

-- The entry of appendAudit, before the log completes it.
unfoldable pub audit_entry : Text → Text → Payload → AuditEntry
audit_entry event_type cred_cid payload = record {
  entry_id = [];
  seq = pos 0;
  ts = pos 0;
  event_type = event_type;
  agent_id = [];
  cred_cid = cred_cid;
  chain_hash = [];
  payload = payload;
  prev_hash = [];
  entry_hash = [];
}

abbrev posted_payload : Payload
posted_payload =
    (codes "status", text (codes "COMPROMISED")) ∷ (codes "scope", text (codes "subtree")) ∷ []

cascade_payload : Text → ℕ → Payload
cascade_payload cid n = (codes "compromised", text cid) ∷ (codes "descendants", number (pos n)) ∷ []

-- The authority that every entry of a cascade names.
cascade_authority : Crypto → Text → Text → RevocationAuth
unfolding encode_did
cascade_authority crypto cid signer_key = record {
  did = encode_did (crypto.public signer_key);
  basis = platform;
  proof = cid;
}

module _ {S : Type 0} (services : Services S) where
  -- appendAudit
  unfoldable pub append_audit : Text → Text → Payload → Steps S CascadeErr Unit
  unfolding audit_entry pure
  append_audit event_type cred_cid payload = elim services.append [
    | none ↦ pure tt
    | some append ↦ append (audit_entry event_type cred_cid payload)
  ]

  -- `if emergency != nil`
  unfoldable pub push_batch : List RevocationEntry → Steps S CascadeErr Unit
  unfolding pure
  push_batch batch = elim services.push [ none ↦ pure tt | some push ↦ push batch ]

  module _ (crypto : Crypto) (codec : EntryCodec) (clock : ℕ → ℤ) where
    -- The three calls that post an entry on a CID: its sequence, the signed entry, Revoke.
    unfoldable pub post :
        RevocationScope
        → RevocationStatus
        → RevocationAuth
        → Text
        → ℕ
        → Text
        → Steps S CascadeErr RevocationEntry
    unfolding ◌>>=◌ pure lift reading create_revocation_entry
    post scope status auth signer_key n cid = do
      seq ← reading (λ s. services.current_seq s cid)
      entry ← lift (
          map_err revocation_error (
            create_revocation_entry crypto codec (record { cid = cid; did = [] }) scope status auth
              (add64 seq (pos 1)) [] signer_key (clock n)))
      services.revoke entry
      pure entry

    -- The loop over the descendants.
    unfoldable pub post_all :
        RevocationAuth → Text → ℕ → List Text → Steps S CascadeErr (List RevocationEntry)
    unfolding post ◌>>=◌ pure
    post_all auth signer_key n [] = pure []
    post_all auth signer_key n (d ∷ ds) = do
      entry ← post credential cascade auth signer_key n d
      entries ← post_all auth signer_key (suc n) ds
      pure (entry ∷ entries)

    -- ExecuteCascade
    unfoldable pub execute_cascade : Text → Text → Steps S CascadeErr CascadeReport
    unfolding append_audit push_batch post post_all ◌>>=◌ pure lift reading cascade_authority
        cascade_payload
    execute_cascade cid signer_key = do
      lift (fail_if (not (length signer_key == private_key_size)) (revocation_error invalid_key))
      let auth = cascade_authority crypto cid signer_key
      primary ← post subtree compromised auth signer_key 0 cid
      append_audit revocation_posted cid posted_payload
      descendants ← reading (λ s. services.find_descendants s cid)
      entries ← post_all auth signer_key 1 descendants
      push_batch (primary ∷ entries)
      append_audit compromise_cascade cid (cascade_payload cid (length descendants))
      pure (record {
        compromised_cid = cid;
        primary_entry = primary;
        cascade_entries = entries;
        descendant_count = length descendants;
      })
