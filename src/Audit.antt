-- ===== src/Audit.antt =====
-- internal/audit/audit.go: the hash-linked audit log.
-- The canonical JSON of an entry's hashed fields and SHA-256 with hex are the parameter `AuditCodec`.
-- The clock is an argument, and the lock makes each call one step.
pub mod Content
pub mod Linked
pub mod Tests
use adtp.Prelude.{
  ℕ, zero, suc, ◌+◌, ◌*◌, ◌/◌, ◌%◌, ◌≡◌, refl, Bool, true, false, not, ◌&&◌, ◌||◌, Option, none,
  some, List, [], ◌∷◌, ◌++◌, ltb, Text, Text-eq, ℕ-eq, codes, ◌==◌, if◌then◌else◌, Result, ok, err,
  ◌>>=◌, ◌>>◌, fail_if, ok_or, ℤ, ℤ-eq, pos, ltb_ℤ, add64, length,
}
use adtp.Credential.Capability.{is_empty}

abbrev pub capability_invoked : Text
capability_invoked = codes "CAPABILITY_INVOKED"

abbrev pub capability_denied : Text
capability_denied = codes "CAPABILITY_DENIED"

abbrev pub revocation_posted : Text
revocation_posted = codes "REVOCATION_POSTED"

abbrev pub compromise_cascade : Text
compromise_cascade = codes "COMPROMISE_CASCADE"

abbrev pub reconciliation_completed : Text
reconciliation_completed = codes "RECONCILIATION_COMPLETED"

-- A member of a payload map: the program puts strings and integers there.
pub data Field : Type 0 where
  text : Text → Field
  number : ℤ → Field

-- A nil payload is an empty one: Append and entryHash make it so.
abbrev pub Payload : Type 0
Payload = List (Text × Field)

pub record AuditEntry : Type 0 where
  pub entry_id : Text
  pub seq : ℤ
  pub ts : ℤ
  pub event_type : Text
  pub agent_id : Text
  pub cred_cid : Text
  pub chain_hash : Text
  pub payload : Payload
  pub prev_hash : Text
  pub entry_hash : Text

pub record AuditFilter : Type 0 where
  pub event_type : Text
  pub agent_id : Text
  pub since : ℤ

-- The fields that are hashed, in one record.
pub record Hashed : Type 0 where
  pub seq : ℤ
  pub ts : ℤ
  pub prev_hash : Text
  pub event_type : Text
  pub agent_id : Text
  pub cred_cid : Text
  pub chain_hash : Text
  pub payload : Payload

-- CanonicalizeValue of the map of these fields, the hex digest of SHA-256, and the entry's identifier
-- from its sequence and hash.
pub record AuditCodec : Type 0 where
  pub canonical : Hashed → Option Text
  pub digest : Text → Text
  pub make_entry_id : ℤ → Text → Text

pub data AuditErr : Type 0 where
  unhashable chain_tampered : AuditErr

unfoldable pub hashed : AuditEntry → Hashed
hashed e = record {
  seq = e.seq;
  ts = e.ts;
  prev_hash = e.prev_hash;
  event_type = e.event_type;
  agent_id = e.agent_id;
  cred_cid = e.cred_cid;
  chain_hash = e.chain_hash;
  payload = e.payload;
}

pub record MemoryAuditLog : Type 0 where
  pub entries : List AuditEntry
  pub last_hash : Text
  pub seq : ℤ

unfoldable pub new_log : MemoryAuditLog
new_log = record { entries = []; last_hash = []; seq = pos 0 }

-- The fields that Append assigns before it hashes.
numbered : MemoryAuditLog → AuditEntry → ℤ → AuditEntry
numbered l e now = record e {
  seq = add64 l.seq (pos 1);
  ts = if e.ts == pos 0 then now else e.ts;
  prev_hash = l.last_hash;
}

module _ (codec : AuditCodec) where
  -- entryHash
  unfoldable pub entry_hash : Hashed → Option Text
  entry_hash h = elim (codec.canonical h) [ none ↦ none | some t ↦ some (codec.digest t) ]

  -- The log after an entry with its hash, or with the sequence number spent when it has none.
  stored : MemoryAuditLog → AuditEntry → Option Text → MemoryAuditLog × Result AuditErr Unit
  stored l e none = (record l { seq = e.seq }, err unhashable)
  stored l e (some hash) = (
    record {
      entries =
          l.entries
          ++ record e { entry_hash = hash; entry_id = codec.make_entry_id e.seq hash } ∷ [];
      last_hash = hash;
      seq = e.seq;
    },
    ok tt,
  )

  -- Append
  unfoldable pub append : MemoryAuditLog → AuditEntry → ℤ → MemoryAuditLog × Result AuditErr Unit
  unfolding entry_hash numbered stored hashed
  append l e now = stored l (numbered l e now) (entry_hash (hashed (numbered l e now)))

  -- The loop of VerifyChain.
  verify_from : Text → List AuditEntry → Result AuditErr Unit
  unfolding entry_hash hashed
  verify_from prev [] = ok tt
  verify_from prev (e ∷ es) =
      let rest = verify_from e.entry_hash es in
      if e.prev_hash == prev
      then elim (entry_hash (hashed e)) [
        | none ↦ err unhashable
        | some hash ↦ if hash == e.entry_hash then rest else err chain_tampered
      ]
      else err chain_tampered

  unfoldable pub verify_chain : MemoryAuditLog → Result AuditErr Unit
  unfolding verify_from
  verify_chain l = verify_from [] l.entries

-- The three tests of Query.
selected : AuditFilter → AuditEntry → Bool
unfolding is_empty
selected f e =
    (is_empty f.event_type || e.event_type == f.event_type)
    && (is_empty f.agent_id || e.agent_id == f.agent_id)
    && (f.since == pos 0 || not (ltb_ℤ e.ts f.since))

query_entries : AuditFilter → List AuditEntry → List AuditEntry
unfolding selected
query_entries f [] = []
query_entries f (e ∷ es) = let rest = query_entries f es in if selected f e then e ∷ rest else rest

unfoldable pub query : MemoryAuditLog → AuditFilter → List AuditEntry
unfolding query_entries
query l f = query_entries f l.entries
