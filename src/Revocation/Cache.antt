-- ===== src/Revocation/Cache.antt =====
-- internal/revocation/cache.go: the latest entry of each subject, and the highest list sequence.
-- A method that changes the cache returns the new one. The lock makes each call one step.
pub mod Sequence
use adtp.Prelude.{
  ◌≡◌, ◌≢◌, refl, ap, eq_iff, arith, Bool, true, false, ◌&&◌, ◌||◌, Option, none, some, List, [],
  ◌∷◌, map, Text, Text-eq, ◌==◌, if◌then◌else◌, Result, ok, err, ◌>>=◌, ◌>>◌, fail_if, ℤ, pos,
  leb_ℤ, lookup, insert, inl, inr, Option-cases,
}
use adtp.Signing.{Crypto}
use adtp.Credential.Capability.{is_empty}
use adtp.Revocation.Authority.{RevocationStatus, reinstated, RevocationStatus-eq}
use adtp.Revocation.Entry.{
  RevocationEntry, RevocationList, EntryCodec, RevocationErr, missing_subject, sequence_rollback,
  subject_key, verify_entry_self_signature, verify_revocation_list,
}

pub record MemoryRevocationCache : Type 0 where
  pub entries : List (Text × RevocationEntry)
  pub list_seq : ℤ

abbrev pub empty_cache : MemoryRevocationCache
empty_cache = record { entries = []; list_seq = pos 0 }

-- GetStatus: an entry that reinstates reports the subject as active.
unless_reinstated : Option RevocationEntry → Option RevocationEntry
unless_reinstated none = none
unless_reinstated (some e) = if e.status == reinstated then none else some e

unfoldable pub get_status : MemoryRevocationCache → Text → Option RevocationEntry
unfolding lookup unless_reinstated
get_status c subject = unless_reinstated (lookup subject c.entries)

seq_or_zero : Option RevocationEntry → ℤ
seq_or_zero none = pos 0
seq_or_zero (some e) = e.seq

-- CurrentSeq
unfoldable pub current_seq : MemoryRevocationCache → Text → ℤ
unfolding lookup seq_or_zero
current_seq c subject = seq_or_zero (lookup subject c.entries)

-- The test on an existing entry: a sequence that does not grow is refused.
rolls_back : Option RevocationEntry → ℤ → Bool
rolls_back none seq = false
rolls_back (some e) seq = leb_ℤ seq e.seq

-- One entry of a list: superseded, without a subject, or stored.
absorb : List (Text × RevocationEntry) → RevocationEntry → List (Text × RevocationEntry)
unfolding subject_key is_empty rolls_back lookup insert
absorb m e =
    if is_empty (subject_key e.subject) || rolls_back (lookup (subject_key e.subject) m) e.seq
    then m
    else insert (subject_key e.subject) e m

absorb_all : List (Text × RevocationEntry) → List RevocationEntry → List (Text × RevocationEntry)
unfolding absorb
absorb_all m [] = m
absorb_all m (e ∷ es) = absorb_all (absorb m e) es

-- Entries: the map's values. Go visits them in an order that it does not specify.
unfoldable pub snapshot : MemoryRevocationCache → List RevocationEntry
snapshot c = map (λ kv. kv.1) c.entries

module _ (crypto : Crypto) (codec : EntryCodec) where
  -- Revoke
  unfoldable pub revoke :
      MemoryRevocationCache → RevocationEntry → Result RevocationErr MemoryRevocationCache
  unfolding subject_key is_empty verify_entry_self_signature rolls_back lookup insert
  revoke c e = do
    fail_if (is_empty (subject_key e.subject)) missing_subject
    verify_entry_self_signature crypto codec e
    fail_if (rolls_back (lookup (subject_key e.subject) c.entries) e.seq) sequence_rollback
    ok (record c { entries = insert (subject_key e.subject) e c.entries })

  -- UpdateFromList
  unfoldable pub update_from_list :
      MemoryRevocationCache → RevocationList → Text → Result RevocationErr MemoryRevocationCache
  unfolding verify_revocation_list absorb_all
  update_from_list c list issuer_pub = do
    verify_revocation_list crypto codec list issuer_pub
    fail_if (leb_ℤ list.sequence c.list_seq) sequence_rollback
    ok (record { entries = absorb_all c.entries list.entries; list_seq = list.sequence })

pub get_status-same :
    (c d : MemoryRevocationCache) (subject : Text)
    → lookup subject c.entries ≡ lookup subject d.entries
    → get_status c subject ≡ get_status d subject
unfolding get_status
get_status-same c d subject h = ap unless_reinstated h

pub get_status-stands :
    (c : MemoryRevocationCache) (subject : Text) (e : RevocationEntry)
    → lookup subject c.entries ≡ some e
    → e.status ≢ reinstated
    → get_status c subject ≡ some e
unfolding get_status unless_reinstated
get_status-stands c subject e h n = rw h (ground (arith, eq_iff e.status reinstated))

pub get_status-eq-some :
    (c : MemoryRevocationCache) (subject : Text) (e : RevocationEntry)
    → get_status c subject ≡ some e
    → lookup subject c.entries ≡ some e
unfolding get_status unless_reinstated
get_status-eq-some c subject e h = elim (Option-cases (lookup subject c.entries)) [
  | inl n ↦ absurd (ground arith)
  | inr (x, q) ↦ ground arith
]
