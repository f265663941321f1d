-- ===== src/Revocation/Cascade/Memory.antt =====
-- The services of internal/revocation that are in memory: the cache, the registration index, the
-- emergency channel and the audit log, and what a cascade on them leaves. `audit_clock n` is the time at
-- which the log is asked to append behind n entries.
use adtp.Prelude.{
  err-ne-ok, ℕ, ◌≡◌, refl, sym, ap, ◌∙◌, Option, some, List, [], ◌∷◌, ◌++◌, Text, Text-eq, ◌==◌,
  if◌then◌else◌, Result, ok, err, map_err, ℤ, lookup, lookup-insert, length,
}
use adtp.Prelude.Steps.{Steps}
use adtp.Signing.{Crypto}
use adtp.Audit.{AuditEntry, MemoryAuditLog, AuditCodec, Payload}
use adtp.Audit
use adtp.Revocation.Entry.{RevocationEntry, EntryCodec, RevocationErr, subject_key}
use adtp.Revocation.Cache.{MemoryRevocationCache, get_status, get_status-same, get_status-stands}
use adtp.Revocation.Cache
use adtp.Revocation.Cache.Sequence.{revoke_iff}
use adtp.Revocation.Registration.{MemoryRegistrationIndex}
use adtp.Revocation.Registration
use adtp.Revocation.Cascade.{
  CascadeErr, revocation_error, audit_error, Services, CascadeReport, append_audit, push_batch,
  execute_cascade,
}
use adtp.Revocation.Cascade.Posted.{KeepsEntries}
use adtp.Revocation.Cascade.Revoked.{Revoked, execute_cascade-revokes}

pub record MemoryServices : Type 0 where
  pub revocations : MemoryRevocationCache
  pub registrations : MemoryRegistrationIndex
  pub batches : List (List RevocationEntry)
  pub audit : MemoryAuditLog

-- The cache after a call of Revoke, which changes nothing when it fails.
after_revoke :
    MemoryServices
    → Result RevocationErr MemoryRevocationCache
    → MemoryServices × Result CascadeErr Unit
after_revoke s (ok cache) = (record s { revocations = cache }, ok tt)
after_revoke s (err e) = (s, err (revocation_error e))

-- MemoryEmergencyChannel.Push
push : List RevocationEntry → Steps MemoryServices CascadeErr Unit
push batch s = (record s { batches = s.batches ++ batch ∷ [] }, ok tt)

after_revoke-eq-ok :
    (s s' : MemoryServices) (r : Result RevocationErr MemoryRevocationCache)
    → after_revoke s r ≡ (s', ok tt)
    → (cache : MemoryRevocationCache) × (r ≡ ok cache) × (s' ≡ record s { revocations = cache })
unfolding after_revoke
after_revoke-eq-ok s s' (ok cache) h = (cache, refl, ap (λ p. p.0) (sym h))
after_revoke-eq-ok s s' (err e) h = absurd (err-ne-ok (ap (λ p. p.1) h))

module _ (crypto : Crypto) (codec : EntryCodec) (audit_codec : AuditCodec)
    (audit_clock : ℕ → ℤ) where
  revoke : RevocationEntry → Steps MemoryServices CascadeErr Unit
  unfolding Cache.revoke after_revoke
  revoke e s = after_revoke s (Cache.revoke crypto codec s.revocations e)

  append : AuditEntry → Steps MemoryServices CascadeErr Unit
  unfolding Audit.append
  append e s =
      let (log, result) =
        Audit.append audit_codec s.audit e (audit_clock (length s.audit.entries)) in
      (record s { audit = log }, map_err audit_error result)

  unfoldable pub memory_services : Services MemoryServices
  unfolding revoke append push Cache.current_seq Registration.find_descendants
  memory_services = record {
    current_seq = λ s subject. ok (Cache.current_seq s.revocations subject);
    revoke = revoke;
    find_descendants = λ s cid. ok (Registration.find_descendants s.registrations cid);
    push = some push;
    append = some append;
  }

  abbrev entry_of : MemoryServices → Text → Option RevocationEntry
  entry_of s key = lookup key s.revocations.entries

  -- A successful Revoke stores its entry.
  revoked :
      (e : RevocationEntry) (s s' : MemoryServices)
      → revoke e s ≡ (s', ok tt)
      → ((key : Text)
          → entry_of s' key ≡ (if subject_key e.subject == key then some e else entry_of s key))
        × (s'.registrations ≡ s.registrations)
  unfolding revoke
  revoked e s s' h =
      let (cache, called, after) =
        after_revoke-eq-ok s s' (Cache.revoke crypto codec s.revocations e) h in
      let (_, _, _, stored) = (revoke_iff crypto codec s.revocations cache e).0 called in
      (
        λ key.
            ap (λ t. lookup key t.revocations.entries) after
            ∙ ap (λ c. lookup key c.entries) stored
            ∙ lookup-insert (subject_key e.subject) key e s.revocations.entries,
        ap (λ t. t.registrations) after,
      )

  memory_services-KeepsEntries : KeepsEntries memory_services entry_of
  unfolding memory_services push_batch append_audit push append
  memory_services-KeepsEntries = record {
    revoked = λ e h. (revoked e _ _ h).0;
    pushed = λ batch h key. ap (λ r. lookup key r.0.revocations.entries) (sym h);
    appended = λ event_type cid payload h key. ap (λ r. lookup key r.0.revocations.entries) (sym h);
    revoked_finds =
        λ e h cid. ap (λ r. ok (Registration.find_descendants r cid)) ((revoked e _ _ h).1);
    appended_finds = λ event_type cid' payload h cid.
        ap (λ r. ok (Registration.find_descendants r.0.registrations cid)) (sym h);
  }

  module _ (clock : ℕ → ℤ) where
    -- After a cascade that succeeds, GetStatus reports the compromised CID as COMPROMISED and each credential
    -- with that CID in its registered chain as CASCADE; its answers on all other subjects are what they were.
    pub execute_cascade-Revoked :
        (cid key : Text) (s s' : MemoryServices) (report : CascadeReport)
        → execute_cascade memory_services crypto codec clock cid key s ≡ (s', ok report)
        → Revoked cid s.registrations s.revocations s'.revocations
    unfolding memory_services
    execute_cascade-Revoked cid key s s' report h =
        execute_cascade-revokes memory_services (λ t. t.revocations) (λ t. t.registrations)
          memory_services-KeepsEntries (λ t c. refl) crypto codec clock cid key s s' report h
