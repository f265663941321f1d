-- ===== src/Verify/Unrevoked/Cascaded.antt =====
-- A cascade and the verifier: step 6 on the cache that a cascade leaves.
use adtp.Prelude.{
  ℕ, ℤ, ◌≡◌, sym, ◌<ℤ◌, lookup, subst, ◌↔◌, ◌⊎◌, inl, inr, Option, some, List, arith, Text, Text-eq,
  eq_iff, ◌==◌, Occurs, ok, Bool-cases,
}
use adtp.Signing.{Crypto}
use adtp.Audit.{AuditCodec}
use adtp.Delegation.{Chain}
use adtp.Revocation.Authority.{
  RevocationStatus, RevocationStatus-eq, compromised, cascade, reinstated,
}
use adtp.Revocation.Entry.{RevocationEntry, EntryCodec}
use adtp.Revocation.Cache.{MemoryRevocationCache, get_status, get_status-stands, get_status-eq-some}
use adtp.Revocation.Cache.Sequence.{Keeps}
use adtp.Revocation.Registration.{MemoryRegistrationIndex}
use adtp.Revocation.Cascade.Revoked.{Revoked}
use adtp.Revocation.Registration.Links.{Linked}
use adtp.Revocation.Cascade.{CascadeReport, execute_cascade}
use adtp.Revocation.Cascade.Memory.{MemoryServices, memory_services, execute_cascade-Revoked}
use adtp.Verify.Errors.{RiskTier}
use adtp.Verify.Config.{VerifierConfig}
use adtp.Verify.Unrevoked.{step6_revocation}
use adtp.Verify.Unrevoked.Denied.{IsSubject, Clear, Lifted, step6_revocation_iff}

not-Lifted : (a : RevocationStatus) → (a ≡ compromised) ⊎ (a ≡ cascade) → ¬ Lifted a
not-Lifted a (inl q) l = subst Lifted q l
not-Lifted a (inr q) l = subst Lifted q l

-- An answer with such an entry is not clear.
not-Clear :
    (tier : RiskTier) (answer : Option RevocationEntry)
    → (e : RevocationEntry) × (answer ≡ some e) × ((e.status ≡ compromised) ⊎ (e.status ≡ cascade))
    → ¬ Clear tier (ok answer)
not-Clear tier answer (e, q, h) c = not-Lifted e.status h (subst (λ o. Clear tier (ok o)) q c)

-- The entry of the compromised CID, or of a credential with it in its registered chain.
abbrev Denied : MemoryRevocationCache → Text → Type 0
Denied c d =
    (e : RevocationEntry) × (get_status c d ≡ some e)
    × ((e.status ≡ compromised) ⊎ (e.status ≡ cascade))

Revoked-Denied :
    (cid : Text) (index : MemoryRegistrationIndex) (old new : MemoryRevocationCache) (d : Text)
    → Revoked cid index old new
    → (d ≡ cid) ⊎ Linked index d cid
    → Denied new d
Revoked-Denied cid index old new d r hit =
    let (e0, q0, c0) = r.origin in
    elim (Bool-cases (d == cid)) [
      | inl same ↦ subst (Denied new) (sym ((eq_iff d cid).0 same)) (e0, q0, inl c0)
      | inr other ↦ elim hit [
        | inl same ↦ absurd (ground (arith, eq_iff d cid))
        | inr linked ↦
            let (e, q, c) =
              r.descendants d linked (λ same. absurd (ground (arith, eq_iff d cid))) in
            (e, q, inr c)
      ]
    ]

-- From the cache `new` to the cache `later`, the subject's entry has given way to one with a higher
-- sequence and a status that does not deny.
pub record Relieved (k : Text) (new later : MemoryRevocationCache) : Type 0 where
  pub denying : RevocationEntry
  pub held : lookup k new.entries ≡ some denying
  pub relieving : RevocationEntry
  pub holds : lookup k later.entries ≡ some relieving
  pub higher : denying.seq <ℤ relieving.seq
  pub lifted : Lifted relieving.status

-- The entry of an answer that is clear.
Clear-Lifted :
    (tier : RiskTier) (c : MemoryRevocationCache) (k : Text) (e : RevocationEntry)
    → lookup k c.entries ≡ some e
    → Clear tier (ok (get_status c k))
    → Lifted e.status
Clear-Lifted tier c k e q clear = elim (Bool-cases (e.status == reinstated)) [
  | inl r ↦ subst Lifted (sym ((eq_iff e.status reinstated).0 r)) tt
  | inr n ↦
      subst (λ o. Clear tier (ok o))
        (get_status-stands c k e q (λ same. absurd (ground (arith, eq_iff e.status reinstated))))
        clear
]

Denied-Relieved :
    (tier : RiskTier) (k : Text) (new later : MemoryRevocationCache)
    → Denied new k
    → Keeps k new.entries later.entries
    → Clear tier (ok (get_status later k))
    → Relieved k new later
Denied-Relieved tier k new later (e, q, hit) keeps clear =
    let held = get_status-eq-some new k e q in
    let (e', holds, supersedes) = keeps e held in
    let lifted = Clear-Lifted tier later k e' holds clear in
    record {
      denying = e;
      held = held;
      relieving = e';
      holds = holds;
      higher = elim supersedes [
        | inl same ↦
            absurd (
              not-Lifted e.status hit
                (subst (λ (x : RevocationEntry). Lifted x.status) same lifted))
        | inr above ↦ above
      ];
      lifted = lifted;
    }

-- Step 6 on a cache that has since been updated.
pub step6_revocation-Relieved :
    (cid : Text) (index : MemoryRegistrationIndex) (old new later : MemoryRevocationCache)
    (iterate : List Text → List Text) (chain : Chain) (config : VerifierConfig) (tier : RiskTier)
    (d : Text)
    → Revoked cid index old new
    → Keeps d new.entries later.entries
    → ((xs : List Text) (x : Text) → Occurs x (iterate xs) ↔ Occurs x xs)
    → config.revocation_cache ≡ some (λ subject. ok (get_status later subject))
    → IsSubject d chain.elements
    → (d ≡ cid) ⊎ Linked index d cid
    → step6_revocation iterate chain config tier ≡ ok tt
    → Relieved d new later
step6_revocation-Relieved cid index old new later iterate chain config tier d r keeps visits cache
      subject hit passed =
    Denied-Relieved tier d new later (Revoked-Denied cid index old new d r hit) keeps
      ((step6_revocation_iff iterate chain config tier _ visits cache).0 passed d subject)

module _ (crypto : Crypto) (codec : EntryCodec) (audit_codec : AuditCodec)
    (audit_clock clock : ℕ → ℤ) where
  -- After a cascade that succeeds, a verifier that reads this revocation cache refuses in step 6, in every
  -- risk tier, each chain with an element whose CID is the compromised one, or a credential in whose
  -- registered chain it is.
  step6_revocation-cascade :
      (cid key : Text) (s s' : MemoryServices) (report : CascadeReport)
      (iterate : List Text → List Text) (chain : Chain) (config : VerifierConfig) (tier : RiskTier)
      (d : Text)
      → execute_cascade
          (memory_services crypto codec audit_codec audit_clock)
          crypto
          codec
          clock
          cid
          key
          s
        ≡ (s', ok report)
      → ((xs : List Text) (x : Text) → Occurs x (iterate xs) ↔ Occurs x xs)
      → config.revocation_cache ≡ some (λ subject. ok (get_status s'.revocations subject))
      → IsSubject d chain.elements
      → (d ≡ cid) ⊎ Linked s.registrations d cid
      → ¬ (step6_revocation iterate chain config tier ≡ ok tt)
  step6_revocation-cascade cid key s s' report iterate chain config tier d ran keeps cache subject
        hit passed =
      not-Clear tier _
        (Revoked-Denied cid s.registrations s.revocations s'.revocations d
          (execute_cascade-Revoked crypto codec audit_codec audit_clock clock cid key s s' report
            ran)
          hit)
        ((step6_revocation_iff iterate chain config tier _ keeps cache).0 passed d subject)
