-- ===== src/Revocation/Reconciliation/Memory.antt =====
-- Reconciliation on the services that are in memory, and the cascade behind it. The credentials are given
-- as a list and a proof store.
use adtp.Prelude.{
  ℕ, ℤ, ◌≡◌, ◌≢◌, refl, sym, ap, subst, ◌∙◌, ◌↔◌, ◌⊎◌, inr, Bool, true, some, List, arith, Text,
  Result, ok, length, Occurs, ok_inj,
}
use adtp.Prelude.Steps.{Steps}
use adtp.Signing.{Crypto}
use adtp.Audit.{AuditEntry, AuditErr, AuditCodec}
use adtp.Audit
use adtp.Delegation.{Codecs, ProofStore}
use adtp.Revocation.Authority.{cascade}
use adtp.Revocation.Entry.{RevocationEntry, EntryCodec}
use adtp.Revocation.Cache.{get_status}
use adtp.Revocation.Registration.{contains_link}
use adtp.Revocation.Registration
use adtp.Revocation.Registration.Links.{register_iff}
use adtp.Revocation.Cascade.{CascadeReport, execute_cascade}
use adtp.Revocation.Cascade.Memory.{MemoryServices, memory_services, execute_cascade-Revoked}
use adtp.Revocation.Reconciliation.{ReconcileServices, ReconciliationReport, noted, reconcile}
use adtp.Revocation.Reconciliation.Links.{KeepsLinks, InBuilt}
use adtp.Revocation.Reconciliation.Idempotent.{reconcile-Reconciled}

unchanged : {x y : Bool} → x ≡ y → (y ≡ true) ↔ ((x ≡ true) ⊎ ⊥)
unchanged q = ground arith

module _ (audit_codec : AuditCodec) (audit_clock : ℕ → ℤ) (listed : Result AuditErr (List Text))
    (store : ProofStore) where
  append : AuditEntry → Steps MemoryServices AuditErr Unit
  unfolding Audit.append
  append e s =
      let (log, result) =
        Audit.append audit_codec s.audit e (audit_clock (length s.audit.entries)) in
      (record s { audit = log }, result)

  register : Text → List Text → Steps MemoryServices AuditErr Unit
  unfolding Registration.register
  register cid cs s =
      (record s { registrations = Registration.register s.registrations cid cs }, ok tt)

  unfoldable pub memory_credentials : ReconcileServices MemoryServices AuditErr
  unfolding register append contains_link
  memory_credentials = record {
    list_credentials = λ s. listed;
    get = λ s. store;
    contains = λ s. contains_link s.registrations;
    register = register;
    append = some append;
  }

  pub memory_credentials-KeepsLinks : KeepsLinks memory_credentials
  unfolding memory_credentials noted append register
  memory_credentials-KeepsLinks = record {
    registers = λ cid cs s. (
      record s { registrations = Registration.register s.registrations cid cs },
      refl,
      record { links = register_iff s.registrations cid cs; same_get = refl; same_list = refl },
    );
    appends = λ codecs r h. record {
      links = λ a b. unchanged (ap (λ p. contains_link p.0.registrations a b) h);
      same_get = refl;
      same_list = refl;
    };
  }

  -- Once the index has been reconciled with the stored credentials, a cascade that succeeds leaves a CASCADE
  -- entry on each of them whose chain contains the compromised CID, whatever had been registered before.
  pub reconciled-cascade :
      (crypto : Crypto) (codec : EntryCodec) (clock : ℕ → ℤ) (codecs : Codecs) (cid key : Text)
      (s₀ s₁ s₂ : MemoryServices) (r : ReconciliationReport) (report : CascadeReport)
      (cids : List Text) (d : Text)
      → listed ≡ ok cids
      → reconcile memory_credentials codecs s₀ ≡ (s₁, ok r)
      → execute_cascade
          (memory_services crypto codec audit_codec audit_clock)
          crypto
          codec
          clock
          cid
          key
          s₁
        ≡ (s₂, ok report)
      → Occurs d cids
      → InBuilt codecs store d cid
      → d ≢ cid
      → (e : RevocationEntry) × (get_status s₂.revocations d ≡ some e) × (e.status ≡ cascade)
  unfolding memory_credentials
  reconciled-cascade crypto codec clock codecs cid key s₀ s₁ s₂ r report cids d all ran then o i n =
      let (found, f) =
        reconcile-Reconciled memory_credentials memory_credentials-KeepsLinks codecs s₀ s₁ r ran in
      let revoked =
        execute_cascade-Revoked crypto codec audit_codec audit_clock clock cid key s₁ s₂ report
          then in
      let same : found ≡ cids = ok_inj (sym f.lists ∙ all) in
      revoked.descendants d ((f.links d cid).1 (inr (subst (Occurs d) (sym same) o, i))) n
