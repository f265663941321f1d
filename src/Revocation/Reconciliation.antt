-- ===== src/Revocation/Reconciliation.antt =====
-- internal/revocation/reconciliation.go: the repair of the registration index from the stored credentials.
-- The services behind the interfaces share one state. The counters of the report stay far below 2^63.
pub mod Links
pub mod Walk
pub mod Idempotent
pub mod Memory
use adtp.Prelude.{
  ℕ, suc, ◌≡◌, Bool, true, false, Option, none, some, List, [], ◌∷◌, Text, codes, if◌then◌else◌,
  Result, ok, err, pos,
}
use adtp.Prelude.Steps.{Steps, ◌>>=◌, ◌>>◌, pure, reading}
use adtp.Audit.{AuditEntry, Payload, number, reconciliation_completed}
use adtp.Delegation.{Codecs, ProofStore, Chain, ChainErr, ChainElement, build_chain, hard_max_depth}
use adtp.Revocation.Cascade.{CascadeErr, audit_entry}

-- CredentialStore, RegistrationStore and audit.AuditLog, which may be nil. A Get that fails finds nothing.
pub record ReconcileServices (S E : Type 0) : Type 0 where
  pub list_credentials : S → Result E (List Text)
  pub get : S → ProofStore
  pub contains : S → Text → Text → Bool
  pub register : Text → List Text → Steps S E Unit
  pub append : Option (AuditEntry → Steps S E Unit)

pub record ReconciliationReport : Type 0 where
  pub credentials_walked : ℕ
  pub repairs_applied : ℕ
  pub errors : ℕ

abbrev pub empty_report : ReconciliationReport
empty_report = record { credentials_walked = 0; repairs_applied = 0; errors = 0 }

report_payload : ReconciliationReport → Payload
report_payload r =
    (codes "credentials_walked", number (pos r.credentials_walked))
    ∷ (codes "repairs_applied", number (pos r.repairs_applied))
    ∷ (codes "errors", number (pos r.errors))
    ∷ []

count_error : ReconciliationReport → ReconciliationReport
count_error r = record r { errors = suc r.errors }

module _ {S E : Type 0} (services : ReconcileServices S E) where
  -- The counter that a call of Register moves.
  counted : ReconciliationReport → S × Result E Unit → S × ReconciliationReport
  unfolding count_error
  counted r (s, ok _) = (s, record r { repairs_applied = suc r.repairs_applied })
  counted r (s, err _) = (s, count_error r)

  -- The inner loop, over the elements of a chain.
  unfoldable pub repair_elements :
      Text → List ChainElement → S × ReconciliationReport → S × ReconciliationReport
  unfolding counted
  repair_elements cid [] state = state
  repair_elements cid (e ∷ es) (s, r) = repair_elements cid es (
      if services.contains s cid e.cid
      then (s, r)
      else counted r (services.register cid (e.cid ∷ []) s))

  -- One round of the outer loop, with the chain of the credential.
  repair_chain : Text → S → ReconciliationReport → Result ChainErr Chain → S × ReconciliationReport
  unfolding repair_elements count_error
  repair_chain cid s r (err _) = (s, count_error r)
  repair_chain cid s r (ok chain) = repair_elements cid chain.elements (s, r)

  module _ (codecs : Codecs) where
    unfoldable pub walk_credentials :
        List Text → S × ReconciliationReport → S × ReconciliationReport
    unfolding repair_chain
    walk_credentials [] state = state
    walk_credentials (cid ∷ cids) (s, r) = walk_credentials cids (
        repair_chain cid s (record r { credentials_walked = suc r.credentials_walked })
          (build_chain codecs (services.get s) cid (pos hard_max_depth)))

    -- The walk as a step that does not fail.
    walked : List Text → Steps S E ReconciliationReport
    unfolding walk_credentials
    walked cids s = let (s', r) = walk_credentials cids (s, empty_report) in (s', ok r)

    unfoldable pub noted : ReconciliationReport → Steps S E Unit
    unfolding pure audit_entry report_payload
    noted r = elim services.append [
      | none ↦ pure tt
      | some append ↦ append (audit_entry reconciliation_completed [] (report_payload r))
    ]

    -- Reconcile
    unfoldable pub reconcile : Steps S E ReconciliationReport
    unfolding ◌>>=◌ pure reading walked noted
    reconcile = do
      cids ← reading services.list_credentials
      report ← walked cids
      noted report
      pure report
