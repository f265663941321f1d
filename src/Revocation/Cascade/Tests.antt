-- ===== src/Revocation/Cascade/Tests.antt =====
-- A cascade and a reconciliation on a root, one block under it and an empty index.
use adtp.Prelude.{
  false-ne-true, ℕ, ℤ, ◌≡◌, ◌≢◌, sym, refl, true, inl, inr, List, [], ◌∷◌, Text, Text-eq, text_eq,
  text_eq_iff, codes, Result, ok, err, pos, lookup, insert, some,
}
use adtp.Credential.Restrict.{parse_restrict_block}
use adtp.Credential.Ucan.{parse_ucan}
use adtp.Delegation.{build_chain}
use adtp.Revocation.Entry.{RevocationEntry}
use adtp.Revocation.Authority.{cascade, revoked}
use adtp.Revocation.Cache.{get_status, empty_cache}
use adtp.Revocation.Registration.{contains_link}
use adtp.Revocation.Cascade.{CascadeErr, CascadeReport, execute_cascade}
use adtp.Revocation.Cascade.Memory.{MemoryServices, memory_services}
use adtp.Revocation.Reconciliation.{ReconciliationReport, reconcile}
use adtp.Revocation.Reconciliation.Links.{InBuilt}
use adtp.Revocation.Reconciliation.Idempotent.{
  Reconciled, reconcile-Reconciled, reconcile_idempotent,
}
use adtp.Revocation.Reconciliation.Memory.{
  memory_credentials, memory_credentials-KeepsLinks, reconciled-cascade,
}
use adtp.Audit.{AuditErr, new_log}
use adtp.Revocation.Tests.{codec, entry}
use adtp.Samples.{zeros, crypto, codecs, store, audit_codec, root_cid, block_cid, leaf_chain}

abbrev start : MemoryServices
start = record { revocations = empty_cache; registrations = []; batches = []; audit = new_log }

abbrev pub ticks : ℕ → ℤ
ticks n = pos n

abbrev credentials : Result AuditErr (List Text)
credentials = ok (root_cid ∷ block_cid ∷ codes "gone" ∷ [])

abbrev pub repaired : MemoryServices
repaired = record {
  revocations = empty_cache;
  registrations = (root_cid, block_cid ∷ root_cid ∷ []) ∷ (block_cid, block_cid ∷ []) ∷ [];
  batches = [];
  audit = (reconcile (memory_credentials audit_codec ticks credentials store) codecs start).0.audit;
}

abbrev first_report : ReconciliationReport
first_report = record { credentials_walked = 3; repairs_applied = 3; errors = 1 }

repair_run :
    reconcile (memory_credentials audit_codec ticks credentials store) codecs start
    ≡ (repaired, ok first_report)
unfolding reconcile memory_credentials text_eq insert lookup build_chain parse_restrict_block
    parse_ucan
repair_run = refl

abbrev pub cascaded : MemoryServices × Result CascadeErr CascadeReport
cascaded =
    execute_cascade (memory_services crypto codec audit_codec ticks) crypto codec ticks root_cid
      (zeros 64) repaired

abbrev pub report_of : Result CascadeErr CascadeReport → CascadeReport
report_of (ok r) = r
report_of (err e) = record {
  compromised_cid = [];
  primary_entry = entry (pos 0) revoked;
  cascade_entries = [];
  descendant_count = 0;
}

pub cascade_run : cascaded ≡ (cascaded.0, ok (report_of cascaded.1))
unfolding execute_cascade memory_services text_eq insert lookup
cascade_run = refl

pub descends : contains_link repaired.registrations block_cid root_cid ≡ true
unfolding contains_link text_eq lookup
descends = refl

root_not_block : root_cid ≢ block_cid
unfolding text_eq
root_not_block h = false-ne-true ((text_eq_iff root_cid block_cid).1 h)

block_above_block : InBuilt codecs store block_cid root_cid
unfolding build_chain parse_restrict_block parse_ucan text_eq
block_above_block = (leaf_chain, refl, inr (inl refl))

reconciled-cascade_example :
    (e : RevocationEntry) × (get_status cascaded.0.revocations block_cid ≡ some e)
    × (e.status ≡ cascade)
reconciled-cascade_example =
    reconciled-cascade audit_codec ticks credentials store crypto codec ticks codecs root_cid
      (zeros 64) start repaired cascaded.0 first_report (report_of cascaded.1)
      (root_cid ∷ block_cid ∷ codes "gone" ∷ []) block_cid refl repair_run cascade_run
      (inr (inl refl)) block_above_block (λ h. root_not_block (sym h))

abbrev again : MemoryServices × Result AuditErr ReconciliationReport
again = reconcile (memory_credentials audit_codec ticks credentials store) codecs repaired

abbrev second_report : ReconciliationReport
second_report = record { credentials_walked = 3; repairs_applied = 0; errors = 1 }

again_run : again ≡ (again.0, ok second_report)
unfolding reconcile memory_credentials text_eq insert lookup build_chain parse_restrict_block
    parse_ucan
again_run = refl

reconcile_idempotent_example :
    (second_report ≡ record first_report { repairs_applied = 0 })
    × ((a b : Text)
        → contains_link again.0.registrations a b ≡ contains_link repaired.registrations a b)
unfolding memory_credentials
reconcile_idempotent_example =
    reconcile_idempotent (memory_credentials audit_codec ticks credentials store)
      (memory_credentials-KeepsLinks audit_codec ticks credentials store) codecs start repaired
      again.0 first_report second_report repair_run again_run

reconcile-Reconciled_example :
    (cids : List Text) × Reconciled
      (memory_credentials audit_codec ticks credentials store)
      (memory_credentials-KeepsLinks audit_codec ticks credentials store)
      codecs
      start
      repaired
      first_report
      cids
reconcile-Reconciled_example =
    reconcile-Reconciled (memory_credentials audit_codec ticks credentials store)
      (memory_credentials-KeepsLinks audit_codec ticks credentials store) codecs start repaired
      first_report repair_run
