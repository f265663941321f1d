-- ===== src/Api/Revocations.antt =====
-- api/v1/handlers.go: POST /v1/revoke and POST /v1/admin/reconcile. Their services are the daemon's store and
-- audit log; there is no emergency channel.
pub mod Compromised
use adtp.Prelude.{
  ℕ, ℤ, pos, Bool, true, false, not, ◌&&◌, Option, none, some, List, [], ◌∷◌, Text, codes, ◌==◌,
  if◌then◌else◌, Result, ok, err, map_err, add64,
}
use adtp.Prelude.Steps.{Steps, ◌>>=◌, ◌>>◌, pure, lift, reading}
use adtp.Credential.Capability.{is_empty}
use adtp.Audit.{AuditEntry, AuditErr, Payload, text}
use adtp.Audit
use adtp.Revocation.Authority.{
  RevocationStatus, RevocationStatus-eq, platform, compromised, status_eq, validate_authority,
}
use adtp.Revocation.Authority
use adtp.Revocation.Entry.{
  RevocationAuth, RevocationSubject, RevocationEntry, create_revocation_entry,
}
use adtp.Revocation.Cascade.{
  Services, CascadeErr, CascadeReport, revocation_error, audit_error, execute_cascade,
}
use adtp.Revocation.Reconciliation.{ReconcileServices, ReconciliationReport, reconcile}
use adtp.Store.Memory
use adtp.Api.Messages.{
  RevokeRequest, Response, Body, failure, revocation_posted, reconciled, bad_request, server_error,
  code_denied, read_json,
}
use adtp.Api.Service.{
  Env, Service, Daemon, Draws, Handled, written, proofs, or_respond, register, event, append, note,
}
use adtp.Api.Service
use adtp.Api.Handlers.{refuse_if}

-- The text of a status.
status_text : RevocationStatus → Text
status_text Authority.revoked = codes "REVOKED"
status_text Authority.suspended = codes "SUSPENDED"
status_text Authority.reinstated = codes "REINSTATED"
status_text compromised = codes "COMPROMISED"
status_text Authority.decommissioned = codes "DECOMMISSIONED"
status_text Authority.cascade = codes "CASCADE"
status_text (RevocationStatus.other s) = s

subject_of : RevokeRequest → Text
unfolding is_empty
subject_of req = if is_empty req.subject_cid then req.subject_did else req.subject_cid

module _ (env : Env) where
  -- A failed call of the cascade's services, in the cascade's terms.
  or_fail : {E T : Type 0} → (E → CascadeErr) → Steps Daemon E T → Steps Daemon CascadeErr T
  or_fail f call d = let (d', result) = call d in (d', map_err f result)

  module _ (logged : ℕ → ℤ) where
    unfoldable pub cascade_services : Services Daemon
    unfolding Memory.current_seq Memory.find_descendants Service.revoke append or_fail
    cascade_services = record {
      current_seq = λ d subject. ok (Memory.current_seq d.store subject);
      revoke = λ entry. or_fail revocation_error (Service.revoke env entry);
      find_descendants = λ d cid. ok (Memory.find_descendants d.store cid);
      push = none;
      append = some (λ entry. or_fail audit_error (append env logged entry));
    }

    unfoldable pub reconcile_services : ReconcileServices Daemon AuditErr
    unfolding Memory.list_credentials Memory.contains_link Memory.register proofs append
    reconcile_services = record {
      list_credentials = λ d. ok (Memory.list_credentials d.store);
      get = proofs;
      contains = λ d. Memory.contains_link d.store;
      register = λ cid cids d. (record d { store = Memory.register d.store cid cids }, ok tt);
      append = some (append env logged);
    }

module _ (env : Env) (svc : Service) (draws : Draws) where
  -- The cascade of a compromised credential.
  unfoldable pub post_cascade : RevokeRequest → Handled Response
  unfolding cascade_services
  post_cascade req = do
    report ← or_respond server_error (
        execute_cascade (cascade_services env draws.logged) env.world.codecs.crypto env.entries
          draws.reading req.subject_cid svc.platform_key)
    pure (revocation_posted report.primary_entry.seq req.status report.descendant_count)

  -- One entry of the platform about the subject.
  unfoldable pub post_entry : RevokeRequest → Handled Response
  unfolding Memory.current_seq subject_of create_revocation_entry event status_text
  post_entry req = do
    seq ← reading (λ d. ok (Memory.current_seq d.store (subject_of req)))
    entry ← lift (
        map_err (λ _. failure 403 code_denied)
          (create_revocation_entry env.world.codecs.crypto env.entries
            (record { cid = req.subject_cid; did = req.subject_did }) req.scope req.status
            (record { did = svc.platform_did; basis = platform; proof = subject_of req })
            (add64 seq (pos 1)) [] svc.platform_key (draws.reading 0)))
    or_respond (failure 409 []) (Service.revoke env entry)
    note env draws.logged (
        event Audit.revocation_posted [] req.subject_cid
          ((codes "status", text (status_text req.status)) ∷ []))
    pure (revocation_posted (add64 seq (pos 1)) req.status 0)

  -- The rest of the handler, behind the checks.
  unfoldable pub post : RevokeRequest → Handled Response
  unfolding is_empty status_eq
  post req =
      if req.status == compromised && not (is_empty req.subject_cid)
      then post_cascade req
      else post_entry req

  -- handleRevoke, of a request that was decoded.
  unfoldable pub revoking : RevokeRequest → Handled Response
  unfolding is_empty validate_authority
  revoking req = do
    refuse_if (is_empty req.subject_cid && is_empty req.subject_did) bad_request
    lift (map_err (λ _. failure 403 code_denied) (validate_authority platform req.status req.scope))
    post req

  unfoldable pub handle_revoke : Body RevokeRequest → Daemon → Daemon × Response
  unfolding read_json
  handle_revoke body d = written ((do req ← lift (read_json body); revoking req) d)

  -- handleReconcile
  unfoldable pub handle_reconcile : Daemon → Daemon × Response
  unfolding reconcile_services
  handle_reconcile d = written (
      (do
        report ←
            or_respond server_error
              (reconcile (reconcile_services env draws.logged) env.world.codecs)
        pure (reconciled report))
        d)
