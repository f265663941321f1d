-- ===== src/Api/Tests/Elsewhere.antt =====
-- A verification after the compromise of another credential, and after a reinstatement.
use adtp.Prelude.{◌≡◌, refl, Text, Text-eq, codes, pos, ◌⊎◌, inl, List, [], ◌∷◌}
use adtp.Revocation.Authority.{compromised}
use adtp.Api.Verification.Authorized.{IsAuthorized}
use adtp.Revocation.Authority.{reinstated}
use adtp.Revocation.Entry.{RevocationEntry}
use adtp.Revocation.Cache
use adtp.Revocation.Cache.Sequence.{Update, posted, apply_all}
use adtp.Revocation.Tests.{codec, entry}
use adtp.Samples.{crypto, root_cid, block_cid}
use adtp.Verify.Unrevoked.Cascaded.{Relieved}
use adtp.Verify.Unrevoked.Denied.{IsSubject}
use adtp.Api.Cascaded.{handle_verify-handle_revoke}
use adtp.Api.Messages.{RevokeRequest, decoded, verified, revocation_posted}
use adtp.Api.Service.{Daemon}
use adtp.Api.Verification.{handle_verify}
use adtp.Api.Revocations.{handle_revoke}
use adtp.Api.Tests.{env, svc, draws, after, runs, question, yes_response, report, later, revoke_run}

-- Another credential is compromised, and the delegated one is still accepted.
abbrev other_report : RevokeRequest
other_report = record report { subject_cid = codes "bafother" }

abbrev elsewhere : Daemon
elsewhere = (handle_revoke env svc draws (decoded other_report) after).0

other_revoke_run :
    handle_revoke env svc draws (decoded other_report) after
    ≡ (elsewhere, revocation_posted (pos 1) compromised 0)
unfolding runs
other_revoke_run = refl

still_run : (handle_verify env svc draws (decoded question) elsewhere).1 ≡ verified yes_response
unfolding runs
still_run = refl

-- Both credentials of the chain are reinstated after the compromise, and the delegated one is accepted again.
abbrev reinstating : Text → RevocationEntry
reinstating cid = record (entry (pos 2) reinstated) { subject = record { cid = cid; did = [] } }

abbrev updates : List (Update crypto codec)
updates = posted (reinstating root_cid) ∷ posted (reinstating block_cid) ∷ []

abbrev restored : Daemon
restored = record later {
  store = record later.store {
    revocations = apply_all crypto codec later.store.revocations updates;
  };
}

restored_run : (handle_verify env svc draws (decoded question) restored).1 ≡ verified yes_response
unfolding runs apply_all Cache.revoke
restored_run = refl

handle_verify-handle_revoke_example :
    (a : IsAuthorized env svc draws question restored) × ((¬ IsSubject root_cid a.chain.elements)
      ⊎ Relieved root_cid later.store.revocations restored.store.revocations)
handle_verify-handle_revoke_example =
    handle_verify-handle_revoke env svc draws draws report after later restored (pos 1) compromised
      1 updates question yes_response root_cid (λ xs x. (λ o. o, λ o. o)) revoke_run refl (cc)
      (inl refl) refl restored_run refl
