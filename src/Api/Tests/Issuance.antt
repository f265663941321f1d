-- ===== src/Api/Tests/Issuance.antt =====
-- The issuance of the root credential, and the handlers that read and reconcile.
use adtp.Prelude.{◌≡◌, refl, true, some, [], ◌∷◌, Text-eq, contains, codes, pos}
use adtp.Revocation.Authority.{cascade}
use adtp.Samples.{tools, zeros, block_cid}
use adtp.Lifecycle.{new_agent, active, transition}
use adtp.Identity.DidKey.{encode_did}
use adtp.Api.Handlers.{handle_register_agent, handle_get_status}
use adtp.Api.Service.{store_key, put_agent}
use adtp.Api.Messages.{agent_created, status_found, reconciled}
use adtp.Api.Revocations.{handle_reconcile}
use adtp.Revocation.Reconciliation.{reconcile}
use adtp.Api.Rooted.{Rooted}
use adtp.Api.Messages.{IssueCredentialRequest, decoded}
use adtp.Api.Service.{Daemon, Draws}
use adtp.Api.Handlers.{handle_issue_credential}
use adtp.Api.Tests.{env, svc, draws, before, runs, later}

-- A daemon with an agent, and the issuance of the root credential to it.
abbrev registered : Daemon
registered = record before {
  store = record before.store {
    agents = (codes "did:alice", new_agent (codes "did:alice") (codes "sponsor") (pos 1)) ∷ [];
    credentials = [];
    cred_order = [];
    registrations = [];
  };
}

abbrev issuance : IssueCredentialRequest
issuance = record { agent_did = codes "did:alice"; capabilities = tools ∷ []; exp_seconds = pos 60 }

abbrev issued : Daemon
issued = (handle_issue_credential env svc draws (decoded issuance) registered).0

abbrev keyed : Draws
keyed = record draws { new_key = some (zeros 64) }

-- The subject of a token is the sponsor, whatever the body says.
register_run :
    (handle_register_agent env svc keyed
      (some (codes "ann"))
      (decoded (record { sponsor_did = codes "bob" }))
      before).1
    ≡ agent_created (encode_did (zeros 32)) (codes "ann") active
unfolding handle_register_agent runs store_key put_agent encode_did new_agent transition contains
register_run = refl

status_run :
    handle_get_status block_cid later
    ≡ status_found (record { cid = block_cid; revoked = true; status = some cascade; seq = pos 1 })
unfolding handle_get_status runs
status_run = refl

-- An index that has lost a link gets it back.
reconcile_run :
    (handle_reconcile env svc draws
      (record before { store = record before.store { registrations = [] } })).1
    ≡ reconciled (record { credentials_walked = 1; repairs_applied = 1; errors = 0 })
unfolding handle_reconcile reconcile runs
reconcile_run = refl
