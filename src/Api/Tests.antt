-- ===== src/Api/Tests.antt =====
-- Runs of the API: a delegation, its verification, and the compromise of its root; and the theorems there.
mod Issuance
mod Elsewhere
use adtp.Prelude.{
  ◌≡◌, ◌≢◌, refl, true, false, none, some, [], ◌∷◌, Text-eq, text_eq, text_eq_iff, false-ne-true,
  contains, lookup, insert, codes, pos, inl, inr, ◌⊎◌, Occurs, ok,
}
use adtp.Prelude.Steps.{◌>>=◌, pure, lift, reading}
use adtp.Credential.Restrict.{parse_restrict_block, create_restrict_block}
use adtp.Credential.Ucan.{parse_ucan, create_ucan}
use adtp.Credential.Uri.{canonicalize_uri}
use adtp.Delegation.{build_chain}
use adtp.Config.{default_config}
use adtp.Revocation.Authority.{compromised, cascade, subtree}
use adtp.Revocation.Cascade.{execute_cascade}
use adtp.Revocation.Tests.{codec}
use adtp.Verify.Errors.{high}
use adtp.Verify.Run.{verify}
use adtp.Samples.{
  tools, zeros, root_raw, root_cid, block_cid, block_raw, leaf_chain, caveat, world, invocation,
  clock,
}
use adtp.Credential.Capability.Ability
use adtp.Revocation.Entry.{RevocationEntry}
use adtp.Revocation.Cache.{get_status}
use adtp.Revocation.Cascade.Revoked.{Revoked}
use adtp.Api.Verification.Authorized.{IsAuthorized, handle_verify-IsAuthorized}
use adtp.Api.Verification.Unbound.{IsWellFormed, handle_verify-unbound}
use adtp.Api.Revocations.Compromised.{handle_revoke-Revoked}
use adtp.Lifecycle.{new_agent}
use adtp.Api.Rooted.{Rooted}
use adtp.Revocation.Registration.Links.{Linked}
use adtp.Verify.Unrevoked.Denied.{IsSubject}
use adtp.Api.Cascaded.{handle_verify-handle_revoke, handle_revoke-delegated}
use adtp.Api.Messages.{
  code_revoked, IssueCredentialRequest, credential_issued, VerifyResponse, DelegateRequest,
  VerifyRequest, RevokeRequest, decoded, delegation_issued, verified, revocation_posted,
}
use adtp.Api.Service.{
  Env, Service, Daemon, proofs, Draws, written, or_respond, put_credential, register, note, revoke,
}
use adtp.Api.Handlers.{
  refuse_if, store_and_register, new_block, chain_cids, delegating, handle_delegate, issuing,
  handle_issue_credential,
}
use adtp.Api.Verification.{run_verify, respond, has_wildcard_segment, handle_verify}
use adtp.Api.Revocations.{post_cascade, post, revoking, handle_revoke}

abbrev pub env : Env
env = record {
  world = world;
  entries = codec;
  unmarshal_invocation = λ _. some (record invocation { aud = codes "did:root" });
}

abbrev pub svc : Service
svc = record {
  platform_key = zeros 64;
  platform_did = codes "did:root";
  config = default_config;
  start_time = pos 0;
}

abbrev pub draws : Draws
draws = record {
  reading = λ _. pos 1000;
  logged = λ _. pos 1000;
  verifying = clock;
  new_key = none;
  nonce = none;
}

-- A daemon that holds the root credential and the key of its audience.
abbrev pub before : Daemon
before = record {
  store = record {
    agents = [];
    credentials = (root_cid, root_raw) ∷ [];
    cred_order = root_cid ∷ [];
    registrations = (root_cid, root_cid ∷ []) ∷ [];
    revocations = record { entries = []; list_seq = pos 0 };
    audit_log = record { entries = []; last_hash = []; seq = pos 0 };
  };
  keys = (codes "did:alice", zeros 64) ∷ [];
  nonces = [];
  list_seq = pos 0;
}

abbrev pub asked : DelegateRequest
asked = record {
  parent_cid = root_cid;
  audience_did = codes "did:bob";
  caveats = caveat ∷ [];
  depth_left = pos 0;
}

abbrev pub after : Daemon
after = (handle_delegate env svc draws (decoded asked) before).0

unfoldable pub runs : Unit {0}
unfolding handle_delegate delegating canonicalize_uri handle_verify run_verify verify respond
    handle_revoke revoking post post_cascade execute_cascade revoke store_and_register new_block
    refuse_if put_credential register note written or_respond ◌>>=◌ pure lift reading
    create_restrict_block parse_restrict_block parse_ucan build_chain text_eq contains lookup insert
runs = tt

delegate_run :
    handle_delegate env svc draws (decoded asked) before
    ≡ (after, delegation_issued block_cid block_raw)
unfolding runs
delegate_run = refl

abbrev pub question : VerifyRequest
question = record {
  chain_cids = block_cid ∷ [];
  invocation = codes "{}";
  action = Ability.tool_invoke;
  resource = codes "tool://x/a";
  parameters = [];
}

abbrev pub yes_response : VerifyResponse
yes_response = record { authorized = true; chain_depth = 2; risk_tier = high; error_code = [] }

verify_run : (handle_verify env svc draws (decoded question) after).1 ≡ verified yes_response
unfolding runs
verify_run = refl

abbrev pub report : RevokeRequest
report = record { subject_cid = root_cid; subject_did = []; scope = subtree; status = compromised }

abbrev pub later : Daemon
later = (handle_revoke env svc draws (decoded report) after).0

pub revoke_run :
    handle_revoke env svc draws (decoded report) after
    ≡ (later, revocation_posted (pos 1) compromised 1)
unfolding runs
revoke_run = refl

abbrev no_response : VerifyResponse
no_response = record {
  authorized = false;
  chain_depth = 2;
  risk_tier = high;
  error_code = code_revoked;
}

-- The delegated credential is refused after the compromise of its root.
verify_after_run : (handle_verify env svc draws (decoded question) later).1 ≡ verified no_response
unfolding runs
verify_after_run = refl

handle_verify-IsAuthorized_example : IsAuthorized env svc draws question after
handle_verify-IsAuthorized_example =
    handle_verify-IsAuthorized env svc draws question after yes_response verify_run refl

abbrev other_question : VerifyRequest
other_question = record question {
  chain_cids = codes "another" ∷ [];
  action = Ability.api_call;
  resource = codes "api://bank/transfer";
}

question-IsWellFormed : IsWellFormed question
unfolding has_wildcard_segment text_eq
question-IsWellFormed = record {
  leaf = block_cid;
  one = refl;
  action = cc;
  resource = cc;
  concrete = refl;
}

other_question-IsWellFormed : IsWellFormed other_question
unfolding has_wildcard_segment text_eq
other_question-IsWellFormed = record {
  leaf = codes "another";
  one = refl;
  action = cc;
  resource = cc;
  concrete = refl;
}

-- The question about another credential, action and resource is answered with yes as well.
handle_verify-unbound_example :
    handle_verify env svc draws (decoded question) after
    ≡ handle_verify env svc draws (decoded other_question) after
handle_verify-unbound_example =
    handle_verify-unbound env svc draws question other_question after question-IsWellFormed
      other_question-IsWellFormed (cc) refl

handle_revoke-Revoked_example :
    Revoked root_cid after.store.registrations after.store.revocations later.store.revocations
handle_revoke-Revoked_example =
    handle_revoke-Revoked env svc draws report after later (pos 1) compromised 1 revoke_run refl
      (cc)

build_run :
    build_chain env.world.codecs (proofs after) block_cid svc.config.verify.max_chain_depth
    ≡ ok leaf_chain
unfolding runs
build_run = refl

block_not_root : block_cid ≢ root_cid
unfolding text_eq
block_not_root h = false-ne-true ((text_eq_iff block_cid root_cid).1 h)

ancestor : Occurs root_cid (chain_cids leaf_chain)
unfolding chain_cids
ancestor = inr (inl refl)

handle_revoke-delegated_example :
    (e : RevocationEntry) × (get_status later.store.revocations block_cid ≡ some e)
    × (e.status ≡ cascade)
handle_revoke-delegated_example =
    handle_revoke-delegated env svc draws draws asked report before after later block_cid block_raw
      leaf_chain (pos 1) compromised 1 delegate_run build_run ancestor block_not_root revoke_run
      refl (cc)
