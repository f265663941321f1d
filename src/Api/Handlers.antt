-- ===== src/Api/Handlers.antt =====
-- api/v1/handlers.go: registration, issuance, delegation, and the handlers that only read.
use adtp.Prelude.{
  ℤ, pos, Bool, true, false, ◌||◌, Option, none, some, List, [], ◌∷◌, map, Text, codes, ◌==◌, ℕ-eq,
  if◌then◌else◌, Result, ok, err, map_err, ok_or, fail_if, leb_ℤ, add64,
}
use adtp.Prelude.Steps.{◌>>=◌, ◌>>◌, pure, lift, reading}
use adtp.Credential.Capability.{is_empty}
use adtp.Credential.Restrict.{DelegationParent, parse_restrict_block, create_restrict_block}
use adtp.Credential.Ucan.{UcanPayload, parse_ucan, create_ucan}
use adtp.Identity.DidKey.{encode_did}
use adtp.Identity.KeyStore
use adtp.Delegation.{Codecs, Chain, build_chain, parent_from_block, parent_from_ucan}
use adtp.Lifecycle.{Agent, TransitionErr, active, new_agent, transition}
use adtp.Revocation.Entry.{create_revocation_list}
use adtp.Store.Memory
use adtp.Api.Messages.{
  RegisterAgentRequest, IssueCredentialRequest, DelegateRequest, Response, Body, failure,
  agent_created, credential_issued, delegation_issued, revocations_listed, status_found,
  agent_found, healthy, bad_request, server_error, code_denied, read_json,
}
use adtp.Api.Service.{
  Env, Service, Daemon, Draws, Handled, written, proofs, or_respond, store_key, put_agent, register,
  event, agent_registered, put_credential, note,
}
use adtp.Api.Service

-- `if test { writeErr(…); return }`
unfoldable pub refuse_if : Bool → Response → Handled Unit
refuse_if test r = lift (fail_if test r)

-- The authenticated subject, if there is one, or the sponsor of the request.
sponsor_of : Option Text → Text → Text
unfolding is_empty
sponsor_of none asked = asked
sponsor_of (some subject) asked = if is_empty subject then asked else subject

transitioned : Agent × Option TransitionErr → Result Response Agent
transitioned (agent, none) = ok agent
transitioned (agent, some e) = err server_error

-- isBlock
unfoldable pub is_block : Text → Bool
is_block [] = false
is_block (b ∷ raw) =
    let rest = is_block raw in
    if (b == b' ') || (b == 9) || (b == 10) || (b == 13) then rest else b == b'{'

module _ (c : Codecs) where
  token_parent : Text → Text → Option (DelegationParent × Text)
  unfolding parse_ucan parent_from_ucan
  token_parent raw cid = elim (parse_ucan c.crypto c.tokens raw) [
    | err _ ↦ none
    | ok u ↦ elim (parent_from_ucan u cid) [
      | err _ ↦ none
      | ok parent ↦ some (parent, u.payload.aud)
    ]
  ]

  -- parentRef: all its errors are answered alike.
  unfoldable pub parent_ref : Text → Text → Option (DelegationParent × Text)
  unfolding is_block parse_restrict_block parent_from_block token_parent
  parent_ref raw cid = elim (is_block raw) [
    | true ↦ elim (parse_restrict_block c.blocks raw) [
      | err _ ↦ none
      | ok b ↦ some (parent_from_block b cid, b.aud)
    ]
    | false ↦ token_parent raw cid
  ]

  -- audienceOf
  unfoldable pub audience_of : Text → Option Text
  unfolding is_block parse_restrict_block parse_ucan
  audience_of raw = elim (is_block raw) [
    | true ↦ elim (parse_restrict_block c.blocks raw) [ err _ ↦ none | ok b ↦ some b.aud ]
    | false ↦ elim (parse_ucan c.crypto c.tokens raw) [ err _ ↦ none | ok u ↦ some u.payload.aud ]
  ]

unfoldable pub chain_cids : Chain → List Text
chain_cids chain = map (λ e. e.cid) chain.elements

module _ (env : Env) (svc : Service) (draws : Draws) where
  -- handleRegisterAgent. `principal` is the subject that the request's context carries.
  unfoldable pub handle_register_agent :
      Option Text → Body RegisterAgentRequest → Daemon → Daemon × Response
  unfolding read_json sponsor_of is_empty encode_did new_agent transition transitioned event
  handle_register_agent principal body d = written (
      (do
        req ← lift (read_json body)
        let sponsor = sponsor_of principal req.sponsor_did
        refuse_if (is_empty sponsor) bad_request
        key ← lift (ok_or server_error draws.new_key)
        let did = encode_did (env.world.codecs.crypto.public key)
        or_respond server_error (store_key did key)
        agent ← lift (
            transitioned (
              transition (new_agent did sponsor (draws.reading 0)) active svc.platform_did
                (codes "agent registered") (draws.reading 1)))
        or_respond server_error (put_agent agent)
        note env draws.logged (event agent_registered did [] [])
        pure (agent_created did sponsor agent.state))
        d)

  -- The payload of a root credential that is issued at the given time.
  unfoldable pub root_payload : IssueCredentialRequest → ℤ → UcanPayload
  root_payload req now = record {
    iss = svc.platform_did;
    aud = req.agent_did;
    att = req.capabilities;
    prf = [];
    exp = add64 now req.exp_seconds;
    nbf = now;
    iat = now;
  }

  -- handleIssueCredential, of a request that was decoded.
  unfoldable pub issuing : IssueCredentialRequest → Handled Response
  unfolding is_empty Memory.get_agent root_payload event
  issuing req = do
    lift (ok_or bad_request (env.world.parse_did req.agent_did))
    refuse_if (is_empty req.capabilities || leb_ℤ req.exp_seconds (pos 0)) bad_request
    reading (λ s. map_err (λ _. failure 404 []) (Memory.get_agent s.store req.agent_did))
    token ← lift (
        map_err (λ _. bad_request)
          (create_ucan env.world.codecs.crypto env.world.codecs.tokens
            (root_payload req (draws.reading 0)) svc.platform_key))
    cid ← put_credential env token
    register cid (cid ∷ [])
    note env draws.logged (event Service.delegation_issued req.agent_did cid [])
    pure (credential_issued cid token)

  unfoldable pub handle_issue_credential : Body IssueCredentialRequest → Daemon → Daemon × Response
  unfolding read_json
  handle_issue_credential body d = written ((do req ← lift (read_json body); issuing req) d)

  -- storeAndRegister
  unfoldable pub store_and_register : Text → Handled Text
  unfolding proofs chain_cids event
  store_and_register raw = do
    cid ← put_credential env raw
    chain ← reading (λ s.
        map_err (λ _. bad_request)
          (build_chain env.world.codecs (proofs s) cid svc.config.verify.max_chain_depth))
    register cid (chain_cids chain)
    note env draws.logged (event Service.delegation_issued [] cid [])
    pure cid

  -- delegateRestrict, up to the bytes of the new block.
  unfoldable pub new_block : DelegateRequest → Text → Handled Text
  unfolding parent_ref KeyStore.load
  new_block req parent_raw = do
    parent ←
        lift
          (ok_or (failure 400 code_denied) (parent_ref env.world.codecs parent_raw req.parent_cid))
    key ← reading (λ s. map_err (λ _. failure 403 code_denied) (KeyStore.load s.keys parent.1))
    made ← lift (
        map_err (λ _. bad_request)
          (create_restrict_block env.world.codecs.crypto env.world.codecs.blocks parent.0
            req.audience_did req.depth_left req.caveats key))
    pure made.1

  -- handleDelegate, of a request that was decoded.
  unfoldable pub delegating : DelegateRequest → Handled Response
  unfolding is_empty proofs
  delegating req = do
    refuse_if (is_empty req.parent_cid || is_empty req.audience_did) bad_request
    parent_raw ← reading (λ s. ok_or (failure 404 []) (proofs s req.parent_cid))
    raw ← new_block req parent_raw
    cid ← store_and_register raw
    pure (delegation_issued cid (env.world.codecs.crypto.b64_encode raw))

  unfoldable pub handle_delegate : Body DelegateRequest → Daemon → Daemon × Response
  unfolding read_json
  handle_delegate body d = written ((do req ← lift (read_json body); delegating req) d)

  -- handleGetRevocationList. The number is spent also when signing fails.
  unfoldable pub handle_get_revocation_list : Daemon → Daemon × Response
  unfolding Memory.revocation_entries create_revocation_list
  handle_get_revocation_list d =
      let seq = add64 d.list_seq (pos 1) in
      written (
        (do
          list ← lift (
              map_err (λ _. server_error)
                (create_revocation_list env.world.codecs.crypto env.entries
                  (Memory.revocation_entries d.store) svc.platform_did [] seq svc.platform_key
                  (draws.reading 0)))
          pure (revocations_listed list))
          (record d { list_seq = seq }))

-- handleGetStatus
unfoldable pub handle_get_status : Text → Daemon → Response
unfolding Memory.get_status
handle_get_status cid d = elim (Memory.get_status d.store cid) [
  | none ↦ status_found (record { cid = cid; revoked = false; status = none; seq = pos 0 })
  | some e ↦
      status_found (record { cid = cid; revoked = true; status = some e.status; seq = e.seq })
]

-- handleGetAgent
unfoldable pub handle_get_agent : Text → Daemon → Response
unfolding Memory.get_agent
handle_get_agent did d = elim (Memory.get_agent d.store did) [
  | err _ ↦ failure 404 []
  | ok agent ↦ agent_found (record {
    did = agent.did;
    sponsor_did = agent.sponsor_did;
    state = agent.state;
    registered_at = agent.registered_at;
    activated_at = agent.activated_at;
  })
]

-- handleHealth
unfoldable pub handle_health : Service → Response
handle_health svc = healthy svc.platform_did
