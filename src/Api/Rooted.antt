-- ===== src/Api/Rooted.antt =====
-- What an issuance that POST /v1/credentials answers with success leaves in the daemon.
use adtp.Prelude.{◌≡◌, ◌≢◌, pos, ◌<ℤ◌, some, [], Text, ok}
use adtp.Prelude.Steps.{reading}
use adtp.Credential.Ucan.{create_ucan}
use adtp.Lifecycle.{Agent}
use adtp.Revocation.Registration.Links.{Linked}
use adtp.Store.Memory
use adtp.Api.Messages.{IssueCredentialRequest}
use adtp.Api.Service.{Env, Service, Daemon, Draws, proofs}
use adtp.Api.Handlers.{root_payload}
use adtp.Api.Kept.{index_of}

module _ (env : Env) (svc : Service) (draws : Draws) where
  -- A root credential for a registered agent, stored and registered.
  pub record Rooted (req : IssueCredentialRequest) (cid token : Text) (d d' : Daemon) : Type 0 where
    pub agent : Agent
    pub known : Memory.get_agent d.store req.agent_did ≡ ok agent
    pub made :
        create_ucan env.world.codecs.crypto env.world.codecs.tokens
          (root_payload env svc draws req (draws.reading 0))
          svc.platform_key
        ≡ ok token
    pub granting : req.capabilities ≢ []
    pub lasting : pos 0 <ℤ req.exp_seconds
    pub stored : proofs d' cid ≡ some token
    pub registered : Linked (index_of d') cid cid
    pub kept : (a b : Text) → Linked (index_of d) a b → Linked (index_of d') a b
