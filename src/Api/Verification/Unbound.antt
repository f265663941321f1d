-- ===== src/Api/Verification/Unbound.antt =====
-- The action, the resource and the chain of a request that brings an invocation.
use adtp.Prelude.{◌≡◌, ◌≢◌, refl, sym, ap, ◌∙◌, false, [], ◌∷◌, Text}
use adtp.Credential.Capability.{is_empty, is_empty-false}
use adtp.Prelude.Steps.{lift, ◌>>=◌}
use adtp.Api.Messages.{read_json, VerifyRequest, decoded}
use adtp.Api.Service.{Env, Service, Daemon, Draws}
use adtp.Api.Verification.{the_leaf, has_wildcard_segment, invocation_for, admitted, handle_verify}

-- What the handler asks of the request itself.
pub record IsWellFormed (req : VerifyRequest) : Type 0 where
  pub leaf : Text
  pub one : req.chain_cids ≡ leaf ∷ []
  pub action : req.action ≢ []
  pub resource : req.resource ≢ []
  pub concrete : has_wildcard_segment req.resource ≡ false

module _ (env : Env) (svc : Service) (draws : Draws) where
  admitted-supplied :
      (req : VerifyRequest) (d : Daemon)
      → IsWellFormed req
      → is_empty req.invocation ≡ false
      → admitted env svc draws req d ≡ env.unmarshal_invocation req.invocation
  unfolding admitted the_leaf invocation_for
  admitted-supplied req d w given = rw w.one (
      rw (is_empty-false req.action w.action)
        (rw (is_empty-false req.resource w.resource) (rw w.concrete (rw given refl))))

  -- Of two well-formed requests that bring the same invocation the handler does the same, whatever chain,
  -- action and resource they name.
  pub handle_verify-unbound :
      (req req' : VerifyRequest) (d : Daemon)
      → IsWellFormed req
      → IsWellFormed req'
      → req.invocation ≢ []
      → req'.invocation ≡ req.invocation
      → handle_verify env svc draws (decoded req) d ≡ handle_verify env svc draws (decoded req') d
  unfolding handle_verify read_json lift ◌>>=◌
  handle_verify-unbound req req' d w w' n same =
      let given = is_empty-false req.invocation n in
      let p = admitted-supplied req d w given in
      let p' = admitted-supplied req' d w' (ap is_empty same ∙ given) in
      let eq : admitted env svc draws req d ≡ admitted env svc draws req' d =
        p ∙ ap env.unmarshal_invocation (sym same) ∙ sym p' in
      rw eq refl
