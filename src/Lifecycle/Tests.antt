-- ===== src/Lifecycle/Tests.antt =====
-- Runs of the lifecycle machine, and the theorems at concrete inputs.
use adtp.Prelude.{◌≡◌, refl, [], ◌∷◌, true, codes, pos, contains}
use adtp.Lifecycle.{
  Agent, active, suspended, compromised, AgentState, new_agent, transition, terminal,
}
use adtp.Lifecycle.Machine.{Request, run}
use adtp.Lifecycle.History.{IsRecorded, history_lem}

abbrev fresh : Agent
fresh = new_agent (codes "did:key:a") (codes "did:key:s") (pos 5)

abbrev ask : AgentState → Request
ask s = record { target = s; by = codes "op"; reason = codes "r"; now = pos 9 }

abbrev burned : Agent
burned = run fresh (ask active ∷ ask compromised ∷ [])

burned_is_terminal : terminal burned.state ≡ true
unfolding run new_agent transition terminal contains
burned_is_terminal = refl

history_example : IsRecorded (run fresh (ask active ∷ ask suspended ∷ ask active ∷ []))
history_example =
    history_lem (codes "did:key:a") (codes "did:key:s") (pos 5)
      (ask active ∷ ask suspended ∷ ask active ∷ []) (λ e. cc, (λ e. cc, (λ e. cc, tt)))
