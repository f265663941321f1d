-- ===== src/Lifecycle/Machine.antt =====
-- The states: which transitions succeed, and what a terminal state rules out.
use adtp.Prelude.{
  ◌≡◌, ◌≢◌, true, none, some, List, [], ◌∷◌, arith, Text, ℤ, ◌==◌, eq_iff, if◌then◌else◌,
}
use adtp.Lifecycle.{
  AgentState, active, decommissioned, Agent, invalid_transition, terminal_state, terminal,
  can_transition, transition, moved, AgentState-eq,
}

-- `Transition` succeeds exactly when `CanTransition` holds. A refused one returns the agent
-- unchanged, with ErrTerminalState exactly from DECOMMISSIONED and ErrInvalidTransition otherwise.
pub transition_outcome :
    (a : Agent) (to : AgentState) (by reason : Text) (now : ℤ)
    → transition a to by reason now ≡ (
        if can_transition a.state to
        then (moved a to by reason now, none)
        else (a, some (if a.state == decommissioned then terminal_state else invalid_transition)))
unfolding transition can_transition
transition_outcome a to by reason now = ground arith

transition_state :
    (a : Agent) (to : AgentState) (by reason : Text) (now : ℤ)
    → (transition a to by reason now).0.state ≡ (if can_transition a.state to then to else a.state)
unfolding moved
transition_state a to by reason now = ground (arith, transition_outcome a to by reason now)

can_transition-terminal :
    (s t : AgentState) → terminal s ≡ true → can_transition s t ≡ true → t ≡ decommissioned
unfolding terminal can_transition
can_transition-terminal s t h k = ground (arith, eq_iff decommissioned t)

-- One request to move an agent, with its arguments and the time at which it is made.
pub record Request : Type 0 where
  pub target : AgentState
  pub by : Text
  pub reason : Text
  pub now : ℤ

-- A sequence of requests, whatever each of them returns.
unfoldable pub run : Agent → List Request → Agent
run a [] = a
run a (r ∷ rs) = run (transition a r.target r.by r.reason r.now).0 rs

transition-terminal :
    (a : Agent) (to : AgentState) (by reason : Text) (now : ℤ)
    → terminal a.state ≡ true
    → terminal (transition a to by reason now).0.state ≡ true
unfolding terminal
transition-terminal a to by reason now h =
    ground (arith, transition_state a to by reason now, can_transition-terminal a.state to)

run-terminal :
    (a : Agent) (rs : List Request) → terminal a.state ≡ true → terminal (run a rs).state ≡ true
unfolding run
run-terminal a [] h = h
run-terminal a (r ∷ rs) h =
    run-terminal (transition a r.target r.by r.reason r.now).0 rs
      (transition-terminal a r.target r.by r.reason r.now h)

-- A compromised or decommissioned agent never becomes ACTIVE again, whatever is requested.
run-ne-active :
    (a : Agent) (rs : List Request) → terminal a.state ≡ true → (run a rs).state ≢ active
unfolding terminal
run-ne-active a rs h e = ground (arith, run-terminal a rs h)
