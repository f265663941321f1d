-- ===== src/Lifecycle.antt =====
-- internal/lifecycle/lifecycle.go: the agent lifecycle state machine.
-- `Transition` mutates `*Agent`: here it returns the new agent beside its error. The clock is an
-- argument. A state is a Go string, so that one outside the six constants is possible (`unknown`).
pub mod Machine
pub mod History
mod Tests
use adtp.Prelude.{
  ℕ, ◌≡◌, refl, ◌↔◌, Bool, true, false, ◌&&◌, ◌||◌, Option, none, some, List, [], ◌∷◌, ◌++◌, arith,
  Text, Text-eq, ℤ, ℤ-eq, pos, Eq, ◌==◌, eq_iff, contains, if◌then◌else◌,
}

pub data AgentState : Type 0 where
  registered active suspended compromised expired decommissioned : AgentState
  unknown : Text → AgentState

unfoldable pub state_eq : AgentState → AgentState → Bool
state_eq registered registered = true
state_eq active active = true
state_eq suspended suspended = true
state_eq compromised compromised = true
state_eq expired expired = true
state_eq decommissioned decommissioned = true
state_eq (unknown s) (unknown t) = s == t
state_eq _ _ = false

pub state_eq_iff : (s t : AgentState) → (state_eq s t ≡ true) ↔ (s ≡ t)
unfolding state_eq
state_eq_iff (unknown s) (unknown t) = ground (arith, eq_iff s t)
state_eq_iff s t = ground arith

instance abbrev pub AgentState-eq : Eq AgentState
AgentState-eq = record { beq = state_eq; beq_iff = state_eq_iff }

pub data TransitionErr : Type 0 where
  invalid_transition terminal_state : TransitionErr

pub record StateTransition : Type 0 where
  pub from_state : AgentState
  pub to_state : AgentState
  pub at : ℤ
  pub by : Text
  pub reason : Text

pub record Agent : Type 0 where
  pub did : Text
  pub sponsor_did : Text
  pub state : AgentState
  pub registered_at : ℤ
  pub activated_at : ℤ
  pub state_history : List StateTransition

unfoldable pub new_agent : Text → Text → ℤ → Agent
new_agent did sponsor now = record {
  did = did;
  sponsor_did = sponsor;
  state = registered;
  registered_at = now;
  activated_at = pos 0;
  state_history = [];
}

-- The map of maps; `none` is a missing outer key.
unfoldable pub valid_transitions : AgentState → Option (List AgentState)
valid_transitions registered = some (active ∷ [])
valid_transitions active = some (suspended ∷ compromised ∷ expired ∷ decommissioned ∷ [])
valid_transitions suspended = some (active ∷ decommissioned ∷ [])
valid_transitions expired = some (active ∷ decommissioned ∷ [])
valid_transitions compromised = some (decommissioned ∷ [])
valid_transitions decommissioned = some []
valid_transitions (unknown s) = none

unfoldable pub terminal : AgentState → Bool
unfolding state_eq
terminal s = s == compromised || s == decommissioned

-- Indexing a missing inner map finds nothing.
unfoldable pub can_transition : AgentState → AgentState → Bool
unfolding state_eq valid_transitions contains
can_transition from to = elim (valid_transitions from) [
  | none ↦ false
  | some allowed ↦ contains allowed to
]

-- The state changes of a permitted transition.
pub moved : Agent → AgentState → Text → Text → ℤ → Agent
unfolding state_eq
moved a to by reason now = record a {
  state = to;
  activated_at = if to == active && a.activated_at == pos 0 then now else a.activated_at;
  state_history =
      a.state_history
      ++ record { from_state = a.state; to_state = to; at = now; by = by; reason = reason } ∷ [];
}

transition_allowed :
    Option (List AgentState) → Agent → AgentState → Text → Text → ℤ → Agent × Option TransitionErr
unfolding moved contains
transition_allowed none a to by reason now = (a, some invalid_transition)
transition_allowed (some []) a to by reason now = (a, some terminal_state)
transition_allowed (some (s ∷ allowed)) a to by reason now =
    if contains (s ∷ allowed) to
    then (moved a to by reason now, none)
    else (a, some invalid_transition)

unfoldable pub transition : Agent → AgentState → Text → Text → ℤ → Agent × Option TransitionErr
unfolding transition_allowed valid_transitions state_eq
transition a to by reason now = transition_allowed (valid_transitions a.state) a to by reason now
