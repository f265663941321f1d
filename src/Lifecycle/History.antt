-- ===== src/Lifecycle/History.antt =====
-- The recorded history of an agent.
use adtp.Prelude.{
  ◌≡◌, refl, ◌≢◌, true, List, [], ◌∷◌, ◌++◌, arith, All, Text, ℤ, ℤ-eq, pos, ◌==◌, eq_iff,
  if◌then◌else◌, ◌&&◌, All-append, Bool-cases, inl, inr,
}
use adtp.Lifecycle.{
  AgentState, registered, active, AgentState-eq, Agent, StateTransition, new_agent, can_transition,
  transition, moved,
}
use adtp.Lifecycle.Machine.{Request, run, transition_outcome}

-- The history leads from `s` to `t` by legal transitions, each starting where the last one ended.
abbrev pub Leads : AgentState → List StateTransition → AgentState → Type 0
Leads s [] t = s ≡ t
Leads s (h ∷ hs) t =
    (h.from_state ≡ s) × (can_transition s h.to_state ≡ true) × Leads h.to_state hs t

-- The time of the first recorded move to ACTIVE, or 0.
unfoldable pub first_activation : List StateTransition → ℤ
first_activation [] = pos 0
first_activation (h ∷ hs) = if h.to_state == active then h.at else first_activation hs

Leads-append :
    (s t u : AgentState) (hs : List StateTransition) (at : ℤ) (by reason : Text)
    → Leads s hs t
    → can_transition t u ≡ true
    → Leads s
        (hs ++ record { from_state = t; to_state = u; at = at; by = by; reason = reason } ∷ [])
        u
Leads-append s t u [] at by reason l c = ground arith
Leads-append s t u (h ∷ hs) at by reason l c =
    (l.0, l.1, Leads-append h.to_state t u hs at by reason l.2 c)

abbrev pub Timed : List StateTransition → Type 0
Timed = All (λ h. h.at ≢ pos 0)

first_activation-append :
    (hs : List StateTransition) (h : StateTransition)
    → Timed hs
    → first_activation (hs ++ h ∷ [])
      ≡ (if h.to_state == active && first_activation hs == pos 0 then h.at else first_activation hs)
unfolding first_activation
first_activation-append [] h n = ground arith
first_activation-append (g ∷ hs) h n =
    ground (arith, eq_iff g.at (pos 0), first_activation-append hs h n.1)

pub record IsRecorded (a : Agent) : Type 0 where
  pub leads : Leads registered a.state_history a.state
  pub activated : a.activated_at ≡ first_activation a.state_history
  pub timed : Timed a.state_history

moved-IsRecorded :
    (a : Agent) (to : AgentState) (by reason : Text) (now : ℤ)
    → now ≢ pos 0
    → can_transition a.state to ≡ true
    → IsRecorded a
    → IsRecorded (moved a to by reason now)
unfolding moved
moved-IsRecorded a to by reason now n c r = record {
  leads = Leads-append registered a.state to a.state_history now by reason r.leads c;
  activated =
      let last : StateTransition = record {
        from_state = a.state;
        to_state = to;
        at = now;
        by = by;
        reason = reason;
      } in
      ground (arith, r.activated, first_activation-append a.state_history last r.timed);
  timed = All-append (λ h. h.at ≢ pos 0) a.state_history _ r.timed (n, tt);
}

transition-IsRecorded :
    (a : Agent) (to : AgentState) (by reason : Text) (now : ℤ)
    → now ≢ pos 0
    → IsRecorded a
    → IsRecorded (transition a to by reason now).0
transition-IsRecorded a to by reason now n r =
    rw (transition_outcome a to by reason now) (elim (Bool-cases (can_transition a.state to)) [
      | inl c ↦ rw c (moved-IsRecorded a to by reason now n c r)
      | inr c ↦ rw c r
    ])

run-IsRecorded :
    (a : Agent) (rs : List Request)
    → All (λ r. r.now ≢ pos 0) rs
    → IsRecorded a
    → IsRecorded (run a rs)
unfolding run
run-IsRecorded a [] n h = h
run-IsRecorded a (r ∷ rs) n h =
    run-IsRecorded (transition a r.target r.by r.reason r.now).0 rs n.1
      (transition-IsRecorded a r.target r.by r.reason r.now n.0 h)

new_agent-IsRecorded : (did sponsor : Text) (now : ℤ) → IsRecorded (new_agent did sponsor now)
unfolding new_agent first_activation
new_agent-IsRecorded did sponsor now = record { leads = refl; activated = refl; timed = tt }

-- Whatever is requested of a new agent at non-zero times, its history leads from REGISTERED to its
-- state by legal transitions, and `activated_at` is the time of its first move to ACTIVE.
pub history_lem :
    (did sponsor : Text) (now : ℤ) (rs : List Request)
    → All (λ r. r.now ≢ pos 0) rs
    → IsRecorded (run (new_agent did sponsor now) rs)
history_lem did sponsor now rs n =
    run-IsRecorded (new_agent did sponsor now) rs n (new_agent-IsRecorded did sponsor now)
