-- ===== src/Nodes/Gate/Access.antt =====
-- nodes/rbac_gate.py: who gets past the gate, and what a caller who does not is told.
use supervisor_agent.Base.{
  [], ◌∷◌, ◌&&◌, ◌≢◌, arith, List, String, true, false, ◌≡◌, refl, Option, none, some, elem,
  is_some,
}
use supervisor_agent.Base.Text.{strip, truthy}
use supervisor_agent.Governance.Rbac.{denied_message, check, agents_of}
use supervisor_agent.Worker.Registry.{get_agent}
use supervisor_agent.State.{SupervisorState, SupervisorContext}
use supervisor_agent.Services.{Services, World}
use supervisor_agent.Nodes.Turn.{respond, latest_user_text}
use supervisor_agent.Nodes.Gate.{
  entry, blocked, reset, access, deny, oversize, expire, in_time, is_stale, carried, too_large,
  rbac_gate,
}

-- The caller's own permitted set where the session has one, and the role map where it has none.
abbrev Grants : Services → SupervisorContext → Option (List String) → Type 0
Grants s context (some permitted) = elem (strip context.requested_agent_id) permitted ≡ true
Grants s context none =
    (truthy (strip context.user_role) ≡ true)
    × (elem (strip context.requested_agent_id) (agents_of s.rbac (strip context.user_role)) ≡ true)

-- The requested agent is named, registered and granted to the caller.
abbrev pub MayReach : Services → SupervisorContext → Type 0
MayReach s context =
    (truthy (strip context.requested_agent_id) ≡ true)
    × (is_some (get_agent s.registry (strip context.requested_agent_id)) ≡ true)
    × Grants s context context.permitted_agents

check_allowed :
    (s : Services) (role id : String)
    → (check s.rbac role id).allowed ≡ true
    → (truthy role ≡ true) × (elem id (agents_of s.rbac role) ≡ true)
unfolding check
check_allowed s role id h = ground arith

granted :
    (s : Services) (context : SupervisorContext) (permitted : Option (List String))
    → context.permitted_agents ≡ permitted
    → (access s context).allowed ≡ true
    → MayReach s context
unfolding access
granted s context none p h =
    ground (arith, check_allowed s (strip context.user_role) (strip context.requested_agent_id))
granted s context (some permitted) p h = ground arith

-- The tests that the gate has passed when it sends a turn on.
past_tests :
    (s : Services) (context : SupervisorContext) (w : World) (state : SupervisorState)
    → (rbac_gate s context w state).goto ≢ respond
    → ((access s context).allowed ≡ true)
      × (too_large s (latest_user_text state.messages) ≡ false)
      × ((is_stale s w state && carried state) ≡ false)
unfolding rbac_gate deny oversize expire in_time
past_tests s context w state h = ground arith

-- A turn goes past the gate, to the guardrails or to an open approval gate, only if the agent
-- that it names is registered and granted to its caller, by the permitted set of the session if
-- there is one and else by the role map; only if its text is within the size limit; and only if
-- the conversation is not one that has expired with something to clear.
pub rbac_gate-MayReach :
    (s : Services) (context : SupervisorContext) (w : World) (state : SupervisorState)
    → (rbac_gate s context w state).goto ≢ respond
    → MayReach s context
      × (too_large s (latest_user_text state.messages) ≡ false)
      × ((is_stale s w state && carried state) ≡ false)
rbac_gate-MayReach s context w state h =
    let (allowed, small, fresh) = past_tests s context w state h in
    (granted s context context.permitted_agents refl allowed, small, fresh)

-- A caller whose access is denied gets the same refusal whatever the conversation holds, however
-- large the message and however old the session: the denial message and a trail of one entry.
-- What an open approval gate or an unanswered question left in the conversation stays there.
rbac_gate_denied :
    (s : Services) (context : SupervisorContext) (w : World) (state : SupervisorState)
    → (access s context).allowed ≡ false
    → ((rbac_gate s context w state).goto ≡ respond)
      × ((rbac_gate s context w state).state.outcome ≡ blocked)
      × ((rbac_gate s context w state).state.final_text ≡ denied_message)
      × ((rbac_gate s context w state).state.audit_trail
          ≡ entry w "rbac_gate" "deny" (access s context).reason ∷ [])
      × ((rbac_gate s context w state).state.pending_approval ≡ state.pending_approval)
      × ((rbac_gate s context w state).state.pending_clarification ≡ state.pending_clarification)
      × ((rbac_gate s context w state).state.deferred_request ≡ state.deferred_request)
      × ((rbac_gate s context w state).state.session_context ≡ state.session_context)
unfolding rbac_gate deny reset
rbac_gate_denied s context w state h =
    rw (rbac_gate, h) (refl, refl, refl, refl, refl, refl, refl, refl)
