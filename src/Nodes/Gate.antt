-- ===== src/Nodes/Gate.antt =====
-- nodes/rbac_gate.py: the access decision, the size bound, the session lifetime, and the turns that
-- meet an open approval gate.
pub mod Access
pub mod Session
pub mod Exits
use supervisor_agent.Base.{
  ℕ, String, ◌<>◌, Bool, true, false, not, ◌&&◌, ◌||◌, Option, none, some, [], ◌∷◌, elem, max, ltb,
  count, is_empty, is_some, if◌then◌else◌,
}
use supervisor_agent.Base.Text.{strip, truthy, fixed0, decimal}
use supervisor_agent.Governance.Rbac.{RbacDecision, check, denied_message}
use supervisor_agent.Worker.Registry.{get_agent}
use supervisor_agent.Engine.Replies.{ApprovalReply, approval_reply, decision_text}
use supervisor_agent.State.{
  Stamp, at, unset, blocked, expired, approval_pending, SupervisorState, SupervisorContext,
}
use supervisor_agent.UserText.{
  approval_pending_message, input_too_long_message, session_expired_message,
}
use supervisor_agent.Services.{Services, World}
use supervisor_agent.Nodes.Turn.{
  Command, guardrails, approval, respond, entry, latest_user_text, session_idle_seconds,
}

abbrev or_now : World → Option Stamp → Option Stamp
or_now w none = some (at w.wall)
or_now w (some stamp) = some stamp

-- The `reset` of every turn.
unfoldable pub reset : World → SupervisorState → SupervisorState
reset w state = record state {
  request_id = w.uuid;
  outcome = unset;
  final_text = "";
  worker_response = none;
  routed_agent_name = "";
  sources = [];
  signoff = none;
  approval_reply = none;
  session_started_at = or_now w state.session_started_at;
  session_last_active_at = some (at w.wall);
}

-- `allowed, reason`: the id, the registry, the caller's permitted set, or the role map.
unfoldable pub access : Services → SupervisorContext → RbacDecision
access s context =
    let agent_id = strip context.requested_agent_id in
    if not (truthy agent_id)
    then record { allowed = false; reason = "no target agent id was supplied" }
    else if not (is_some (get_agent s.registry agent_id))
    then record { allowed = false; reason = "unknown agent id '" <> (agent_id <> "'") }
    else elim context.permitted_agents [
      | some permitted ↦
          if elem agent_id permitted
          then record {
            allowed = true;
            reason = "'" <> (agent_id <> "' is in the caller's permitted set");
          }
          else record {
            allowed = false;
            reason = "'" <> (agent_id <> "' is not in the caller's permitted set");
          }
      | none ↦ check s.rbac (strip context.user_role) agent_id
    ]

-- The limit on idle time: an open gate has a longer one. 0 stands for no limit.
unfoldable pub max_age : Services → SupervisorState → ℕ
max_age s state =
    if is_some state.pending_approval
    then max s.settings.session_max_age_seconds s.settings.approval_max_age_seconds
    else s.settings.session_max_age_seconds

unfoldable pub is_stale : Services → World → SupervisorState → Bool
is_stale s w state =
    ltb 0 s.settings.session_max_age_seconds
    && (elim (session_idle_seconds w state) [ none ↦ false | some age ↦ ltb (max_age s state) age ])

abbrev asked_something : Option String → Bool
asked_something none = false
asked_something (some q) = truthy q

-- Whether the conversation carries something that an expiry clears.
unfoldable pub carried : SupervisorState → Bool
carried state =
    is_some state.pending_approval
    || not (is_empty state.session_context)
    || asked_something state.pending_clarification
    || is_some state.deferred_request

abbrev age_of : World → SupervisorState → ℕ
age_of w state = elim (session_idle_seconds w state) [ none ↦ 0 | some age ↦ age ]

-- `cleared`, over the reset state
unfoldable pub clear : World → SupervisorState → SupervisorState
clear w state = record state {
  pending_approval = none;
  session_context = [];
  clarification_count = 0;
  pending_clarification = none;
  deferred_request = none;
  session_started_at = some (at w.wall);
}

-- The target and the access decision, in every update.
abbrev pub decided_on : String → RbacDecision → SupervisorState → SupervisorState
decided_on agent_id d state = record state {
  target_agent_id = agent_id;
  rbac = some (record { allowed = d.allowed; reason = d.reason });
}

deny : World → String → RbacDecision → SupervisorState → Command
deny w agent_id d fresh = record {
  goto = respond;
  state = record (decided_on agent_id d fresh) {
    outcome = blocked;
    final_text = denied_message;
    audit_trail = entry w "rbac_gate" "deny" d.reason ∷ [];
  };
}

oversize : Services → World → String → RbacDecision → String → SupervisorState → Command
oversize s w agent_id d inbound fresh = record {
  goto = respond;
  state = record (decided_on agent_id d fresh) {
    outcome = blocked;
    final_text = input_too_long_message;
    audit_trail =
        entry w "rbac_gate" "allow" d.reason
        ∷ entry w "input_bounds" "oversize" (
            decimal (count inbound)
            <> (" chars exceeds the "
                <> (decimal s.settings.input_max_chars
                    <> "-char inbound bound — refused before screening")))
        ∷ [];
  };
}

-- `expire`, for a conversation that carries something
expire : Services → World → String → RbacDecision → SupervisorState → SupervisorState → Command
expire s w agent_id d before fresh = record {
  goto = respond;
  state = record (decided_on agent_id d (clear w fresh)) {
    outcome = expired;
    final_text = session_expired_message;
    audit_trail =
        entry w "rbac_gate" "allow" d.reason
        ∷ entry w "session" "expired" (
            "session idle "
            <> (fixed0 (age_of w before)
                <> ("s exceeded the "
                    <> (fixed0 (max_age s before)
                        <> "s limit — carried context and pending approval cleared"))))
        ∷ [];
  };
}

settle_gate : World → String → RbacDecision → ApprovalReply → SupervisorState → Command
settle_gate w agent_id d reply fresh = record {
  goto = approval;
  state = record (decided_on agent_id d fresh) {
    approval_reply = some reply;
    audit_trail =
        entry w "rbac_gate" "allow" d.reason
        ∷ entry w "approval_gate" "decision_received" (
            decision_text reply.decision
            <> " in the conversation — the gate was settled without a resume payload")
        ∷ [];
  };
}

hold_gate : World → String → RbacDecision → SupervisorState → Command
hold_gate w agent_id d fresh = record {
  goto = approval;
  state = record (decided_on agent_id d fresh) {
    outcome = approval_pending;
    final_text = approval_pending_message;
    audit_trail =
        entry w "rbac_gate" "allow" d.reason
        ∷ entry w "approval_gate" "rejected_input" "message received while an approval gate is open"
        ∷ [];
  };
}

pass : World → String → RbacDecision → SupervisorState → Command
pass w agent_id d fresh = record {
  goto = guardrails;
  state = record (decided_on agent_id d fresh) {
    audit_trail = entry w "rbac_gate" "allow" d.reason ∷ [];
  };
}

-- After the lifetime check; `fresh` is the reset state.
admitted : Services → World → String → RbacDecision → String → SupervisorState → Command
admitted s w agent_id d inbound fresh =
    if is_some fresh.pending_approval
    then elim (approval_reply s.guardrails.re inbound) [
      | some reply ↦ settle_gate w agent_id d reply fresh
      | none ↦ hold_gate w agent_id d fresh
    ]
    else pass w agent_id d fresh

-- A stale conversation that carries nothing only has its clock restarted.
in_time : Services → World → String → RbacDecision → String → SupervisorState → Command
in_time s w agent_id d inbound state =
    if is_stale s w state
    then (if carried state
        then expire s w agent_id d state (reset w state)
        else admitted s w agent_id d inbound
            (record (reset w state) { session_started_at = some (at w.wall) }))
    else admitted s w agent_id d inbound (reset w state)

abbrev pub too_large : Services → String → Bool
too_large s inbound =
    ltb 0 s.settings.input_max_chars && ltb s.settings.input_max_chars (count inbound)

unfoldable pub rbac_gate : Services → SupervisorContext → World → SupervisorState → Command
unfolding deny oversize expire settle_gate hold_gate pass admitted in_time
rbac_gate s context w state =
    let agent_id = strip context.requested_agent_id in
    let d = access s context in
    let inbound = latest_user_text state.messages in
    if not d.allowed
    then deny w agent_id d (reset w state)
    else if too_large s inbound
    then oversize s w agent_id d inbound (reset w state)
    else in_time s w agent_id d inbound state
