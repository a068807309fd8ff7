-- ===== src/Nodes/Gate/Session.antt =====
-- nodes/rbac_gate.py: the lifetime of a conversation, the open approval gate, and the fresh turn.
use supervisor_agent.Base.{arith, true, false, ◌≡◌, refl, some, none, []}
use supervisor_agent.State.{at, unset, expired, Pending, SupervisorState, SupervisorContext}
use supervisor_agent.UserText.{session_expired_message}
use supervisor_agent.Engine.Replies.{approval_reply}
use supervisor_agent.Services.{Services, World}
use supervisor_agent.Nodes.Turn.{guardrails, approval, respond, latest_user_text}
use supervisor_agent.Nodes.Gate.{
  reset, clear, access, deny, oversize, expire, settle_gate, hold_gate, pass, admitted, in_time,
  is_stale, carried, too_large, rbac_gate,
}

-- A turn that reaches the guardrails carries nothing of the turn before it that would count as
-- its own answer, and no approval gate is open.
rbac_gate_fresh :
    (s : Services) (context : SupervisorContext) (w : World) (state : SupervisorState)
    → (rbac_gate s context w state).goto ≡ guardrails
    → ((rbac_gate s context w state).state.pending_approval ≡ none)
      × ((rbac_gate s context w state).state.outcome ≡ unset)
      × ((rbac_gate s context w state).state.final_text ≡ "")
      × ((rbac_gate s context w state).state.worker_response ≡ none)
      × ((rbac_gate s context w state).state.signoff ≡ none)
      × ((rbac_gate s context w state).state.sources ≡ [])
      × ((rbac_gate s context w state).state.request_id ≡ w.uuid)
unfolding rbac_gate deny oversize expire in_time admitted settle_gate hold_gate pass reset
rbac_gate_fresh s context w state h = ground arith

-- An admitted turn of a conversation that has been idle for longer than its limit, and that still
-- carries something, is answered at once and leaves nothing of it: no open approval, no session
-- context, no unanswered question, no deferred request, no count of clarifications.
rbac_gate-expired :
    (s : Services) (context : SupervisorContext) (w : World) (state : SupervisorState)
    → (access s context).allowed ≡ true
    → too_large s (latest_user_text state.messages) ≡ false
    → is_stale s w state ≡ true
    → carried state ≡ true
    → ((rbac_gate s context w state).goto ≡ respond)
      × ((rbac_gate s context w state).state.outcome ≡ expired)
      × ((rbac_gate s context w state).state.final_text ≡ session_expired_message)
      × (carried (rbac_gate s context w state).state ≡ false)
      × ((rbac_gate s context w state).state.clarification_count ≡ 0)
      × ((rbac_gate s context w state).state.session_started_at ≡ some (at w.wall))
unfolding rbac_gate in_time expire clear carried
rbac_gate-expired s context w state h k l m =
    rw (rbac_gate, h, k, in_time, l, m) (refl, refl, refl, refl, refl, refl)

-- While an approval gate is open and has not expired, an admitted turn goes to that gate and
-- never to a worker, whatever it says; the artifact that waits is unchanged, and what the gate is
-- told is the decision that the message reads as, if it reads as one.
rbac_gate_open :
    (s : Services) (context : SupervisorContext) (w : World) (state : SupervisorState) (p : Pending)
    → (access s context).allowed ≡ true
    → too_large s (latest_user_text state.messages) ≡ false
    → is_stale s w state ≡ false
    → state.pending_approval ≡ some p
    → ((rbac_gate s context w state).goto ≡ approval)
      × ((rbac_gate s context w state).state.pending_approval ≡ some p)
      × ((rbac_gate s context w state).state.approval_reply
          ≡ approval_reply s.guardrails.re (latest_user_text state.messages))
unfolding rbac_gate in_time admitted settle_gate hold_gate reset
rbac_gate_open s context w state p h k l m = ground arith
