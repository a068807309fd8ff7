-- ===== src/Nodes/Respond/Audit.antt =====
-- nodes/respond.py: the answer and its audit record.
use supervisor_agent.Base.{true, ◌≡◌, refl, ◌++◌, [], ◌∷◌, ◌⊎◌, inl, inr, Bool-cases}
use supervisor_agent.State.{ai, error, SupervisorState, SupervisorContext}
use supervisor_agent.UserText.{audit_unavailable_message}
use supervisor_agent.Services.{Services, World}
use supervisor_agent.Nodes.Turn.{is_governance_decision}
use supervisor_agent.Nodes.Respond.{audit_record, respond}

-- A governance decision, a turn that was blocked, escalated or expired or that settled an approval,
-- is reported to the user only once its audit record is in the log: where the audit sink is down,
-- the user is told so instead and the turn ends as an error.
pub respond_audited :
    (s : Services) (context : SupervisorContext) (w : World) (state : SupervisorState)
    → is_governance_decision state ≡ true
    → ((respond s context w state).1.audit_log ≡ w.audit_log ++ audit_record s context w state ∷ [])
      ⊎ (((respond s context w state).0.state.outcome ≡ error)
          × ((respond s context w state).0.state.final_text ≡ audit_unavailable_message)
          × ((respond s context w state).0.state.messages
              ≡ state.messages ++ record { role = ai; content = audit_unavailable_message } ∷ []))
unfolding respond
respond_audited s context w state h = elim (Bool-cases w.audit_up) [
  | inl up ↦ inl (rw (respond, up) refl)
  | inr down ↦ inr (rw (respond, down, h) (refl, refl, refl))
]
