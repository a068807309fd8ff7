-- ===== src/Nodes/Respond.antt =====
-- nodes/respond.py: the single exit. The audit record is written before the answer leaves.
pub mod Audit
pub mod Exits
use supervisor_agent.Base.{
  String, ◌<>◌, none, some, List, [], ◌∷◌, ◌++◌, ltb, is_some, if◌then◌else◌,
}
use supervisor_agent.Base.Text.{or_text, decimal}
use supervisor_agent.Governance.Deadline.{enabled, spent}
use supervisor_agent.Governance.Sensitive.{redact_trail}
use supervisor_agent.Worker.Registry.{get_agent}
use supervisor_agent.State.{ai, Message, Entry, error, SupervisorState, SupervisorContext}
use supervisor_agent.UserText.{audit_unavailable_message, generic_error}
use supervisor_agent.Services.{Services, World, AuditRecord, turn_deadline}
use supervisor_agent.Nodes.Turn.{
  Command, finish, entry, session_age_seconds, is_governance_decision,
}

-- The trail as it is persisted, with a note on what was redacted.
unfoldable pub persisted_trail : Services → World → SupervisorState → List Entry
persisted_trail s w state =
    let redacted = redact_trail s.output_guard.matches state.audit_trail in
    if ltb 0 redacted.1
    then redacted.0
      ++ entry w "respond" "redacted" (
          decimal redacted.1
          <> " secret/PII value(s) redacted from the decision trail before persistence")
        ∷ []
    else redacted.0

unfoldable pub audit_record : Services → SupervisorContext → World → SupervisorState → AuditRecord
audit_record s context w state =
    let d = turn_deadline s context w in
    record {
      request_id = state.request_id;
      conversation_id = state.conversation_id;
      correlation_id = context.correlation_id;
      user_role = context.user_role;
      user_key = context.user_key;
      target_agent_id = state.target_agent_id;
      outcome = state.outcome;
      decision_trail = persisted_trail s w state;
      latency_ms = if enabled d then some (spent d w.now) else none;
      session_age_seconds = session_age_seconds w state;
      signoff = state.signoff;
    }

-- The name of the worker, where one produced the answer.
abbrev routed_name : Services → SupervisorState → String
routed_name s state =
    if is_some state.worker_response
    then (elim (get_agent s.registry state.target_agent_id) [ none ↦ "" | some a ↦ a.name ])
    else ""

said : String → Message
said text = record { role = ai; content = text }

unreported : SupervisorState → SupervisorState
unfolding said
unreported state = record state {
  messages = state.messages ++ said audit_unavailable_message ∷ [];
  outcome = error;
  final_text = audit_unavailable_message;
  routed_agent_name = "";
}

answered : Services → SupervisorState → SupervisorState
unfolding said
answered s state = record state {
  messages = state.messages ++ said (or_text state.final_text generic_error) ∷ [];
  routed_agent_name = routed_name s state;
}

unfoldable pub respond : Services → SupervisorContext → World → SupervisorState → Command × World
unfolding unreported answered
respond s context w state =
    let logged = record w { audit_log = w.audit_log ++ audit_record s context w state ∷ [] } in
    if w.audit_up
    then (record { goto = finish; state = answered s state }, logged)
    else if is_governance_decision state
    then (record { goto = finish; state = unreported state }, w)
    else (record { goto = finish; state = answered s state }, w)
