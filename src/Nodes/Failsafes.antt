-- ===== src/Nodes/Failsafes.antt =====
-- nodes/failsafes.py: what a stage does when the turn runs out of time or of clarifications.
pub mod Clarifications
use supervisor_agent.Base.{
  ℕ, ◌+◌, String, ◌<>◌, Bool, false, ◌&&◌, none, some, ltb, leb, if◌then◌else◌,
}
use supervisor_agent.Base.Text.{truthy, fixed0, fixed1, or_text, decimal}
use supervisor_agent.State.{error, escalated, clarify, SupervisorState}
use supervisor_agent.UserText.{
  budget_exhausted_message, escalation_message, clarify_final_prefix, clarify_retry_prefix,
}
use supervisor_agent.Services.{Services, World}
use supervisor_agent.Nodes.Turn.{Command, respond, trail}

-- `exc` is given by its parts: what, spent and budget.
unfoldable pub budget_exhausted : World → SupervisorState → String → String → ℕ → ℕ → Command
budget_exhausted w state stage what spent budget = record {
  goto = respond;
  state = record state {
    outcome = error;
    final_text = budget_exhausted_message;
    audit_trail = trail w state stage "budget_exhausted" (
        "turn budget of "
        <> (fixed0 budget
            <> ("s exhausted after "
                <> (fixed1 spent
                    <> ("s before "
                        <> (or_text what stage <> " — request held, nothing dispatched"))))));
  };
}

-- `question and state.get("pending_clarification")`
abbrev asked_again : SupervisorState → String → Bool
asked_again state question =
    truthy question && (elim state.pending_clarification [ none ↦ false | some q ↦ truthy q ])

question_text : ℕ → SupervisorState → String → String
question_text max_clarifications state question =
    if asked_again state question
    then (if leb max_clarifications (state.clarification_count + 1)
        then clarify_final_prefix
        else clarify_retry_prefix)
      <> question
    else question

-- `state` is the state after the update that the stage passes, `before` the one that it read:
-- no caller's update touches the fields read here.
unfoldable pub clarify_or_escalate :
    Services → World → SupervisorState → String → String → SupervisorState → Command
unfolding question_text
clarify_or_escalate s w before stage question state =
    if ltb s.settings.max_clarifications (before.clarification_count + 1)
    then record {
      goto = respond;
      state = record state {
        outcome = escalated;
        final_text = escalation_message;
        clarification_count = 0;
        pending_clarification = none;
        audit_trail = trail w before stage "escalate" (
            "clarification limit reached after "
            <> (decimal before.clarification_count <> " attempts — recorded for a human reviewer"));
      };
    }
    else record {
      goto = respond;
      state = record state {
        outcome = clarify;
        final_text = question_text s.settings.max_clarifications before question;
        clarification_count = before.clarification_count + 1;
        pending_clarification = some question;
        audit_trail = trail w before stage "clarify" question;
      };
    }
