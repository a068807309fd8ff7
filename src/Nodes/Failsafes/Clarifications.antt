-- ===== src/Nodes/Failsafes/Clarifications.antt =====
-- nodes/failsafes.py: how often a conversation is asked back.
use supervisor_agent.Base.{ℕ, zero, suc, ◌≤◌, ◌<◌, String, ◌≡◌, ◌↔◌, none, arith}
use supervisor_agent.State.{SupervisorState, escalated, clarify}
use supervisor_agent.Services.{Services, World}
use supervisor_agent.Nodes.Turn.{respond}
use supervisor_agent.Nodes.Failsafes.{clarify_or_escalate}

-- A question that a stage wants to ask ends the turn, and whatever the count was, what is left of
-- it is within the limit; it is escalated, with the count back at 0 and no question open, exactly
-- if the conversation has already been asked as often as the limit allows.
pub clarify_or_escalate_bounded :
    (s : Services) (w : World) (before : SupervisorState) (stage question : String)
    (state : SupervisorState)
    → ((clarify_or_escalate s w before stage question state).goto ≡ respond)
      × ((clarify_or_escalate s w before stage question state).state.clarification_count
          ≤ s.settings.max_clarifications)
      × ((clarify_or_escalate s w before stage question state).state.outcome ≡ escalated
          ↔ s.settings.max_clarifications ≤ before.clarification_count)
      × ((clarify_or_escalate s w before stage question state).state.outcome ≡ escalated
          → ((clarify_or_escalate s w before stage question state).state.clarification_count ≡ 0)
            × ((clarify_or_escalate s w before stage question state).state.pending_clarification
                ≡ none))
unfolding clarify_or_escalate
clarify_or_escalate_bounded s w before stage question state = ground arith

-- The state after `n` questions in a row.
abbrev pub asked_times : Services → World → String → String → ℕ → SupervisorState → SupervisorState
asked_times s w stage question zero state = state
asked_times s w stage question (suc n) state =
    (clarify_or_escalate s w (asked_times s w stage question n state) stage question
      (asked_times s w stage question n state)).state

count_of-asked_times :
    (s : Services) (w : World) (stage question : String) (n : ℕ) (state : SupervisorState)
    → state.clarification_count ≡ 0
    → n ≤ s.settings.max_clarifications
    → (asked_times s w stage question n state).clarification_count ≡ n
unfolding clarify_or_escalate
count_of-asked_times s w stage question zero state h k = h
count_of-asked_times s w stage question (suc n) state h k =
    let c = count_of-asked_times s w stage question n state h (omega arith) in ground arith

-- From a count of 0, a conversation is asked exactly as many questions in a row as the limit
-- allows, and the next one goes to a human reviewer instead.
pub escalates_after_limit :
    (s : Services) (w : World) (stage question : String) (state : SupervisorState)
    → state.clarification_count ≡ 0
    → ((n : ℕ)
        → n < s.settings.max_clarifications
        → (asked_times s w stage question (suc n) state).outcome ≡ clarify)
      × ((asked_times s w stage question (suc s.settings.max_clarifications) state).outcome
          ≡ escalated)
unfolding clarify_or_escalate
escalates_after_limit s w stage question state h = (
  λ n k. let c = count_of-asked_times s w stage question n state h (omega arith) in ground arith,
  let c =
        count_of-asked_times s w stage question s.settings.max_clarifications state h
          (omega arith) in
      ground arith,
)
