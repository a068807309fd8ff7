-- ===== src/Nodes/Guardrails/Updates.antt =====
-- nodes/guardrails.py: what the message says of a held request, and the updates of the state on
-- each exit.
use supervisor_agent.Base.{
  ◌+◌, String, ◌<>◌, ◌==◌, Bool, true, false, not, ◌&&◌, Option, none, some, List, [], ◌∷◌, ◌++◌,
  map, ltb, leb, is_empty, if◌then◌else◌,
}
use supervisor_agent.Base.Text.{strip, lower, truthy, join, decimal, prefix}
use supervisor_agent.Base.Result.{Exc}
use supervisor_agent.Governance.Retry.{exc_name, exc_text}
use supervisor_agent.Governance.OutputGuard.{scrub}
use supervisor_agent.Worker.Registry.{WorkerAgent}
use supervisor_agent.Engine.Replies.{FollowupAnswer, accept, decline, neither, followup_answer}
use supervisor_agent.Engine.Screen.{
  small_talk, kill_switch, unavailable, tier_text, GuardrailResult, ScreenResult,
}
use supervisor_agent.State.{
  human, Message, Entry, answer, blocked, escalated, error, guardrail_record, Deferred,
  SupervisorState,
}
use supervisor_agent.UserText.{
  block_streak_escalation_message, deferred_request_dropped, deterministic_escalation_message,
  governance_unavailable_message, join_names, sentence, small_talk_reply,
}
use supervisor_agent.Services.{Services, World}
use supervisor_agent.Nodes.Turn.{
  when, Command, respond, route, entry, trail, small_talk_seen, excerpt,
}
use supervisor_agent.Nodes.Failsafes.{clarify_or_escalate}

unfoldable pub kill_stop : World → SupervisorState → String → Command
kill_stop w state message = record {
  goto = respond;
  state = record state {
    guardrail =
        some (guardrail_record false kill_switch "the operations team has paused the assistant");
    outcome = blocked;
    final_text = message;
    audit_trail =
        trail w state "guardrails" "kill_switch"
          "the emergency stop in the governed guardrails document is engaged — turn refused before any model call";
  };
}

-- What the message says about a held request: its text if the user takes it up, or a refusal of it.
pub data Offer : Type 0 where
  no_offer : Offer
  resumed : String → Offer
  dropped : String → Offer

abbrev offer_answer : String → FollowupAnswer → Offer
offer_answer text accept = resumed text
offer_answer text decline = dropped text
offer_answer text neither = no_offer

unfoldable pub read_offer : Services → Option Deferred → String → Offer
read_offer s none query = no_offer
read_offer s (some deferred) query =
    if truthy deferred.text
    then offer_answer deferred.text (followup_answer s.guardrails.re query)
    else no_offer

unfoldable pub drop_offer : Services → World → SupervisorState → String → Command
drop_offer s w state text = record {
  goto = respond;
  state = record state {
    deferred_request = none;
    outcome = answer;
    routed_agent_name = "";
    final_text = deferred_request_dropped;
    guardrail = some (guardrail_record true small_talk "the user declined the held-over request");
    audit_trail = trail w state "guardrails" "deferred_dropped" (
        "held request declined by the user: "
        <> excerpt s.guardrails.re s.output_guard.matches text);
  };
}

-- A screen that could not be made: the request is held.
unfoldable pub fail_closed : World → SupervisorState → Exc → Command
fail_closed w state e = record {
  goto = respond;
  state = record state {
    guardrail = some (guardrail_record false unavailable (prefix (exc_text e) 200));
    outcome = error;
    final_text = governance_unavailable_message;
    audit_trail =
        trail w state "guardrails" "fail_closed"
          ("screening unavailable (" <> (exc_name e <> ") — request held, not dispatched"));
  };
}

unfoldable pub escalate_rule : World → SupervisorState → GuardrailResult → Command
escalate_rule w state r = record {
  goto = respond;
  state = record state {
    guardrail = some (record (guardrail_record false r.tier r.reason) { escalated = true });
    outcome = escalated;
    final_text = deterministic_escalation_message;
    guardrail_block_streak = state.guardrail_block_streak + 1;
    audit_trail =
        trail w state "guardrails" "escalate"
          (tier_text r.tier <> (": " <> (r.reason <> " — recorded for a human reviewer")));
  };
}

unfoldable pub escalate_streak : World → SupervisorState → GuardrailResult → Command
escalate_streak w state r = record {
  goto = respond;
  state = record state {
    guardrail = some (record (guardrail_record false r.tier r.reason) {
      block_streak = some (state.guardrail_block_streak + 1);
    });
    outcome = escalated;
    final_text = block_streak_escalation_message;
    guardrail_block_streak = 0;
    audit_trail = trail w state "guardrails" "anomaly_escalate" (
        decimal (state.guardrail_block_streak + 1)
        <> " consecutive blocks reached the streak limit — recorded for a human reviewer");
  };
}

considered_note : List String → String
considered_note considered =
    if is_empty considered then "" else " (considered " <> (join ", " considered <> ")")

-- `f"For your role I can reach {covered}." if covered else ""`, joined by a space
covered_note : List WorkerAgent → String
covered_note reachable =
    let covered = join_names (map (λ a. a.name) reachable) in
    if truthy covered then " For your role I can reach " <> (covered <> ".") else ""

unfoldable pub refuse :
    Services → World → SupervisorState → List WorkerAgent → ScreenResult → Command
unfolding considered_note covered_note
refuse s w state reachable screened =
    let r = screened.result in
    record {
      goto = respond;
      state = record state {
        guardrail =
            some (record (guardrail_record false r.tier r.reason) {
              considered = screened.considered;
            });
        outcome = blocked;
        guardrail_block_streak = state.guardrail_block_streak + 1;
        final_text =
            "I can't route this request. "
            <> (sentence (scrub s.output_guard r.reason "it isn't something I can pass to an agent")
                <> covered_note reachable);
        audit_trail =
            trail w state "guardrails" "block"
              (tier_text r.tier <> (": " <> (r.reason <> considered_note screened.considered)));
      };
    }

abbrev pub streak_reached : Services → SupervisorState → Bool
streak_reached s state =
    ltb 0 s.settings.guardrail_block_streak_limit
    && leb s.settings.guardrail_block_streak_limit (state.guardrail_block_streak + 1)

unfoldable pub chat :
    Services → World → SupervisorState → List WorkerAgent → GuardrailResult → Command
chat s w state reachable r =
    let seen = small_talk_seen s.guardrails.re state.messages r.small_talk in
    record {
      goto = respond;
      state = record state {
        guardrail =
            some (record (guardrail_record true r.tier r.reason) { small_talk = r.small_talk });
        outcome = answer;
        final_text = small_talk_reply r.small_talk (map (λ a. a.name) reachable) seen;
        routed_agent_name = "";
        audit_trail = trail w state "guardrails" "answered_directly" (
            r.small_talk
            <> (" (x" <> (decimal (seen + 1) <> "): answered by the supervisor, no worker call")));
      };
    }

-- The id of the screened agent, or of the addressed one; "" where there is neither (the source
-- raises there, and the gate has made sure of the addressed agent).
abbrev pub agent_of : ScreenResult → Option WorkerAgent → Option WorkerAgent
agent_of screened addressed = elim screened.agent [ none ↦ addressed | some a ↦ some a ]

abbrev pub id_of : Option WorkerAgent → String
id_of none = ""
id_of (some a) = a.id

abbrev name_of : Option WorkerAgent → String
name_of none = ""
name_of (some a) = a.name

unfoldable pub ask :
    Services → World → SupervisorState → Option WorkerAgent → ScreenResult → Command
ask s w state agent screened =
    let r = screened.result in
    clarify_or_escalate s w state "guardrails"
      (scrub s.output_guard r.clarification "Which deliverable would you like produced?")
      (record state {
        target_agent_id = id_of agent;
        guardrail_block_streak = 0;
        guardrail = some (record (guardrail_record true r.tier r.reason) {
          considered = screened.considered;
          underspecified = true;
        });
      })

-- The second deliverable, unless it is the request that is being answered now.
second_of : GuardrailResult → String → String
second_of r deferred_resumed =
    let additional = strip r.additional_request in
    if truthy additional
      && truthy deferred_resumed
      && (lower additional == lower (strip deferred_resumed))
    then ""
    else additional

pass_trail :
    Services → World → SupervisorState → Option WorkerAgent → ScreenResult → String → List Entry
unfolding considered_note second_of when
pass_trail s w state agent screened deferred_resumed =
    let r = screened.result in
    let additional = second_of r deferred_resumed in
    (entry w "guardrails" "pass"
        (tier_text r.tier <> (": " <> (r.reason <> considered_note screened.considered)))
      ∷ [])
    ++ (when (not (id_of agent == state.target_agent_id)) (
          entry w "guardrails" "retargeted" (
            state.target_agent_id
            <> (" -> " <> (id_of agent <> (": the query belongs to " <> name_of agent)))))
        ++ (when (not (is_empty r.contested)) (
              entry w "guardrails" "contested"
                ("more than one permitted agent claimed the request: " <> join ", " r.contested))
            ++ (when (truthy additional) (
                  entry w "guardrails" "second_request" (
                    "the message carried a second deliverable: "
                    <> excerpt s.guardrails.re s.output_guard.matches additional))
                ++ when (truthy deferred_resumed) (
                    entry w "guardrails" "deferred_resumed" (
                      "held request taken up on the user's confirmation: "
                      <> (excerpt s.guardrails.re s.output_guard.matches deferred_resumed
                          <> " — screened as a fresh request"))))))

-- The held request, as a message of the user.
restated : String → List Message
restated text = if truthy text then record { role = human; content = text } ∷ [] else []

unfoldable pub go_route :
    Services → World → SupervisorState → Option WorkerAgent → ScreenResult → String → Command
unfolding pass_trail restated
go_route s w state agent screened deferred_resumed =
    let r = screened.result in
    record {
      goto = route;
      state = record state {
        target_agent_id = id_of agent;
        deferred_request = none;
        messages = state.messages ++ restated deferred_resumed;
        guardrail_block_streak = 0;
        guardrail = some (record (guardrail_record true r.tier r.reason) {
          considered = screened.considered;
          retargeted = not (id_of agent == state.target_agent_id);
          contested = r.contested;
          additional_request = second_of r deferred_resumed;
        });
        audit_trail = state.audit_trail ++ pass_trail s w state agent screened deferred_resumed;
      };
    }

-- Everything after the screen, in the order of the source.
