-- ===== src/Nodes/Dispatch/Updates.antt =====
-- nodes/dispatch.py: what is relayed to a worker, and the updates of the state on each exit.
use supervisor_agent.Base.{
  String, ◌<>◌, Bool, true, false, not, ◌||◌, Option, none, some, List, [], ◌∷◌, ◌++◌, map, ltb,
  is_empty, if◌then◌else◌,
}
use supervisor_agent.Base.Text.{strip, rstrip, truthy}
use supervisor_agent.Base.Dict.{Dict}
use supervisor_agent.Base.Result.{Exc, budget_exhausted, worker_unavailable}
use supervisor_agent.Governance.Retry.{exc_name, exc_text}
use supervisor_agent.Governance.Sanitize as Sanitize
use supervisor_agent.Governance.Sanitize.{CleanOutput, clean_worker_output}
use supervisor_agent.Governance.OutputGuard.{OutputGuard, relay}
use supervisor_agent.Worker.Json.{Json, null, str, truthy_json, json_text}
use supervisor_agent.Worker.Registry.{WorkerAgent}
use supervisor_agent.Worker.Response.{
  WorkerResponse, WorkerStatus, completed, approval_pending, status_text,
}
use supervisor_agent.Engine.Screen.{deterministic_block}
use supervisor_agent.State.{at, Entry, Outcome, error, Deferred, SupervisorState, SupervisorContext}
use supervisor_agent.UserText.{
  carried_context_notice, deferred_request_offer, deferred_request_refused, generic_error,
  sensitive_input_notice, worker_unavailable_message, context_prose, sensitive_prose, distinct_from,
}
use supervisor_agent.Services.{Services, World, WorkerCall, turn_deadline}
use supervisor_agent.Nodes.Turn.{
  when, Command, respond, approval, RelayScreen, relay_modified, relay_detail, worker_messages,
  clean_sources, entry, trail, excerpt, window,
}
use supervisor_agent.Nodes.Failsafes as Failsafes

-- The relay screen of the conversation.
pub relay_of : Services → SupervisorState → RelayScreen
relay_of s state =
    worker_messages s.guardrails.re s.output_guard
      (window s state.messages s.settings.worker_history_max_tokens)

-- The resolved context of the route record.
abbrev resolved_of : SupervisorState → Dict String
resolved_of state = elim state.route [ none ↦ [] | some r ↦ r.resolved_context ]

abbrev carried_over_of : SupervisorState → Dict String
carried_over_of state = elim state.route [ none ↦ [] | some r ↦ r.carried_over ]

abbrev additional_of : SupervisorState → String
additional_of state = elim state.guardrail [ none ↦ "" | some g ↦ strip g.additional_request ]

-- The context as it is relayed, and the labels of what was masked in it.
pub screened_context : OutputGuard → Dict String → Dict String × List String
screened_context g [] = ([], [])
screened_context g ((key, value) ∷ rest) =
    let screened = relay g value in
    let others = screened_context g rest in
    ((key, screened.0) ∷ others.0, map (λ f. f.label) screened.1 ++ others.1)

abbrev relay_masked : Services → SupervisorState → List String
relay_masked s state =
    (relay_of s state).masked ++ (screened_context s.output_guard (resolved_of state)).1

abbrev context_of : Services → SupervisorState → Dict String
context_of s state = (screened_context s.output_guard (resolved_of state)).0

pub call_of : Services → SupervisorContext → World → SupervisorState → WorkerAgent → WorkerCall
call_of s context w state agent = record {
  agent = agent;
  messages = (relay_of s state).messages;
  context = context_of s state;
  conversation_id = state.conversation_id;
  user_role = context.user_role;
  trace =
      ("correlation_id", context.correlation_id)
      ∷ ("request_id", state.request_id)
      ∷ ("agent_id", agent.id)
      ∷ ("environment", context.environment)
      ∷ ("pseudonymous_user_reference", context.user_key)
      ∷ [];
  deadline = some (turn_deadline s context w);
  signoff = state.last_signoff;
}

-- `consumed`: a sign-off that was relayed is cleared.
abbrev pub consumed : SupervisorState → SupervisorState
consumed state = record state { last_signoff = none }

unfoldable pub failed : World → SupervisorState → String → String → String → Command
failed w state text decision detail = record {
  goto = respond;
  state = record state {
    outcome = error;
    final_text = text;
    audit_trail = trail w state "dispatch" decision detail;
  };
}

-- The three `except` clauses.
unfoldable pub dispatch_failed : World → SupervisorState → Exc → Command
unfolding failed
dispatch_failed w state (budget_exhausted what spent budget) =
    Failsafes.budget_exhausted w state "dispatch" what spent budget
dispatch_failed w state (worker_unavailable text) =
    failed w state worker_unavailable_message "unavailable" ("worker unavailable: " <> text)
dispatch_failed w state e =
    failed w state generic_error "error" (exc_name e <> (": " <> exc_text e))

-- `output_trail` before the guard.
unfoldable pub output_trail : Services → World → SupervisorState → CleanOutput → List Entry
unfolding when
output_trail s w state cleaned =
    let r = relay_of s state in
    when (relay_modified r || not (is_empty (relay_masked s state))) (
      entry w "dispatch" "relay_screened"
        (relay_detail (distinct_from []) (record r { masked = relay_masked s state })))
    ++ when (Sanitize.modified cleaned || ltb 0 cleaned.code_blocks)
        (entry w "dispatch" "output_sanitized" (Sanitize.audit_detail cleaned))

unfoldable pub withhold :
    World
    → SupervisorState
    → WorkerResponse
    → Outcome
    → String
    → String
    → String
    → List Entry
    → Command
withhold w state resp outcome text decision detail more = record {
  goto = respond;
  state = record (consumed state) {
    pending_approval = none;
    worker_response = some (record { status = status_text resp.status; stage = resp.stage });
    outcome = outcome;
    final_text = text;
    audit_trail = trail w state "output_guard" decision detail ++ more;
  };
}

abbrev pub wants_approval : WorkerStatus → Bool
wants_approval approval_pending = true
wants_approval completed = false

-- `resp.stage or ("review" if mandated else None)`
abbrev stage_of : WorkerResponse → String → Json
stage_of resp mandated =
    if truthy_json resp.stage then resp.stage else if truthy mandated then str "review" else null

stage_text : Json → String
stage_text stage = json_text (λ j. "…") stage

stage_detail : WorkerAgent → WorkerResponse → String → String
unfolding stage_text
stage_detail agent resp mandated =
    "stage: "
    <> (stage_text (stage_of resp mandated)
        <> (if truthy mandated
            then " — required by the supervisor ("
              <> (agent.risk_level
                  <> (" risk): "
                      <> (mandated
                          <> (if wants_approval resp.status
                              then ""
                              else "; worker did not request one"))))
            else ""))

unfoldable pub stage_artifact :
    Services
    → World
    → SupervisorState
    → WorkerAgent
    → WorkerResponse
    → String
    → String
    → List Entry
    → Command
unfolding stage_detail
stage_artifact s w state agent resp text mandated more = record {
  goto = approval;
  state = record (consumed state) {
    pending_approval = some (record {
      agent_id = agent.id;
      agent_name = agent.name;
      stage = stage_of resp mandated;
      artifact = text;
      context = context_of s state;
      staged_at = some (at w.wall);
      required_because = mandated;
      risk_level = agent.risk_level;
    });
    worker_response = some (record { status = "approval_pending"; stage = stage_of resp mandated });
    sources = clean_sources s.guardrails.re s.output_guard resp.sources;
    audit_trail =
        trail w state "dispatch" "approval_pending" (stage_detail agent resp mandated) ++ more;
  };
}

unfoldable pub empty_response : World → SupervisorState → Command
empty_response w state = record {
  goto = respond;
  state = record (consumed state) {
    pending_approval = none;
    outcome = error;
    final_text = generic_error;
    audit_trail = trail w state "dispatch" "invalid_response" "worker returned an empty response";
  };
}

-- The notices under an answer: what was masked, what was carried over.
unfoldable pub with_notices : Services → SupervisorState → String → String
with_notices s state text =
    let masked = relay_masked s state in
    let noted =
      if is_empty masked
      then text
      else rstrip text <> ("\n\n" <> sensitive_input_notice (sensitive_prose masked)) in
    if is_empty (carried_over_of state)
    then noted
    else rstrip noted <> carried_context_notice (context_prose (carried_over_of state))

-- The second task of the message: nothing, a refusal with its reason, or an offer.
pub data Second : Type 0 where
  no_second : Second
  refused : String → Second
  offered : Second

pub second_of : Services → SupervisorState → Second
second_of s state =
    let additional = additional_of state in
    let reason = deterministic_block s.guardrails additional in
    if not (truthy additional) then no_second else if truthy reason then refused reason else offered

unfoldable pub second_text : Services → SupervisorState → Second → String → String
second_text s state no_second text = text
second_text s state (refused reason) text =
    rstrip text
    <> deferred_request_refused
        (excerpt s.guardrails.re s.output_guard.matches (additional_of state)) reason
second_text s state offered text =
    rstrip text
    <> deferred_request_offer (excerpt s.guardrails.re s.output_guard.matches (additional_of state))

unfoldable pub second_entries : Services → World → SupervisorState → Second → List Entry
second_entries s w state no_second = []
second_entries s w state (refused reason) =
    entry w "guardrails" "second_request_refused" (
      "held request not offered — "
      <> (reason <> (": " <> excerpt s.guardrails.re s.output_guard.matches (additional_of state))))
    ∷ []
second_entries s w state offered =
    entry w "guardrails" "second_request_offered" (
      "held for the user's confirmation: "
      <> excerpt s.guardrails.re s.output_guard.matches (additional_of state))
    ∷ []

-- `deferred_update`
unfoldable pub second_deferred : SupervisorState → Second → Option Deferred
second_deferred state offered =
    some (record { text = additional_of state; asked_at = state.request_id })
second_deferred state no_second = state.deferred_request
second_deferred state (refused reason) = state.deferred_request
