-- ===== src/Nodes/Dispatch.antt =====
-- nodes/dispatch.py: the call of the worker, screened both ways, and the artifact that is staged for
-- sign-off.
mod Updates
pub mod Release
pub mod Exits
use supervisor_agent.Base.{
  String, ◌<>◌, Bool, true, false, not, ◌||◌, Option, none, some, List, [], ◌∷◌, ◌++◌, map, ltb,
  count, is_empty, if◌then◌else◌,
}
use supervisor_agent.Base.Text.{strip, rstrip, truthy, decimal}
use supervisor_agent.Base.Dict.{Dict}
use supervisor_agent.Base.Result.{Exc, budget_exhausted, worker_unavailable, Result, ok, raised}
use supervisor_agent.Governance.Deadline.{ensure}
use supervisor_agent.Governance.Retry.{exc_name, exc_text}
use supervisor_agent.Governance.Sanitize as Sanitize
use supervisor_agent.Governance.Sanitize.{CleanOutput, clean_worker_output}
use supervisor_agent.Governance.OutputGuard as Guard
use supervisor_agent.Governance.OutputGuard.{OutputGuard, OutputScreenResult, screen, relay}
use supervisor_agent.Worker.Json.{Json, null, str, truthy_json, json_text}
use supervisor_agent.Worker.Registry.{WorkerAgent, get_agent, approval_reason}
use supervisor_agent.Worker.Response.{
  WorkerResponse, WorkerStatus, completed, approval_pending, status_text,
}
use supervisor_agent.Worker.Client.{Called}
use supervisor_agent.Engine.Screen.{deterministic_block}
use supervisor_agent.State.{
  at, Entry, Outcome, answer, blocked, escalated, error, Deferred, SupervisorState,
  SupervisorContext,
}
use supervisor_agent.UserText.{
  carried_context_notice, deferred_request_offer, deferred_request_refused, generic_error,
  output_escalated_message, output_withheld_message, sensitive_input_notice,
  worker_unavailable_message, context_prose, sensitive_prose, distinct_from,
}
use supervisor_agent.Services.{Services, World, WorkerCall, turn_deadline}
use supervisor_agent.Nodes.Turn.{
  when, Command, respond, approval, RelayScreen, relay_modified, relay_detail, worker_messages,
  clean_sources, entry, trail, excerpt, latest_user_text, window,
}
use supervisor_agent.Nodes.Failsafes as Failsafes
unfoldable pub use Updates.*

pub deliver :
    Services
    → World
    → SupervisorState
    → WorkerAgent
    → WorkerResponse
    → String
    → List Entry
    → Command
unfolding with_notices second_text second_entries second_deferred
deliver s w state agent resp text more =
    let second = second_of s state in
    let final = second_text s state second (with_notices s state text) in
    record {
      goto = respond;
      state = record (consumed state) {
        pending_approval = none;
        deferred_request = second_deferred state second;
        worker_response = some (record { status = status_text resp.status; stage = resp.stage });
        outcome = answer;
        final_text = final;
        sources = clean_sources s.guardrails.re s.output_guard resp.sources;
        audit_trail =
            trail w state "dispatch" "completed"
              (decimal (count final) <> (" chars from " <> agent.id))
            ++ (more ++ second_entries s w state second);
      };
    }

pub mandated_for : Services → SupervisorState → WorkerAgent → String
mandated_for s state agent =
    approval_reason s.guardrails.re (some agent) (latest_user_text state.messages)

-- After the output guard has let the text through.
pub release :
    Services
    → World
    → SupervisorState
    → WorkerAgent
    → WorkerResponse
    → OutputScreenResult
    → List Entry
    → Command
unfolding stage_artifact empty_response deliver mandated_for when
release s w state agent resp guarded more =
    let mandated = mandated_for s state agent in
    let more' =
      more
      ++ when (Guard.modified guarded)
          (entry w "output_guard" "masked" (Guard.audit_detail guarded)) in
    if wants_approval resp.status || truthy mandated
    then stage_artifact s w state agent resp guarded.text mandated more'
    else if not (truthy guarded.text)
    then empty_response w state
    else deliver s w state agent resp guarded.text more'

unfoldable pub cleaned_of : Services → WorkerResponse → CleanOutput
cleaned_of s resp = clean_worker_output s.guardrails.re resp.text s.settings.worker_output_max_chars

-- Everything after the worker has replied.
unfoldable pub after_worker :
    Services → World → SupervisorState → WorkerAgent → WorkerResponse → Command
unfolding release withhold output_trail
after_worker s w state agent resp =
    let cleaned = cleaned_of s resp in
    let guarded = screen s.output_guard cleaned.text in
    let more = output_trail s w state cleaned in
    if Guard.escalates guarded
    then withhold w state resp escalated output_escalated_message "escalated"
        (Guard.audit_detail guarded <> " — recorded for a human reviewer") more
    else if Guard.blocked guarded
    then withhold w state resp blocked output_withheld_message "withheld"
        (Guard.audit_detail guarded) more
    else release s w state agent resp guarded more

of_reply : Services → World → SupervisorState → WorkerAgent → Result WorkerResponse → Command
of_reply s w state agent (ok resp) = after_worker s w state agent resp
of_reply s w state agent (raised e) = dispatch_failed w state e

abbrev not_called : World → Exc → Called
not_called w e = record { reply = raised e; breaker = w.breaker; now = w.now }

-- `deadline.ensure(...)` and the call of the client.
unfoldable pub call_worker :
    Services → SupervisorContext → World → SupervisorState → WorkerAgent → Called
call_worker s context w state agent =
    elim (ensure ("dispatch to " <> agent.id) (turn_deadline s context w) w.now) [
      | raised e ↦ not_called w e
      | ok _ ↦ s.workers (call_of s context w state agent) w.breaker w.now
    ]

-- As in `Route.route`, an unknown target does not reach this stage.
unfoldable pub dispatch : Services → SupervisorContext → World → SupervisorState → Command × World
unfolding of_reply
dispatch s context w state = elim (get_agent s.registry state.target_agent_id) [
  | none ↦ (record { goto = respond; state = state }, w)
  | some agent ↦
      let called = call_worker s context w state agent in
      (
        of_reply s w state agent called.reply,
        record w { breaker = called.breaker; now = called.now },
      )
]
