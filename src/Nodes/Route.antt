-- ===== src/Nodes/Route.antt =====
-- nodes/route.py: the context that the worker needs, from the session and the long-term store, or a
-- clarifying question.
pub mod Isolation
pub mod Exits
use supervisor_agent.Base.{
  String, ◌<>◌, ◌==◌, Bool, true, false, not, ◌&&◌, Option, none, some, List, [], ◌∷◌, ◌++◌, elem,
  is_empty, if◌then◌else◌,
}
use supervisor_agent.Base.Text.{join}
use supervisor_agent.Base.Dict.{Dict, lookup, keys, merge, restrict}
use supervisor_agent.Base.Result.{Exc, budget_exhausted, Result, ok, raised, Timed, then_timed}
use supervisor_agent.Governance.Deadline.{ensure}
use supervisor_agent.Governance.Retry.{exc_name}
use supervisor_agent.Worker.Registry.{WorkerAgent, get_agent}
use supervisor_agent.State.{Entry, error, SupervisorState, SupervisorContext}
use supervisor_agent.Memory.{MemoryWrite, get_context, save_context}
use supervisor_agent.Resolver.{RouteResult, resolve}
use supervisor_agent.UserText.{governance_unavailable_message}
use supervisor_agent.Services.{Services, World, turn_deadline}
use supervisor_agent.Nodes.Turn.{Command, respond, dispatch, entry, trail, window, history_lines}
use supervisor_agent.Nodes.Failsafes as Failsafes
use supervisor_agent.Nodes.Failsafes.{clarify_or_escalate}

-- The context of this conversation, narrowed to the keys that the agent declares.
unfoldable pub session_of : WorkerAgent → SupervisorState → Dict String
session_of agent state =
    restrict (λ key value. elem key agent.required_context) state.session_context

-- What the long-term store remembers; a read that fails is empty.
unfoldable pub remembered_of : Services → SupervisorContext → World → WorkerAgent → Dict String
remembered_of s context w agent =
    if w.store_reads
    then get_context s.memory_keys s.memory_ttl w.store context.user_key
        (some agent.required_context) w.wall
    else []

-- `{k: v for k, v in remembered.items() if k not in session_context}`
abbrev pub seeded_of : Dict String → Dict String → Dict String
seeded_of session remembered = restrict (λ key value. not (elem key (keys session))) remembered

pub run_resolver :
    Services → SupervisorContext → World → SupervisorState → WorkerAgent → Timed RouteResult
run_resolver s context w state agent =
    let d = turn_deadline s context w in
    let session = session_of agent state in
    let remembered = remembered_of s context w agent in
    then_timed (ensure "context resolution" d w.now, w.now)
      (λ _ t.
        resolve s.route_model s.route_attempts agent
          (history_lines s.guardrails.re (window s state.messages s.settings.history_max_tokens))
          (merge remembered session) (some d) (seeded_of session remembered) t)

fail_closed : World → SupervisorState → Exc → Command
fail_closed w state e = record {
  goto = respond;
  state = record state {
    outcome = error;
    final_text = governance_unavailable_message;
    audit_trail =
        trail w state "route" "fail_closed"
          ("context resolution unavailable (" <> (exc_name e <> ") — request held"));
  };
}

pub held : World → SupervisorState → Exc → Command
unfolding fail_closed
held w state (budget_exhausted what spent budget) =
    Failsafes.budget_exhausted w state "route" what spent budget
held w state e = fail_closed w state e

-- The write to the long-term store, and what it stored or refused.
pub remember : Services → SupervisorContext → World → Dict String → Option MemoryWrite × World
remember s context w resolved =
    let (write, store) =
      save_context s.memory_keys s.memory_ttl w.store context.user_key resolved w.wall in
    if w.store_reads && w.store_writes then (some write, record w { store = store }) else (none, w)

when : Bool → Entry → List Entry
when true e = e ∷ []
when false e = []

write_entries : Services → World → Option MemoryWrite → List Entry
write_entries s w none = entry w "memory" "error" "long-term memory write failed" ∷ []
write_entries s w (some write) =
    when (not (is_empty write.stored))
      (entry w "memory" "persisted" ("long-term context: " <> s.dict_text write.stored))
    ++ when (not (is_empty write.rejected)) (
        entry w "memory" "refused"
          ("unvalidated long-term context refused: " <> s.dict_text write.rejected))

-- `result.resolved_context.get(k) == v`
abbrev holds : Dict String → String → String → Bool
holds d key value = elim (lookup key d) [ none ↦ false | some v ↦ v == value ]

-- The seed that shaped this dispatch.
unfoldable pub used_seed_of : Dict String → RouteResult → Dict String
used_seed_of seeded r =
    restrict (λ key value. not (elem key r.dropped_context) && holds r.resolved_context key value)
      seeded

-- What is pinned to this conversation.
unfoldable pub pinned_of : WorkerAgent → Dict String → RouteResult → Dict String
pinned_of agent session r =
    merge (restrict (λ key value. not (elem key r.dropped_context)) session)
      (restrict (λ key value. elem key agent.required_context) r.resolved_context)

memory_trail :
    Services → World → Dict String → Dict String → RouteResult → Option MemoryWrite → List Entry
unfolding write_entries when
memory_trail s w session seeded r write =
    when (not (is_empty session)) (
      entry w "memory" "session"
        ("context this conversation already resolved: " <> s.dict_text session))
    ++ (when (not (is_empty r.dropped_context)) (
          entry w "memory" "dropped" (
            "carried context discarded — this request is about a different subject: "
            <> join ", " r.dropped_context))
        ++ (when (not (is_empty seeded)) (
              entry w "memory" "seeded"
                ("long-term context seeded into a new conversation: " <> s.dict_text seeded))
            ++ (write_entries s w write
                ++ when (not (is_empty (used_seed_of seeded r))) (
                    entry w "memory" "carried" (
                      "dispatched on context carried from an earlier conversation, and said so in the reply: "
                      <> s.dict_text (used_seed_of seeded r))))))

route_detail : Services → RouteResult → String
route_detail s r =
    if r.context_applies
    then "resolved context: " <> s.dict_text r.resolved_context
    else "request does not depend on the agent's required context"

pub go_dispatch :
    Services
    → SupervisorContext
    → World
    → SupervisorState
    → WorkerAgent
    → RouteResult
    → Option MemoryWrite
    → Command
unfolding memory_trail route_detail
go_dispatch s context w state agent r write =
    let session = session_of agent state in
    let seeded = seeded_of session (remembered_of s context w agent) in
    record {
      goto = dispatch;
      state = record state {
        route = some (record {
          next = "dispatch";
          resolved_context = r.resolved_context;
          carried_over = used_seed_of seeded r;
          dropped_context = r.dropped_context;
        });
        session_context = pinned_of agent session r;
        clarification_count = 0;
        pending_clarification = none;
        audit_trail =
            trail w state "route" "dispatch" (route_detail s r)
            ++ memory_trail s w session seeded r write;
      };
    }

abbrev question_text : Option String → String
question_text none = ""
question_text (some q) = q

pub ask : Services → World → SupervisorState → RouteResult → Command
ask s w state r =
    clarify_or_escalate s w state "route" (question_text r.clarifying_question) (record state {
      route = some (record {
        next = "respond";
        resolved_context = r.resolved_context;
        carried_over = [];
        dropped_context = [];
      });
    })

pub after_resolver :
    Services
    → SupervisorContext
    → World
    → World
    → SupervisorState
    → WorkerAgent
    → Result RouteResult
    → Command × World
unfolding go_dispatch held ask remember
after_resolver s context w w' state agent (raised e) = (held w state e, w')
after_resolver s context w w' state agent (ok r) =
    let (write, stored) = remember s context w' r.resolved_context in
    if r.ready then (go_dispatch s context w state agent r write, stored) else (ask s w state r, w')

-- A target that the registry does not know raises in the source; the earlier stages have made
-- sure of it, and the turn stays here.
unfoldable pub route : Services → SupervisorContext → World → SupervisorState → Command × World
unfolding after_resolver run_resolver
route s context w state = elim (get_agent s.registry state.target_agent_id) [
  | none ↦ (record { goto = respond; state = state }, w)
  | some agent ↦
      let result = run_resolver s context w state agent in
      after_resolver s context w (record w { now = result.1 }) state agent result.0
]
