-- ===== src/Nodes/Guardrails.antt =====
-- nodes/guardrails.py: the emergency stop, the held-over offer, the screen, and what is done with
-- its verdict.
mod Updates
pub mod Target
pub mod Streak
pub mod Exits
use supervisor_agent.Base.{
  ◌+◌, String, ◌<>◌, ◌==◌, Bool, true, false, not, ◌&&◌, Option, none, some, List, [], ◌∷◌, ◌++◌,
  map, keep, init, ltb, leb, is_empty, if◌then◌else◌,
}
use supervisor_agent.Base.Text.{strip, lower, truthy, join, decimal, prefix}
use supervisor_agent.Base.Result.{Exc, budget_exhausted, Result, ok, raised, Timed, then_timed}
use supervisor_agent.Governance.Rbac.{check}
use supervisor_agent.Governance.Deadline.{ensure}
use supervisor_agent.Governance.Retry.{exc_name, exc_text}
use supervisor_agent.Governance.OutputGuard.{scrub}
use supervisor_agent.Worker.Registry.{WorkerAgent, AgentRegistry, get_agent, agent_ids}
use supervisor_agent.Engine.Replies.{FollowupAnswer, accept, decline, neither, followup_answer}
use supervisor_agent.Engine.Screen.{
  small_talk, kill_switch, unavailable, tier_text, GuardrailResult, ScreenResult, screen,
}
use supervisor_agent.State.{
  human, Message, Entry, answer, blocked, escalated, error, guardrail_record, Deferred,
  SupervisorState, SupervisorContext,
}
use supervisor_agent.UserText.{
  block_streak_escalation_message, deferred_request_dropped, deterministic_escalation_message,
  governance_unavailable_message, join_names, sentence, small_talk_reply,
}
use supervisor_agent.Services.{Services, World, turn_deadline}
use supervisor_agent.Nodes.Turn.{
  Command, respond, route, entry, trail, latest_user_text, small_talk_seen, window, history_lines,
  excerpt,
}
use supervisor_agent.Nodes.Failsafes as Failsafes
use supervisor_agent.Nodes.Failsafes.{clarify_or_escalate}
unfoldable pub use Updates.*

-- `[found for found in (registry.get(a) for a in permitted) if found]`
pub found_agents : AgentRegistry → List String → List WorkerAgent
found_agents registry [] = []
found_agents registry (id ∷ ids) = elim (get_agent registry id) [
  | none ↦ found_agents registry ids
  | some agent ↦ agent ∷ found_agents registry ids
]

-- The ids that the caller may reach: the permitted set, or what the role map allows.
unfoldable pub permitted_ids : Services → SupervisorContext → List String
permitted_ids s context = elim context.permitted_agents [
  | some permitted ↦ permitted
  | none ↦ keep (λ a. (check s.rbac (strip context.user_role) a).allowed) (agent_ids s.registry)
]

unfoldable pub reachable_agents : Services → SupervisorContext → List WorkerAgent
unfolding found_agents
reachable_agents s context = found_agents s.registry (permitted_ids s context)

-- The addressed agent first.
unfoldable pub candidates_of : Option WorkerAgent → List WorkerAgent → List WorkerAgent
candidates_of none reachable = reachable
candidates_of (some addressed) reachable =
    addressed ∷ keep (λ a. not (a.id == addressed.id)) reachable

pub after_screen :
    Services
    → World
    → SupervisorState
    → Option WorkerAgent
    → List WorkerAgent
    → String
    → ScreenResult
    → Command
unfolding escalate_rule escalate_streak refuse chat ask go_route
after_screen s w state addressed reachable deferred_resumed screened =
    let r = screened.result in
    if not r.passed && r.escalate
    then escalate_rule w state r
    else if not r.passed
    then (if streak_reached s state
        then escalate_streak w state r
        else refuse s w state reachable screened)
    else if truthy r.small_talk
    then chat s w state reachable r
    else if truthy r.clarification
    then ask s w state (agent_of screened addressed) screened
    else go_route s w state (agent_of screened addressed) screened deferred_resumed

-- `except BudgetExhausted`, `except Exception`
pub held : World → SupervisorState → Exc → Command
unfolding fail_closed
held w state (budget_exhausted what spent budget) =
    Failsafes.budget_exhausted w state "guardrails" what spent budget
held w state e = fail_closed w state e

pub command_of :
    Services
    → World
    → SupervisorState
    → Option WorkerAgent
    → List WorkerAgent
    → String
    → Result ScreenResult
    → Command
unfolding after_screen held
command_of s w state addressed reachable deferred_resumed (ok screened) =
    after_screen s w state addressed reachable deferred_resumed screened
command_of s w state addressed reachable deferred_resumed (raised e) = held w state e

-- `history=_history_lines(window)[:-1]`
abbrev screen_history : Services → SupervisorState → List String
screen_history s state =
    init (history_lines s.guardrails.re (window s state.messages s.settings.history_max_tokens))

-- The screen of a query under the turn's deadline.
unfoldable pub run_screen :
    Services → SupervisorContext → World → SupervisorState → String → Timed ScreenResult
run_screen s context w state query =
    let d = turn_deadline s context w in
    then_timed (ensure "the guardrail screen" d w.now, w.now)
      (λ _ t.
        screen s.guardrails query
          (candidates_of (get_agent s.registry state.target_agent_id) (reachable_agents s context))
          (screen_history s state) (some d) t)

pub screened :
    Services → SupervisorContext → World → SupervisorState → String → String → Command × World
unfolding command_of run_screen
screened s context w state query deferred_resumed =
    let verdict = run_screen s context w state query in
    let w' : World = record w { now = verdict.1 } in
    (
      command_of s w state (get_agent s.registry state.target_agent_id) (reachable_agents s context)
          deferred_resumed verdict.0,
      w',
    )

pub after_offer :
    Services → SupervisorContext → World → SupervisorState → String → Offer → Command × World
unfolding drop_offer screened
after_offer s context w state query (dropped text) = (drop_offer s w state text, w)
after_offer s context w state query (resumed text) = screened s context w state text text
after_offer s context w state query no_offer = screened s context w state query ""

unfoldable pub guardrails : Services → SupervisorContext → World → SupervisorState → Command × World
unfolding after_offer kill_stop
guardrails s context w state =
    if truthy s.guardrails.kill_switch_message
    then (kill_stop w state s.guardrails.kill_switch_message, w)
    else let query = latest_user_text state.messages in
      after_offer s context w state query (read_offer s state.deferred_request query)
