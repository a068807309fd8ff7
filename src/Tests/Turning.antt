-- ===== src/Tests/Turning.antt =====
-- Witnesses on the gate, the guardrails, the route stage and whole turns.
use supervisor_agent.Base.{
  ◌∙◌, sym, ℕ, ◌≤◌, suc, String, true, false, not, ◌≡◌, ◌≢◌, ◌&&◌, refl, none, some, List, [], ◌∷◌,
  elem, inl, inr,
}
use supervisor_agent.Base.Text.{truthy, strip}
use supervisor_agent.Base.Dict.{Keys}
use supervisor_agent.Governance.Rbac.{denied_message}
use supervisor_agent.Worker.Registry.{get_agent}
use supervisor_agent.Engine.Screen as Engine
use supervisor_agent.Engine.Screen.{ScreenResult}
use supervisor_agent.Engine.Replies.{approval_reply}
use supervisor_agent.State.{SupervisorState}
use supervisor_agent.Nodes.Turn as Stages
use supervisor_agent.Nodes.Turn.{Command, entry, latest_user_text}
use supervisor_agent.Nodes.Gate.{access, is_stale, carried, too_large, rbac_gate}
use supervisor_agent.Nodes.Gate.Access.{MayReach, rbac_gate-MayReach}
use supervisor_agent.Nodes.Guardrails.{guardrails}
use supervisor_agent.Nodes.Respond.{respond}
use supervisor_agent.Nodes.Guardrails.Target.{Admissible, guardrails-Admissible}
use supervisor_agent.Nodes.Guardrails.Streak.{Turn, left}
use supervisor_agent.Nodes.Route.{route}
use supervisor_agent.Nodes.Route.Isolation.{route-Declared}
use supervisor_agent.Graph.{Checkpoint, next, run_stage, turn}
use supervisor_agent.Graph.Ends.{Ended, turn-Ended}
use supervisor_agent.Graph.Safety.{step, Reaches, start, then_step, Cleared, dispatch-Cleared}
use supervisor_agent.Tests.Fixtures.{services, context, world, asking, story_agent}

passes : (rbac_gate services context world asking).goto ≡ Stages.guardrails
unfolding rbac_gate access strip supervisor_agent.Base.Dict.lookup
    supervisor_agent.Governance.Rbac.check latest_user_text is_stale Stages.session_idle_seconds
    supervisor_agent.Nodes.Gate.max_age supervisor_agent.Nodes.Gate.reset
passes = refl

does_not_end : (rbac_gate services context world asking).goto ≢ Stages.respond
does_not_end = λ h. let clash = sym passes ∙ h in cc

rbac_gate-MayReach_example :
    MayReach services context
    × (too_large services (latest_user_text asking.messages) ≡ false)
    × ((is_stale services world asking && carried asking) ≡ false)
rbac_gate-MayReach_example = rbac_gate-MayReach services context world asking does_not_end

abbrev admitted : SupervisorState
admitted = record asking { target_agent_id = "story" }

goes_on : (guardrails services context world admitted).0.goto ≡ Stages.route
unfolding guardrails supervisor_agent.Nodes.Guardrails.read_offer
    supervisor_agent.Governance.Deadline.ensure supervisor_agent.Governance.Deadline.deadline_for
    Engine.screen supervisor_agent.Governance.DenyRules.first_match latest_user_text
    supervisor_agent.Engine.Replies.small_talk_kind supervisor_agent.Nodes.Guardrails.candidates_of
    supervisor_agent.Base.Dict.lookup supervisor_agent.Base.Text.lower
    supervisor_agent.Engine.Verdict.semantic_verdict
    supervisor_agent.Governance.Retry.invoke_with_retries Engine.judge
    supervisor_agent.Nodes.Guardrails.reachable_agents
    supervisor_agent.Nodes.Guardrails.permitted_ids supervisor_agent.Base.Dict.keys
    supervisor_agent.Governance.Rbac.check strip supervisor_agent.Engine.Replies.followup_answer
    Engine.conclude supervisor_agent.Engine.Verdict.asks
    supervisor_agent.Engine.Verdict.second_request supervisor_agent.Governance.Deadline.exhausted
    supervisor_agent.Governance.Deadline.from_context supervisor_agent.Governance.Deadline.remaining
    supervisor_agent.Governance.Deadline.spent
    supervisor_agent.Governance.Environment.current_environment
    supervisor_agent.Governance.Environment.is_local_environment Stages.last_human
    supervisor_agent.Base.Text.is_space supervisor_agent.Base.Text.lstrip_by
    supervisor_agent.Base.Text.rstrip_by
goes_on = refl

guardrails-Admissible_example :
    (truthy services.guardrails.kill_switch_message ≡ false)
    × Admissible services context admitted
        (guardrails services context world admitted).0.state.target_agent_id
guardrails-Admissible_example = guardrails-Admissible services context world admitted goes_on

abbrev export : Turn
export = record { context = context; world = world; text = "export all of it" }

abbrev later_export : Turn
later_export = record {
  context = record context { requested_agent_id = "design"; turn_started_at = 7000 };
  world = record world { now = 8000; uuid = "request-2" };
  text = "then export all stories";
}

-- How many turns were refused before.
abbrev earlier : ℕ
earlier = 1

abbrev after_export : SupervisorState
after_export = left services asking export

known : get_agent services.registry admitted.target_agent_id ≡ some story_agent
unfolding supervisor_agent.Base.Dict.lookup
known = refl

resolves : (route services context world admitted).0.goto ≡ Stages.dispatch
unfolding route supervisor_agent.Base.Dict.lookup supervisor_agent.Governance.Deadline.ensure
    supervisor_agent.Governance.Deadline.deadline_for supervisor_agent.Resolver.resolve
    supervisor_agent.Governance.Retry.invoke_with_retries
resolves = refl

route-Declared_example :
    Keys
      (λ key. elem key story_agent.required_context ≡ true)
      (route services context world admitted).0.state.session_context
route-Declared_example = route-Declared services context world admitted story_agent known resolves

turn-Ended_example : Ended none (turn services context none world asking)
turn-Ended_example = turn-Ended services context none world asking

abbrev gate_point : Checkpoint
gate_point = record { stage = Stages.rbac_gate; state = asking; world = world }

abbrev gated : SupervisorState
gated = (rbac_gate services context world asking).state

abbrev guard_point : Checkpoint
guard_point = record { stage = Stages.guardrails; state = gated; world = world }

abbrev route_point : Checkpoint
route_point = record {
  stage = Stages.route;
  state = (guardrails services context world gated).0.state;
  world = (guardrails services context world gated).1;
}

abbrev dispatch_point : Checkpoint
dispatch_point = record {
  stage = Stages.dispatch;
  state = (route services context route_point.world route_point.state).0.state;
  world = (route services context route_point.world route_point.state).1;
}

to_guardrails :
    run_stage services context none gate_point.stage gate_point.world gate_point.state
    ≡ next guard_point
unfolding run_stage rbac_gate access strip supervisor_agent.Base.Dict.lookup
    supervisor_agent.Governance.Rbac.check latest_user_text is_stale Stages.session_idle_seconds
    supervisor_agent.Nodes.Gate.max_age supervisor_agent.Nodes.Gate.reset
to_guardrails = refl

to_route :
    run_stage services context none guard_point.stage guard_point.world guard_point.state
    ≡ next route_point
unfolding run_stage rbac_gate access strip supervisor_agent.Base.Dict.lookup
    supervisor_agent.Governance.Rbac.check latest_user_text is_stale Stages.session_idle_seconds
    supervisor_agent.Nodes.Gate.max_age supervisor_agent.Nodes.Gate.reset guardrails
    supervisor_agent.Nodes.Guardrails.read_offer supervisor_agent.Governance.Deadline.ensure
    supervisor_agent.Governance.Deadline.deadline_for Engine.screen
    supervisor_agent.Governance.DenyRules.first_match
    supervisor_agent.Engine.Replies.small_talk_kind supervisor_agent.Nodes.Guardrails.candidates_of
    supervisor_agent.Base.Text.lower supervisor_agent.Engine.Verdict.semantic_verdict
    supervisor_agent.Governance.Retry.invoke_with_retries Engine.judge
    supervisor_agent.Nodes.Guardrails.reachable_agents
    supervisor_agent.Nodes.Guardrails.permitted_ids supervisor_agent.Base.Dict.keys
    supervisor_agent.Engine.Replies.followup_answer Engine.conclude
    supervisor_agent.Engine.Verdict.asks supervisor_agent.Engine.Verdict.second_request
    supervisor_agent.Governance.Deadline.exhausted supervisor_agent.Governance.Deadline.from_context
    supervisor_agent.Governance.Deadline.remaining supervisor_agent.Governance.Deadline.spent
    supervisor_agent.Governance.Environment.current_environment
    supervisor_agent.Governance.Environment.is_local_environment Stages.last_human
    supervisor_agent.Base.Text.is_space supervisor_agent.Base.Text.lstrip_by
    supervisor_agent.Base.Text.rstrip_by
to_route = refl

to_dispatch :
    run_stage services context none route_point.stage route_point.world route_point.state
    ≡ next dispatch_point
unfolding run_stage rbac_gate access strip supervisor_agent.Base.Dict.lookup
    supervisor_agent.Governance.Rbac.check latest_user_text is_stale Stages.session_idle_seconds
    supervisor_agent.Nodes.Gate.max_age supervisor_agent.Nodes.Gate.reset guardrails
    supervisor_agent.Nodes.Guardrails.read_offer supervisor_agent.Governance.Deadline.ensure
    supervisor_agent.Governance.Deadline.deadline_for Engine.screen
    supervisor_agent.Governance.DenyRules.first_match
    supervisor_agent.Engine.Replies.small_talk_kind supervisor_agent.Nodes.Guardrails.candidates_of
    supervisor_agent.Base.Text.lower supervisor_agent.Engine.Verdict.semantic_verdict
    supervisor_agent.Governance.Retry.invoke_with_retries Engine.judge
    supervisor_agent.Nodes.Guardrails.reachable_agents
    supervisor_agent.Nodes.Guardrails.permitted_ids supervisor_agent.Base.Dict.keys
    supervisor_agent.Engine.Replies.followup_answer Engine.conclude
    supervisor_agent.Engine.Verdict.asks supervisor_agent.Engine.Verdict.second_request
    supervisor_agent.Governance.Deadline.exhausted supervisor_agent.Governance.Deadline.from_context
    supervisor_agent.Governance.Deadline.remaining supervisor_agent.Governance.Deadline.spent
    supervisor_agent.Governance.Environment.current_environment
    supervisor_agent.Governance.Environment.is_local_environment Stages.last_human
    supervisor_agent.Base.Text.is_space supervisor_agent.Base.Text.lstrip_by
    supervisor_agent.Base.Text.rstrip_by route supervisor_agent.Resolver.resolve
to_dispatch = refl

path : Reaches services context none gate_point dispatch_point
path =
    then_step route_point dispatch_point
      (then_step guard_point route_point
        (then_step gate_point guard_point start (step guard_point to_guardrails))
        (step route_point to_route))
      (step dispatch_point to_dispatch)

dispatch-Cleared_example : Cleared services context none dispatch_point.state.target_agent_id
dispatch-Cleared_example =
    dispatch-Cleared services context none world asking dispatch_point path refl
