-- ===== src/Nodes/Guardrails/Exits.antt =====
-- nodes/guardrails.py: where the guardrails may send a turn.
use supervisor_agent.Base.{arith, String, ◌≡◌, refl, ◌⊎◌, inl, Option, by_test, List}
use supervisor_agent.Base.Text.{truthy}
use supervisor_agent.Base.Result.{Result, ok, raised}
use supervisor_agent.Worker.Registry.{WorkerAgent}
use supervisor_agent.Engine.Screen.{ScreenResult}
use supervisor_agent.State.{SupervisorState, SupervisorContext}
use supervisor_agent.Services.{Services, World}
use supervisor_agent.Nodes.Turn.{Command, latest_user_text, route, respond}
use supervisor_agent.Nodes.Guardrails.{
  kill_stop, Offer, no_offer, resumed, dropped, read_offer, drop_offer, escalate_rule,
  escalate_streak, refuse, chat, agent_of, go_route, after_screen, command_of, screened,
  after_offer, guardrails,
}
use supervisor_agent.Nodes.Guardrails.Target.{ask-respond, held-respond}

abbrev OnOrOut : Command → Type 0
OnOrOut c = (c.goto ≡ respond) ⊎ (c.goto ≡ route)

command_of-OnOrOut :
    (s : Services) (w : World) (state : SupervisorState) (addressed : Option WorkerAgent)
    (reachable : List WorkerAgent) (deferred_resumed : String) (v : Result ScreenResult)
    → OnOrOut (command_of s w state addressed reachable deferred_resumed v)
unfolding command_of after_screen escalate_rule escalate_streak refuse chat go_route
command_of-OnOrOut s w state addressed reachable deferred_resumed (ok r) =
    let asked = ask-respond s w state (agent_of r addressed) r in ground arith
command_of-OnOrOut s w state addressed reachable deferred_resumed (raised e) =
    inl (held-respond w state e)

after_offer-OnOrOut :
    (s : Services) (context : SupervisorContext) (w : World) (state : SupervisorState)
    (query : String) (offer : Offer)
    → OnOrOut (after_offer s context w state query offer).0
unfolding after_offer screened drop_offer
after_offer-OnOrOut s context w state query (dropped text) = inl refl
after_offer-OnOrOut s context w state query (resumed text) = command_of-OnOrOut s w state _ _ text _
after_offer-OnOrOut s context w state query no_offer = command_of-OnOrOut s w state _ _ "" _

pub guardrails_goto :
    (s : Services) (context : SupervisorContext) (w : World) (state : SupervisorState)
    → OnOrOut (guardrails s context w state).0
unfolding guardrails kill_stop
guardrails_goto s context w state =
    by_test (λ (r : Command × World). OnOrOut r.0) (truthy s.guardrails.kill_switch_message) _ _
      (λ _. inl refl)
      (λ _.
        after_offer-OnOrOut s context w state (latest_user_text state.messages)
          (read_offer s state.deferred_request (latest_user_text state.messages)))
