-- ===== src/Nodes/Route/Exits.antt =====
-- nodes/route.py: where the stage may send a turn, and the target that it keeps.
use supervisor_agent.Base.{◌≡◌, refl, ◌⊎◌, inl, inr, by_test, Option-cases}
use supervisor_agent.Base.Result.{Result, ok, raised}
use supervisor_agent.Worker.Registry.{WorkerAgent, get_agent}
use supervisor_agent.State.{SupervisorState, SupervisorContext}
use supervisor_agent.Resolver.{RouteResult}
use supervisor_agent.Services.{Services, World}
use supervisor_agent.Nodes.Turn.{Command, dispatch, respond}
use supervisor_agent.Nodes.Route.{after_resolver, run_resolver, go_dispatch, route}
use supervisor_agent.Nodes.Route.Isolation.{held-respond, ask-respond}

-- Out, or on to the worker with the target unchanged.
abbrev OnOrOut : SupervisorState → Command → Type 0
OnOrOut state c =
    (c.goto ≡ respond) ⊎ ((c.goto ≡ dispatch) × (c.state.target_agent_id ≡ state.target_agent_id))

after_resolver-OnOrOut :
    (s : Services) (context : SupervisorContext) (w w' : World) (state : SupervisorState)
    (agent : WorkerAgent) (r : Result RouteResult)
    → OnOrOut state (after_resolver s context w w' state agent r).0
unfolding after_resolver go_dispatch
after_resolver-OnOrOut s context w w' state agent (raised e) = inl (held-respond w state e)
after_resolver-OnOrOut s context w w' state agent (ok r) =
    by_test (λ (c : Command × World). OnOrOut state c.0) r.ready _ _ (λ _. inr (refl, refl))
      (λ _. inl (ask-respond s w state r))

pub route_goto :
    (s : Services) (context : SupervisorContext) (w : World) (state : SupervisorState)
    → OnOrOut state (route s context w state).0
unfolding route
route_goto s context w state = elim (Option-cases (get_agent s.registry state.target_agent_id)) [
  | inl missing ↦ rw (route, missing) (inl refl)
  | inr (agent, found) ↦
      rw (route, found)
        (after_resolver-OnOrOut s context w
          (record w { now = (run_resolver s context w state agent).1 }) state agent
          (run_resolver s context w state agent).0)
]
