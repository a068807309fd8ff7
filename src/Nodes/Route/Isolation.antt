-- ===== src/Nodes/Route/Isolation.antt =====
-- nodes/route.py: what a conversation keeps of the context that was resolved in it.
use supervisor_agent.Base.{Option, String, true, ◌≡◌, refl, some, elem, by_test, not}
use supervisor_agent.Base.Dict.{Keys, merge-Keys, restrict-Keys, restrict-Keys_of}
use supervisor_agent.Base.Result.{
  Exc, budget_exhausted, worker_unavailable, http_error, other_error, Result, ok, raised,
}
use supervisor_agent.Worker.Registry.{WorkerAgent, get_agent}
use supervisor_agent.State.{SupervisorState, SupervisorContext}
use supervisor_agent.Resolver.{RouteResult}
use supervisor_agent.Services.{Services, World}
use supervisor_agent.Nodes.Turn.{Command, dispatch, respond}
use supervisor_agent.Nodes.Failsafes as Failsafes
use supervisor_agent.Nodes.Failsafes.Clarifications.{clarify_or_escalate_bounded}
use supervisor_agent.Memory.{MemoryWrite}
use supervisor_agent.Nodes.Route.{
  held, ask, fail_closed, question_text, session_of, pinned_of, after_resolver, run_resolver,
  remember, go_dispatch, route,
}

-- The keys that the agent declares as the context it needs.
abbrev Declared : WorkerAgent → String → Type 0
Declared agent key = elem key agent.required_context ≡ true

pinned_of-Declared :
    (agent : WorkerAgent) (state : SupervisorState) (r : RouteResult)
    → Keys (Declared agent) (pinned_of agent (session_of agent state) r)
unfolding pinned_of session_of
pinned_of-Declared agent state r =
    merge-Keys (Declared agent) _ _
      (restrict-Keys_of (Declared agent) (λ key value. not (elem key r.dropped_context)) _
        (restrict-Keys (Declared agent) (λ key value. elem key agent.required_context)
          state.session_context (λ k v h. h)))
      (restrict-Keys (Declared agent) (λ key value. elem key agent.required_context)
        r.resolved_context (λ k v h. h))

-- A request that is held, or asked back about, ends its turn.
pub held-respond : (w : World) (state : SupervisorState) (e : Exc) → (held w state e).goto ≡ respond
unfolding held fail_closed Failsafes.budget_exhausted
held-respond w state (budget_exhausted what spent budget) = refl
held-respond w state (worker_unavailable text) = refl
held-respond w state (http_error name status text) = refl
held-respond w state (other_error name text) = refl

pub ask-respond :
    (s : Services) (w : World) (state : SupervisorState) (r : RouteResult)
    → (ask s w state r).goto ≡ respond
unfolding ask
ask-respond s w state r =
    (clarify_or_escalate_bounded s w state "route" (question_text r.clarifying_question) _).0

-- What holds where the resolver's result sends the turn on to the worker.
module _ (s : Services) (context : SupervisorContext) (w w' : World) (state : SupervisorState)
    (agent : WorkerAgent) (P : Command → Type 0)
    (sent : (r : RouteResult) (write : Option MemoryWrite)
      → P (go_dispatch s context w state agent r write)) where
  on_dispatch :
      (r : Result RouteResult)
      → (after_resolver s context w w' state agent r).0.goto ≡ dispatch
      → P (after_resolver s context w w' state agent r).0
  unfolding after_resolver
  on_dispatch (raised e) h = absurd (let h' = rw (held-respond w state e) at h in cc)
  on_dispatch (ok r) h =
      by_test (λ (c : Command × World). c.0.goto ≡ dispatch → P c.0) r.ready _ _
        (λ _ _. sent r (remember s context w' r.resolved_context).0)
        (λ _ asked. absurd (let h' = rw (ask-respond s w state r) at asked in cc)) h

after_resolver-Declared :
    (s : Services) (context : SupervisorContext) (w w' : World) (state : SupervisorState)
    (agent : WorkerAgent) (r : Result RouteResult)
    → (after_resolver s context w w' state agent r).0.goto ≡ dispatch
    → Keys (Declared agent) (after_resolver s context w w' state agent r).0.state.session_context
unfolding go_dispatch
after_resolver-Declared s context w w' state agent r h =
    on_dispatch s context w w' state agent
      (λ (c : Command). Keys (Declared agent) c.state.session_context)
      (λ r' write. pinned_of-Declared agent state r') r h

-- Whatever the session held and whatever the routing model resolved, a turn that goes on to the
-- worker leaves in the session context only keys that this worker declares as context it needs.
pub route-Declared :
    (s : Services) (context : SupervisorContext) (w : World) (state : SupervisorState)
    (agent : WorkerAgent)
    → get_agent s.registry state.target_agent_id ≡ some agent
    → (route s context w state).0.goto ≡ dispatch
    → Keys (Declared agent) (route s context w state).0.state.session_context
unfolding route
route-Declared s context w state agent found h =
    rw (route, found)
      (after_resolver-Declared s context w
        (record w { now = (run_resolver s context w state agent).1 }) state agent
        (run_resolver s context w state agent).0 (rw (route, found) at h))
