-- ===== src/Nodes/Dispatch/Exits.antt =====
-- nodes/dispatch.py: where the stage may send a turn.
use supervisor_agent.Base.{◌≡◌, refl, ◌⊎◌, inl, inr, Bool-cases, Option-cases}
use supervisor_agent.Base.Result.{Result, ok, raised}
use supervisor_agent.Governance.OutputGuard as Guard
use supervisor_agent.Worker.Registry.{WorkerAgent, get_agent}
use supervisor_agent.Worker.Response.{WorkerResponse}
use supervisor_agent.State.{SupervisorState, SupervisorContext}
use supervisor_agent.Services.{Services, World}
use supervisor_agent.Nodes.Turn.{Command, approval, respond}
use supervisor_agent.Nodes.Dispatch.{of_reply, call_worker, dispatch}
use supervisor_agent.Nodes.Dispatch.Release.{
  guarded_of, needs_signoff, after_worker_withheld, after_worker_signoff, failed_keeps,
}

abbrev StagedOrOut : Command → Type 0
StagedOrOut c = (c.goto ≡ respond) ⊎ (c.goto ≡ approval)

of_reply-StagedOrOut :
    (s : Services) (w : World) (state : SupervisorState) (agent : WorkerAgent)
    (r : Result WorkerResponse)
    → StagedOrOut (of_reply s w state agent r)
unfolding of_reply
of_reply-StagedOrOut s w state agent (raised e) = let (k, p, g) = failed_keeps w state e in inl g
of_reply-StagedOrOut s w state agent (ok resp) =
    elim (Bool-cases (Guard.blocked (guarded_of s resp))) [
      | inl held ↦ inl (after_worker_withheld s w state agent resp held).0
      | inr passed ↦ elim (Bool-cases (needs_signoff s state agent resp)) [
        | inl needed ↦ inr ((after_worker_signoff s w state agent resp passed).0 needed).0
        | inr free ↦ inl ((after_worker_signoff s w state agent resp passed).1 free).0
      ]
    ]

pub dispatch_goto :
    (s : Services) (context : SupervisorContext) (w : World) (state : SupervisorState)
    → StagedOrOut (dispatch s context w state).0
unfolding dispatch
dispatch_goto s context w state = elim (Option-cases (get_agent s.registry state.target_agent_id)) [
  | inl missing ↦ rw (dispatch, missing) (inl refl)
  | inr (agent, found) ↦
      rw (dispatch, found)
        (of_reply-StagedOrOut s w state agent (call_worker s context w state agent).reply)
]
