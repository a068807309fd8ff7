-- ===== src/Graph/Safety.antt =====
-- src/supervisor/graph.py: no stage can be skipped.
use supervisor_agent.Base.{
  sym, ap, ◌∙◌, String, false, ◌≡◌, ◌⊎◌, inl, inr, Option, some, In, Option-cases,
}
use supervisor_agent.Base.Text.{strip, truthy}
use supervisor_agent.Worker.Registry.{WorkerAgent, get_agent}
use supervisor_agent.State.{SupervisorState, SupervisorContext}
use supervisor_agent.Services.{Services, World}
use supervisor_agent.Nodes.Turn as Stages
use supervisor_agent.Nodes.Turn.{Stage, Command}
use supervisor_agent.Nodes.Gate.Access.{MayReach, rbac_gate-MayReach}
use supervisor_agent.Nodes.Gate.Exits.{rbac_gate_goto, rbac_gate_target}
use supervisor_agent.Nodes.Guardrails.{id_of, permitted_ids}
use supervisor_agent.Nodes.Guardrails.Target.{Admissible, guardrails-Admissible}
use supervisor_agent.Nodes.Guardrails.Exits.{guardrails_goto}
use supervisor_agent.Nodes.Route.Exits.{route_goto}
use supervisor_agent.Nodes.Dispatch.Exits.{dispatch_goto}
use supervisor_agent.Nodes.Approval.{Resume, decision_of}
use supervisor_agent.Nodes.Approval.Exits.{settle-respond, approval-suspended, approval-settled}
use supervisor_agent.Nodes.Respond.Exits.{respond-finish}
use supervisor_agent.Graph.{Checkpoint, next, run_stage}
use supervisor_agent.Graph.Edges.{Goes}

module _ (s : Services) (context : SupervisorContext) (resume : Option Resume) where
  -- One stage of a turn, and any number of them.
  pub data Step (c : Checkpoint) : Checkpoint → Type 0 where
    step : (d : Checkpoint) → run_stage s context resume c.stage c.world c.state ≡ next d → Step c d

  pub data Reaches (c : Checkpoint) : Checkpoint → Type 0 where
    start : Reaches c c
    then_step : (d e : Checkpoint) → Reaches c d → Step d e → Reaches c e

  -- The agent that the caller named, or one that the caller may reach.
  abbrev pub Allowed : String → Type 0
  Allowed target =
      (target ≡ id_of (get_agent s.registry (strip context.requested_agent_id)))
      ⊎ ((a : WorkerAgent) × (id : String) × In id (permitted_ids s context)
          × (get_agent s.registry id ≡ some a)
          × (target ≡ a.id))

  -- What a turn has passed when a stage is about to run.
  abbrev pub Cleared : String → Type 0
  Cleared target =
      MayReach s context × (truthy s.guardrails.kill_switch_message ≡ false) × Allowed target

  abbrev pub Safe : Stage → String → Type 0
  Safe Stages.rbac_gate target = Unit
  Safe Stages.guardrails target = MayReach s context × (target ≡ strip context.requested_agent_id)
  Safe Stages.route target = Cleared target
  Safe Stages.dispatch target = Cleared target
  Safe Stages.approval target = Unit
  Safe Stages.respond target = Unit
  Safe Stages.finish target = Unit

  abbrev SafeAt : Checkpoint → Type 0
  SafeAt c = Safe c.stage c.state.target_agent_id

  allowed :
      (state : SupervisorState) (target : String)
      → state.target_agent_id ≡ strip context.requested_agent_id
      → Admissible s context state target
      → Allowed target
  allowed state target same (inl e) = inl (e ∙ ap (λ x. id_of (get_agent s.registry x)) same)
  allowed state target same (inr reachable) = inr reachable

  run_stage-Safe :
      (stage : Stage) (w : World) (state : SupervisorState)
      → Safe stage state.target_agent_id
      → Goes SafeAt (run_stage s context resume stage w state)
  unfolding run_stage
  run_stage-Safe Stages.rbac_gate w state h = elim (rbac_gate_goto s context w state) [
    | inl e ↦ rw e tt
    | inr (inl e) ↦ rw e tt
    | inr (inr e) ↦
        let (may, small, fresh) =
          rbac_gate-MayReach s context w state (λ out. let clash = sym e ∙ out in cc) in
        rw e (may, rbac_gate_target s context w state)
  ]
  run_stage-Safe Stages.guardrails w state (may, same) = elim (guardrails_goto s context w state) [
    | inl e ↦ rw e tt
    | inr e ↦
        let (off, target) = guardrails-Admissible s context w state e in
        rw e (may, off, allowed state _ same target)
  ]
  run_stage-Safe Stages.route w state h = elim (route_goto s context w state) [
    | inl e ↦ rw e tt
    | inr (e, k) ↦ rw (e, k) h
  ]
  run_stage-Safe Stages.dispatch w state h = elim (dispatch_goto s context w state) [
    | inl e ↦ rw e tt
    | inr e ↦ rw e tt
  ]
  run_stage-Safe Stages.approval w state h =
      elim (Option-cases (decision_of state.approval_reply resume)) [
        | inl waits ↦ rw (Goes, run_stage, approval-suspended s context w state resume waits) tt
        | inr (r, decided) ↦ elim (approval-settled s context w state resume r decided) [
          | inl on ↦ rw (Goes, run_stage, on, settle-respond s context w state r) tt
          | inr (e, c, down) ↦ rw (Goes, run_stage, down) tt
        ]
      ]
  run_stage-Safe Stages.respond w state h = rw (respond-finish s context w state) tt
  run_stage-Safe Stages.finish w state h = tt

  Step-Safe : (c d : Checkpoint) → Step c d → SafeAt c → SafeAt d
  Step-Safe c _ (step d e) h =
      let went : Goes SafeAt (next d) = rw e at (run_stage-Safe c.stage c.world c.state h) in went

  Reaches-Safe : (c d : Checkpoint) → Reaches c d → SafeAt c → SafeAt d
  Reaches-Safe c _ start h = h
  Reaches-Safe c _ (then_step d e path last) h = Step-Safe d e last (Reaches-Safe c d path h)

  -- A turn that begins at the gate comes to the worker call only past every check before it: the
  -- agent that it names is registered and granted to its caller, the emergency stop is off, and
  -- the agent about to be called is that one or another that the caller may reach. No order of
  -- the stages, no state of the conversation and no answer of a model gets around them.
  pub dispatch-Cleared :
      (w : World) (state : SupervisorState) (c : Checkpoint)
      → Reaches (record { stage = Stages.rbac_gate; state = state; world = w }) c
      → c.stage ≡ Stages.dispatch
      → Cleared c.state.target_agent_id
  dispatch-Cleared w state c path e =
      rw e at
        (Reaches-Safe (record { stage = Stages.rbac_gate; state = state; world = w }) c path tt)
