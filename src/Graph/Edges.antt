-- ===== src/Graph/Edges.antt =====
-- src/supervisor/graph.py: which stages each stage may send a turn to.
use supervisor_agent.Base.{arith, ℕ, ◌<◌, inl, inr, Option, Option-cases}
use supervisor_agent.State.{SupervisorState, SupervisorContext}
use supervisor_agent.Services.{Services, World}
use supervisor_agent.Nodes.Turn as Stages
use supervisor_agent.Nodes.Turn.{Stage, Command}
use supervisor_agent.Nodes.Approval.{Resume, decision_of}
use supervisor_agent.Nodes.Gate.Exits.{rbac_gate_goto}
use supervisor_agent.Nodes.Guardrails.Exits.{guardrails_goto}
use supervisor_agent.Nodes.Route.Exits.{route_goto}
use supervisor_agent.Nodes.Dispatch.Exits.{dispatch_goto}
use supervisor_agent.Nodes.Approval.Exits.{settle-respond, approval-suspended, approval-settled}
use supervisor_agent.Nodes.Respond.Exits.{respond-finish}
use supervisor_agent.Graph.{Checkpoint, Ran, stopped, next, run_stage}

-- The position of a stage in a turn, from its end.
abbrev pub rank : Stage → ℕ
rank Stages.rbac_gate = 6
rank Stages.guardrails = 5
rank Stages.route = 4
rank Stages.dispatch = 3
rank Stages.approval = 2
rank Stages.respond = 1
rank Stages.finish = 0

-- What holds of the next checkpoint, where there is one.
abbrev pub Goes : (Checkpoint → Type 0) → Ran → Type 0
Goes P stopped = Unit
Goes P (next d) = P d

abbrev pub Below : ℕ → Checkpoint → Type 0
Below n d = rank d.stage < n

pub run_stage-Below :
    (s : Services) (context : SupervisorContext) (resume : Option Resume) (stage : Stage)
    (w : World) (state : SupervisorState)
    → Goes (Below (rank stage)) (run_stage s context resume stage w state)
unfolding run_stage
run_stage-Below s context resume Stages.rbac_gate w state =
    elim (rbac_gate_goto s context w state) [
      | inl e ↦ rw e (omega arith)
      | inr (inl e) ↦ rw e (omega arith)
      | inr (inr e) ↦ rw e (omega arith)
    ]
run_stage-Below s context resume Stages.guardrails w state =
    elim (guardrails_goto s context w state) [
      | inl e ↦ rw e (omega arith)
      | inr e ↦ rw e (omega arith)
    ]
run_stage-Below s context resume Stages.route w state = elim (route_goto s context w state) [
  | inl e ↦ rw e (omega arith)
  | inr (e, k) ↦ rw e (omega arith)
]
run_stage-Below s context resume Stages.dispatch w state = elim (dispatch_goto s context w state) [
  | inl e ↦ rw e (omega arith)
  | inr e ↦ rw e (omega arith)
]
run_stage-Below s context resume Stages.approval w state =
    elim (Option-cases (decision_of state.approval_reply resume)) [
      | inl none_yet ↦ rw (Goes, run_stage, approval-suspended s context w state resume none_yet) tt
      | inr (r, decided) ↦ elim (approval-settled s context w state resume r decided) [
        | inl on ↦ rw (Goes, run_stage, on, settle-respond s context w state r) (omega arith)
        | inr (e, c, down) ↦ rw (Goes, run_stage, down) tt
      ]
    ]
run_stage-Below s context resume Stages.respond w state =
    rw (respond-finish s context w state) (omega arith)
run_stage-Below s context resume Stages.finish w state = tt
