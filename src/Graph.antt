-- ===== src/Graph.antt =====
-- src/supervisor/graph.py: the stages wired into a graph. Each stage names the next one in its
-- command; langgraph runs them one after another, and checkpoints between them.
pub mod Edges
pub mod Ends
pub mod Safety
use supervisor_agent.Base.{ℕ, zero, suc, Option, none, some}
use supervisor_agent.State.{SupervisorState, SupervisorContext}
use supervisor_agent.Services.{Services, World}
use supervisor_agent.Nodes.Turn.{Stage, Command, finish}
use supervisor_agent.Nodes.Turn as Stages
use supervisor_agent.Nodes.Gate.{rbac_gate}
use supervisor_agent.Nodes.Guardrails.{guardrails}
use supervisor_agent.Nodes.Route.{route}
use supervisor_agent.Nodes.Dispatch.{dispatch}
use supervisor_agent.Nodes.Approval.{Resume, Settled, suspended, crashed, settled, approval}
use supervisor_agent.Nodes.Respond.{respond}

-- A checkpoint: the stage that runs next, the state, the world.
pub record Checkpoint : Type 0 where
  pub stage : Stage
  pub state : SupervisorState
  pub world : World

-- What running one stage comes to: the next checkpoint, or none: the end, a suspension at the approval gate, or an
-- exception there, which leaves the checkpoint as it is.
pub data Ran : Type 0 where
  stopped : Ran
  next : Checkpoint → Ran

abbrev checkpoint : Command → World → Checkpoint
checkpoint c w = record { stage = c.goto; state = c.state; world = w }

abbrev settle_to : Settled → World → Ran
settle_to suspended w = stopped
settle_to (crashed e) w = stopped
settle_to (settled c) w = next (checkpoint c w)

-- The edges: each node's own command, and those from START and to END.
unfoldable pub run_stage :
    Services → SupervisorContext → Option Resume → Stage → World → SupervisorState → Ran
run_stage s context resume Stages.rbac_gate w state =
    next (checkpoint (rbac_gate s context w state) w)
run_stage s context resume Stages.guardrails w state =
    let (c, w') = guardrails s context w state in next (checkpoint c w')
run_stage s context resume Stages.route w state =
    let (c, w') = route s context w state in next (checkpoint c w')
run_stage s context resume Stages.dispatch w state =
    let (c, w') = dispatch s context w state in next (checkpoint c w')
run_stage s context resume Stages.approval w state = settle_to (approval s context w state resume) w
run_stage s context resume Stages.respond w state =
    let (c, w') = respond s context w state in next (checkpoint c w')
run_stage s context resume Stages.finish w state = stopped

-- Running on until the turn stops, for at most so many stages.
unfoldable pub run : Services → SupervisorContext → Option Resume → ℕ → Checkpoint → Checkpoint
unfolding run_stage
run s context resume zero c = c
run s context resume (suc left) c = elim (run_stage s context resume c.stage c.world c.state) [
  | stopped ↦ c
  | next d ↦ run s context resume left d
]

-- One turn, which START sends to the gate: each stage runs once at most.
unfoldable pub turn :
    Services → SupervisorContext → Option Resume → World → SupervisorState → Checkpoint
unfolding run
turn s context resume w state =
    run s context resume 6 (record { stage = Stages.rbac_gate; state = state; world = w })
