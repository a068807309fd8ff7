-- ===== src/Nodes/Gate/Exits.antt =====
-- nodes/rbac_gate.py: where the gate may send a turn, and the target that it sets.
use supervisor_agent.Base.{arith, ◌≡◌, ◌⊎◌}
use supervisor_agent.Base.Text.{strip}
use supervisor_agent.State.{SupervisorState, SupervisorContext}
use supervisor_agent.Services.{Services, World}
use supervisor_agent.Nodes.Turn.{guardrails, approval, respond}
use supervisor_agent.Nodes.Gate.{
  reset, clear, deny, oversize, expire, settle_gate, hold_gate, pass, admitted, in_time, rbac_gate,
}

pub rbac_gate_goto :
    (s : Services) (context : SupervisorContext) (w : World) (state : SupervisorState)
    → ((rbac_gate s context w state).goto ≡ respond)
      ⊎ (((rbac_gate s context w state).goto ≡ approval)
          ⊎ ((rbac_gate s context w state).goto ≡ guardrails))
unfolding rbac_gate deny oversize expire settle_gate hold_gate pass admitted in_time
rbac_gate_goto s context w state = ground arith

pub rbac_gate_target :
    (s : Services) (context : SupervisorContext) (w : World) (state : SupervisorState)
    → (rbac_gate s context w state).state.target_agent_id ≡ strip context.requested_agent_id
unfolding rbac_gate deny oversize expire settle_gate hold_gate pass admitted in_time
rbac_gate_target s context w state = ground arith

-- The gate leaves the count of refusals in a row.
pub rbac_gate_streak :
    (s : Services) (context : SupervisorContext) (w : World) (state : SupervisorState)
    → (rbac_gate s context w state).state.guardrail_block_streak ≡ state.guardrail_block_streak
unfolding rbac_gate deny oversize expire settle_gate hold_gate pass admitted in_time clear reset
rbac_gate_streak s context w state = ground arith
