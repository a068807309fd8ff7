-- ===== src/Nodes/Respond/Exits.antt =====
-- nodes/respond.py: the stage ends the turn.
use supervisor_agent.Base.{arith, ◌≡◌}
use supervisor_agent.State.{SupervisorState, SupervisorContext}
use supervisor_agent.Services.{Services, World}
use supervisor_agent.Nodes.Turn.{finish}
use supervisor_agent.Nodes.Respond.{unreported, answered, respond}

pub respond-finish :
    (s : Services) (context : SupervisorContext) (w : World) (state : SupervisorState)
    → (respond s context w state).0.goto ≡ finish
unfolding respond unreported answered
respond-finish s context w state = ground arith

-- The answer leaves the count of refusals in a row.
pub respond_streak :
    (s : Services) (context : SupervisorContext) (w : World) (state : SupervisorState)
    → (respond s context w state).0.state.guardrail_block_streak ≡ state.guardrail_block_streak
unfolding respond unreported answered
respond_streak s context w state = ground arith
