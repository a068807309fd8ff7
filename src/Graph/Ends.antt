-- ===== src/Graph/Ends.antt =====
-- src/supervisor/graph.py: every turn ends.
use supervisor_agent.Base.{
  some, ℕ, zero, suc, ◌≤◌, ◌≡◌, refl, ◌⊎◌, inl, inr, Option, none, arith, Option-cases,
}
use supervisor_agent.Base.Result.{Exc, raised}
use supervisor_agent.State.{SupervisorState, SupervisorContext}
use supervisor_agent.Services.{Services, World}
use supervisor_agent.Nodes.Turn as Stages
use supervisor_agent.Nodes.Turn.{Stage}
use supervisor_agent.Nodes.Approval.{Resume, decision_of, sliced, comment_of}
use supervisor_agent.Nodes.Approval.Exits.{approval-settled}
use supervisor_agent.Graph.{Checkpoint, Ran, stopped, next, run_stage, run, turn}
use supervisor_agent.Graph.Edges.{rank, Goes, Below, run_stage-Below}

-- The turn is over, or it waits at the approval gate for a decision that it does not have, or the
-- decision there has a comment that cannot be cut, which raises.
abbrev pub Ended : Option Resume → Checkpoint → Type 0
Ended resume c =
    (c.stage ≡ Stages.finish)
    ⊎ ((c.stage ≡ Stages.approval) × (decision_of c.state.approval_reply resume ≡ none))
    ⊎ ((c.stage ≡ Stages.approval)
        × (r : Resume) × (decision_of c.state.approval_reply resume ≡ some r)
        × (e : Exc) × (sliced (comment_of r) ≡ raised e))

Ran-cases : (r : Ran) → (r ≡ stopped) ⊎ ((d : Checkpoint) × (r ≡ next d))
Ran-cases stopped = inl refl
Ran-cases (next d) = inr (d, refl)

stopped-Ended :
    (s : Services) (context : SupervisorContext) (resume : Option Resume) (stage : Stage)
    (w : World) (state : SupervisorState)
    → run_stage s context resume stage w state ≡ stopped
    → Ended resume (record { stage = stage; state = state; world = w })
unfolding run_stage
stopped-Ended s context resume Stages.rbac_gate w state h = absurd cc
stopped-Ended s context resume Stages.guardrails w state h = absurd cc
stopped-Ended s context resume Stages.route w state h = absurd cc
stopped-Ended s context resume Stages.dispatch w state h = absurd cc
stopped-Ended s context resume Stages.approval w state h =
    elim (Option-cases (decision_of state.approval_reply resume)) [
      | inl waits ↦ inr (inl (refl, waits))
      | inr (r, decided) ↦ elim (approval-settled s context w state resume r decided) [
        | inl on ↦ absurd (let h' = rw (run_stage, on) at h in cc)
        | inr (e, raises, down) ↦ inr (inr (refl, r, decided, e, raises))
      ]
    ]
stopped-Ended s context resume Stages.respond w state h = absurd cc
stopped-Ended s context resume Stages.finish w state h = inl refl

-- Only a turn that is over has the rank 0.
rank-finish :
    (resume : Option Resume) (c : Checkpoint) (stage : Stage)
    → c.stage ≡ stage
    → rank stage ≤ 0
    → Ended resume c
rank-finish resume c Stages.finish e h = inl e
rank-finish resume c Stages.rbac_gate e h = absurd (omega arith)
rank-finish resume c Stages.guardrails e h = absurd (omega arith)
rank-finish resume c Stages.route e h = absurd (omega arith)
rank-finish resume c Stages.dispatch e h = absurd (omega arith)
rank-finish resume c Stages.approval e h = absurd (omega arith)
rank-finish resume c Stages.respond e h = absurd (omega arith)

run-Ended :
    (s : Services) (context : SupervisorContext) (resume : Option Resume) (fuel : ℕ)
    (c : Checkpoint)
    → rank c.stage ≤ fuel
    → Ended resume (run s context resume fuel c)
unfolding run
run-Ended s context resume zero c h = rank-finish resume c c.stage refl h
run-Ended s context resume (suc fuel) c h =
    elim (Ran-cases (run_stage s context resume c.stage c.world c.state)) [
      | inl stop ↦ rw (run, stop) (stopped-Ended s context resume c.stage c.world c.state stop)
      | inr (d, on) ↦
          let below : Goes (Below (rank c.stage)) (next d) =
            rw on at (run_stage-Below s context resume c.stage c.world c.state) in
          rw (run, on) (run-Ended s context resume fuel d (omega arith))
    ]

-- A turn ends within the number of the stages: whatever the services do, it runs to the end of the
-- graph, or it stops at the approval gate and waits there for a decision that neither the
-- conversation nor a resume has given, or a resume payload whose comment is neither a text nor a
-- list raises there.
pub turn-Ended :
    (s : Services) (context : SupervisorContext) (resume : Option Resume) (w : World)
    (state : SupervisorState)
    → Ended resume (turn s context resume w state)
unfolding turn
turn-Ended s context resume w state =
    run-Ended s context resume 6 (record { stage = Stages.rbac_gate; state = state; world = w })
      (omega arith)
