-- ===== src/Nodes/Approval/Exits.antt =====
-- nodes/approval.py: a decision ends the turn.
use supervisor_agent.Base.{refl, none, some, Option, arith, ◌≡◌, ◌⊎◌, inl, inr}
use supervisor_agent.Base.Result.{Exc, raised, Result-cases}
use supervisor_agent.State.{SupervisorState, SupervisorContext}
use supervisor_agent.Services.{Services, World}
use supervisor_agent.Nodes.Turn.{respond}
use supervisor_agent.Nodes.Approval.{
  Resume, decision_of, comment_of, sliced, approval, suspended, crashed, settled, unattributed,
  not_allowed, reject_artifact, approve_artifact, settle,
}

pub settle-respond :
    (s : Services) (context : SupervisorContext) (w : World) (state : SupervisorState) (r : Resume)
    → (settle s context w state r).goto ≡ respond
unfolding settle unattributed not_allowed reject_artifact approve_artifact
settle-respond s context w state r = ground arith

-- The gate waits exactly while there is no decision, and settles or raises on one.
pub approval-suspended :
    (s : Services) (context : SupervisorContext) (w : World) (state : SupervisorState)
    (resume : Option Resume)
    → decision_of state.approval_reply resume ≡ none
    → approval s context w state resume ≡ suspended
unfolding approval
approval-suspended s context w state resume h = rw (approval, h) refl

pub approval-settled :
    (s : Services) (context : SupervisorContext) (w : World) (state : SupervisorState)
    (resume : Option Resume) (r : Resume)
    → decision_of state.approval_reply resume ≡ some r
    → (approval s context w state resume ≡ settled (settle s context w state r))
      ⊎ ((e : Exc) × (sliced (comment_of r) ≡ raised e)
          × (approval s context w state resume ≡ crashed e))
unfolding approval
approval-settled s context w state resume r h = elim (Result-cases (sliced (comment_of r))) [
  | inl (cut, c) ↦ inl (rw (approval, h, c) refl)
  | inr (e, c) ↦ inr (e, c, rw (approval, h, c) refl)
]
