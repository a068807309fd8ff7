-- ===== src/Nodes/Guardrails/Streak.antt =====
-- nodes/guardrails.py: turns that are refused one after another.
use supervisor_agent.Base.{ℕ, suc, String, false, ◌≡◌, [], ◌∷◌, ◌++◌}
use supervisor_agent.Base.Text.{truthy}
use supervisor_agent.Base.Result.{ok}
use supervisor_agent.Engine.Screen.{ScreenResult}
use supervisor_agent.State.{human, SupervisorState, SupervisorContext}
use supervisor_agent.Services.{Services, World}
use supervisor_agent.Nodes.Turn as Stages
use supervisor_agent.Nodes.Turn.{Command, latest_user_text}
use supervisor_agent.Nodes.Gate.{rbac_gate}
use supervisor_agent.Nodes.Respond.{respond}
use supervisor_agent.Nodes.Guardrails.{Offer, no_offer, resumed, read_offer, run_screen, guardrails}

-- A turn as its caller sees it: who asks, in which world, and what.
pub record Turn : Type 0 where
  pub context : SupervisorContext
  pub world : World
  pub text : String

-- What a query is screened as: itself, or the held request that it takes up.
pub data Reads (query : String) : Offer → String → String → Type 0 where
  as_written : Reads query no_offer query ""
  as_held : (text : String) → Reads query (resumed text) text text

module _ (s : Services) where
  -- The state that the guardrails are given, what they make of it, and the state after the answer.
  abbrev pub admitted_as : SupervisorState → Turn → Command
  admitted_as state t =
      rbac_gate s t.context t.world (record state {
        messages = state.messages ++ record { role = human; content = t.text } ∷ [];
      })

  abbrev pub verdict : SupervisorState → Turn → Command
  verdict state t = (guardrails s t.context t.world (admitted_as state t).state).0

  abbrev pub left : SupervisorState → Turn → SupervisorState
  left state t =
      let (c, w) = guardrails s t.context t.world (admitted_as state t).state in
      (respond s t.context w c.state).0.state

  -- The gate lets the turn through, and the screen refuses it without escalating it itself.
  pub data IsRefused (state : SupervisorState) (t : Turn) : Type 0 where
    is_refused :
        (offer : Offer) (text held : String) (r : ScreenResult)
        → (admitted_as state t).goto ≡ Stages.guardrails
        → truthy s.guardrails.kill_switch_message ≡ false
        → read_offer s
            (admitted_as state t).state.deferred_request
            (latest_user_text (admitted_as state t).state.messages)
          ≡ offer
        → Reads (latest_user_text (admitted_as state t).state.messages) offer text held
        → (run_screen s t.context t.world (admitted_as state t).state text).0 ≡ ok r
        → r.result.passed ≡ false
        → r.result.escalate ≡ false
        → IsRefused state t

  -- `n` turns, each with its own caller, world and message, of which every one is refused.
  pub data Refusals (state : SupervisorState) : ℕ → SupervisorState → Type 0 where
    no_turn : Refusals state 0 state
    then_turn :
        {n : ℕ} {before : SupervisorState} (t : Turn)
        → Refusals state n before
        → IsRefused before t
        → Refusals state (suc n) (left before t)
