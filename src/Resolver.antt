-- ===== src/Resolver.antt =====
-- src/supervisor/context_resolver.py: the context that a worker needs, or the question to ask.
pub mod Dropping
use supervisor_agent.Base.{
  ℕ, ◌<>◌, String, Bool, true, false, not, ◌&&◌, Option, none, some, List, [], is_empty,
  if◌then◌else◌,
}
use supervisor_agent.Base.Text.{or_text}
use supervisor_agent.Base.Dict.{Dict, merge, keys}
use supervisor_agent.Base.Sort.{sort}
use supervisor_agent.Base.Result.{ok, Timed, then_timed}
use supervisor_agent.Governance.Deadline.{Deadline, ensure_some}
use supervisor_agent.Governance.Rbac.{le_text}
use supervisor_agent.Governance.Retry.{Attempt, invoke_with_retries}
use supervisor_agent.Worker.Registry.{WorkerAgent}
use supervisor_agent.Engine.Verdict.{recent}

pub record RouteResult : Type 0 where
  pub ready : Bool
  pub resolved_context : Dict String
  pub clarifying_question : Option String
  pub dropped_context : List String
  pub context_applies : Bool

-- The structured output of the routing model; the resolved items as pairs.
pub record RouteDecision : Type 0 where
  pub context_applies : Bool
  pub prior_context_applies : Bool
  pub ready : Bool
  pub resolved_context : Dict String
  pub clarifying_question : Option String

-- What the prompt carries.
pub record RoutePrompt : Type 0 where
  pub agent : WorkerAgent
  pub known_context : Dict String
  pub carried_over : Dict String
  pub conversation : List String

abbrev pub RouteModel : Type 0
RouteModel = RoutePrompt → ℕ → ℕ → Attempt RouteDecision

abbrev pub default_question : String
default_question = "Could you share a bit more detail so I can route your request correctly?"

abbrev pub question_of : Option String → String
question_of none = default_question
question_of (some q) = or_text q default_question

-- `not decision.prior_context_applies and base`
abbrev pub drops : RouteDecision → Dict String → Bool
drops d prior = not d.prior_context_applies && not (is_empty prior)

unfoldable pub settle : RouteDecision → Dict String → RouteResult
settle d prior =
    let dropped = if drops d prior then sort le_text (keys prior) else [] in
    let context = merge (if drops d prior then [] else prior) d.resolved_context in
    if not d.context_applies
    then record {
      ready = true;
      resolved_context = context;
      clarifying_question = none;
      dropped_context = dropped;
      context_applies = false;
    }
    else if d.ready
    then record {
      ready = true;
      resolved_context = context;
      clarifying_question = none;
      dropped_context = dropped;
      context_applies = true;
    }
    else record {
      ready = false;
      resolved_context = context;
      clarifying_question = some (question_of d.clarifying_question);
      dropped_context = dropped;
      context_applies = true;
    }

unfoldable pub resolve :
    (WorkerAgent → RouteModel)
    → ℕ
    → WorkerAgent
    → List String
    → Dict String
    → Option Deadline
    → Dict String
    → ℕ
    → Timed RouteResult
unfolding settle
resolve model attempts agent history prior deadline carried_over now =
    if is_empty agent.required_context
    then (
      ok (record {
        ready = true;
        resolved_context = prior;
        clarifying_question = none;
        dropped_context = [];
        context_applies = true;
      }),
      now,
    )
    else then_timed (ensure_some ("resolving context for " <> agent.id) deadline now, now)
        (λ _ t.
          then_timed
            (invoke_with_retries ("context resolution for " <> agent.id) deadline attempts 500
              (model agent (record {
                agent = agent;
                known_context = prior;
                carried_over = carried_over;
                conversation = recent 12 history;
              }))
              t)
            (λ d t'. (ok (settle d prior), t')))
