-- ===== src/Engine/Verdict.antt =====
-- guardrail_engine.py: the verdict of the semantic tier, what is read out of it, and the model
-- call that produces it. Confidences and thresholds are thousandths.
use supervisor_agent.Base.{
  ℕ, ◌<>◌, String, Bool, true, false, not, ◌||◌, Option, List, [], ◌∷◌, map, elem, length,
  take_last, is_empty, ltb, eqb, init, ◌==◌, count, if◌then◌else◌,
}
use supervisor_agent.Base.Text.{strip, lower, rstrip_by, truthy, join}
use supervisor_agent.Base.Result.{Timed}
use supervisor_agent.Governance.Deadline.{Deadline}
use supervisor_agent.Governance.Retry.{Attempt, invoke_with_retries}
use supervisor_agent.Worker.Registry.{WorkerAgent}

pub record GuardrailVerdict : Type 0 where
  pub sdlc_reading : String
  pub in_domain : Bool
  pub confidence : ℕ
  pub underspecified : Bool
  pub clarification : String
  pub additional_request : String
  pub reason : String

-- What the two turns of the prompt carry. `sole` chooses between the two texts about the other
-- agents.
pub record ScreenPrompt : Type 0 where
  pub agent_name : String
  pub domain_scope : String
  pub sole : Bool
  pub conversation : List String
  pub user_query : String

-- A chat model with structured output: the n-th attempt at a prompt, made at time t.
abbrev pub ScreenModel : Type 0
ScreenModel = ScreenPrompt → ℕ → ℕ → Attempt GuardrailVerdict

-- `history[-n:] or ["(start of conversation)"]`
abbrev pub recent : ℕ → List String → List String
recent n history =
    if is_empty (take_last n history) then "(start of conversation)" ∷ [] else take_last n history

unfoldable pub semantic_verdict :
    (WorkerAgent → ScreenModel)
    → ℕ
    → String
    → WorkerAgent
    → List String
    → Bool
    → Option Deadline
    → ℕ
    → Timed GuardrailVerdict
semantic_verdict model attempts query agent history sole deadline now =
    invoke_with_retries ("the domain screen for " <> agent.id) deadline attempts 500
      (model agent (record {
        agent_name = agent.name;
        domain_scope = agent.domain_scope;
        sole = sole;
        conversation = recent 10 history;
        user_query = query;
      }))
      now

-- The second deliverable of the message, if the verdict names one of a plausible length.
unfoldable pub second_request : GuardrailVerdict → String
second_request v =
    let found = strip v.additional_request in
    if ltb (count found) 8 || ltb 400 (count found) then "" else found

unfoldable pub asks : GuardrailVerdict → String
asks v = if v.underspecified then strip v.clarification else ""

abbrev is_dot : ℕ → Bool
is_dot c = eqb c b'.'

reading_of : WorkerAgent × GuardrailVerdict → String
reading_of (agent, v) =
    let reading = rstrip_by is_dot (strip v.sdlc_reading) in
    if not (truthy reading) || lower reading == "none" then agent.name else reading

-- Without the readings whose lower case was seen before.
unique_from : List String → List String → List String
unique_from seen [] = []
unique_from seen (reading ∷ rest) = elim (elem (lower reading) seen) [
  | true ↦ unique_from seen rest
  | false ↦ reading ∷ unique_from (lower reading ∷ seen) rest
]

last_of : List String → String
last_of [] = ""
last_of (s ∷ []) = s
last_of (s ∷ ss) = last_of ss

joined : List String → String
joined unique =
    if ltb 2 (length unique)
    then join ", " (init unique) <> (" or " <> last_of unique)
    else join " or " unique

unfoldable pub ownership_question : List (WorkerAgent × GuardrailVerdict) → String
unfolding reading_of unique_from last_of joined
ownership_question contested =
    let unique = unique_from [] (map reading_of contested) in
    let shown = if ltb (length unique) 2 then map (λ c. c.0.name) contested else unique in
    "More than one of your agents could take this — did you want " <> (joined shown <> "?")
