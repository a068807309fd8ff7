-- ===== src/Engine/Screen.antt =====
-- guardrail_engine.py: the screen over the agents that a caller may reach.
pub mod Choice
pub mod Ranking
pub mod Tiers
use supervisor_agent.Base.{
  ℕ, ◌-◌, ◌<>◌, String, Bool, true, false, ◌&&◌, Option, none, some, List, [], ◌∷◌, ◌++◌, map, any,
  keep, head?, length, max, ltb, leb, eqb, if◌then◌else◌,
}
use supervisor_agent.Base.Text.{truthy, join, fixed2}
use supervisor_agent.Base.Sort.{sort}
use supervisor_agent.Base.Result.{ok, Timed, then_timed}
use supervisor_agent.Governance.DenyRules.{Regex, is_escalate, DenyRule, first_match}
use supervisor_agent.Governance.Deadline.{Deadline, ensure_some}
use supervisor_agent.Worker.Registry.{WorkerAgent}
use supervisor_agent.Engine.Replies.{small_talk_kind}
use supervisor_agent.Engine.Verdict.{
  GuardrailVerdict, ScreenModel, semantic_verdict, second_request, asks, ownership_question,
}

-- "deterministic", "semantic" and "small_talk", and the two tiers that the node itself writes.
pub data Tier : Type 0 where
  deterministic semantic small_talk kill_switch unavailable : Tier

abbrev pub tier_text : Tier → String
tier_text deterministic = "deterministic"
tier_text semantic = "semantic"
tier_text small_talk = "small_talk"
tier_text kill_switch = "kill_switch"
tier_text unavailable = "unavailable"

pub record GuardrailResult : Type 0 where
  pub passed : Bool
  pub tier : Tier
  pub reason : String
  pub small_talk : String
  pub clarification : String
  pub contested : List String
  pub additional_request : String
  pub escalate : Bool

pub record ScreenResult : Type 0 where
  pub agent : Option WorkerAgent
  pub result : GuardrailResult
  pub considered : List String
  pub claims : List (String × String)

-- The engine's fields. `model` is `model_for` where one is given, else the engine's own model.
pub record GuardrailEngine : Type 0 where
  pub re : Regex
  pub rules : List DenyRule
  pub threshold : ℕ
  pub decisive : ℕ
  pub contested_margin : ℕ
  pub kill_switch_message : String
  pub model : WorkerAgent → ScreenModel
  pub attempts : ℕ

-- `GuardrailResult(passed, tier, reason)` with the other fields at their defaults
abbrev pub plain : Bool → Tier → String → GuardrailResult
plain passed tier reason = record {
  passed = passed;
  tier = tier;
  reason = reason;
  small_talk = "";
  clarification = "";
  contested = [];
  additional_request = "";
  escalate = false;
}

abbrev pub Claim : Type 0
Claim = WorkerAgent × GuardrailVerdict

-- What the loop over the candidates has gathered.
pub record Gathered : Type 0 where
  pub considered : List String
  pub in_domain : List Claim
  pub unclear : List Claim
  pub best_off : Option GuardrailVerdict

pub data Scan : Type 0 where
  decided : ScreenResult → Scan
  undecided : Gathered → Scan

abbrev pub claims_of : List Claim → List (String × String)
claims_of = map (λ c. (c.0.id, c.1.sdlc_reading))

-- `best_off is None or verdict.confidence > best_off.confidence`
abbrev pub stronger_off : Option GuardrailVerdict → GuardrailVerdict → GuardrailVerdict
stronger_off none v = v
stronger_off (some w) v = if ltb w.confidence v.confidence then v else w

-- What a verdict on an agent does to the loop.
unfoldable pub judge : ℕ → WorkerAgent → GuardrailVerdict → Gathered → Scan
judge decisive agent v g =
    if v.in_domain && leb decisive v.confidence
    then decided (record {
      agent = some agent;
      result = record (plain true semantic v.reason) {
        clarification = asks v;
        additional_request = second_request v;
      };
      considered = g.considered;
      claims = (agent.id, v.sdlc_reading) ∷ [];
    })
    else if v.in_domain
    then undecided (record g { in_domain = g.in_domain ++ (agent, v) ∷ [] })
    else if v.underspecified
    then undecided (record g { unclear = g.unclear ++ (agent, v) ∷ [] })
    else undecided (record g { best_off = some (stronger_off g.best_off v) })

-- An agent's own deny patterns rule it out.
abbrev pub ruled_out : Regex → WorkerAgent → String → Bool
ruled_out re agent query = any (λ p. re.search_i p query) agent.deny_patterns

-- Go on with the loop unless it was decided.
abbrev pub go_on : Scan → ℕ → (Gathered → ℕ → Timed Scan) → Timed Scan
go_on (decided r) now rest = (ok (decided r), now)
go_on (undecided g) now rest = rest g now

abbrev pub nothing_yet : Gathered
nothing_yet = record { considered = []; in_domain = []; unclear = []; best_off = none }

module _ (e : GuardrailEngine) (query : String) (history : List String)
    (deadline : Option Deadline) where
  -- One candidate that its own rules do not rule out.
  pub examine : Bool → ℕ → WorkerAgent → Gathered → ℕ → (Gathered → ℕ → Timed Scan) → Timed Scan
  examine sole decisive agent g now rest =
      then_timed (ensure_some ("screening against " <> agent.id) deadline now, now)
        (λ _ t.
          then_timed (semantic_verdict e.model e.attempts query agent history sole deadline t)
            (λ v t'.
              go_on
                (judge decisive agent v (record g { considered = g.considered ++ agent.id ∷ [] }))
                t' rest))

  pub scan : Bool → ℕ → List WorkerAgent → Gathered → ℕ → Timed Scan
  scan sole decisive [] g now = (ok (undecided g), now)
  scan sole decisive (agent ∷ rest) g now = elim (ruled_out e.re agent query) [
    | true ↦ scan sole decisive rest g now
    | false ↦ examine sole decisive agent g now (scan sole decisive rest)
  ]

-- `sorted(in_domain, key=confidence, reverse=True)`
abbrev pub ranked : List Claim → List Claim
ranked = sort (λ a b. leb b.1.confidence a.1.confidence)

-- The claims over the threshold that lie within the margin of the best.
abbrev pub contested_among : GuardrailEngine → GuardrailVerdict → List Claim → List Claim
contested_among e best = keep (λ c.
    leb e.threshold c.1.confidence && leb (best.confidence - c.1.confidence) e.contested_margin)

abbrev named_confidence : Claim → String
named_confidence c = c.0.name <> (" (" <> (fixed2 c.1.confidence <> ")"))

-- The ranking, when somebody claimed the request.
unfoldable pub rank_claims : GuardrailEngine → List String → Claim → List Claim → ScreenResult
rank_claims e considered best all_ranked =
    let contested = contested_among e best.1 all_ranked in
    if ltb 1 (length contested)
    then record {
      agent = some best.0;
      result =
          record (plain true semantic (
            "more than one agent you can reach owns this request: "
            <> join ", " (map named_confidence contested))) {
              clarification = ownership_question contested;
              contested = map (λ c. c.0.id) contested;
              additional_request = second_request best.1;
            };
      considered = considered;
      claims = claims_of all_ranked;
    }
    else record {
      agent = some best.0;
      result =
          record (plain true semantic
            ("best available match (" <> (fixed2 best.1.confidence <> ("): " <> best.1.reason)))) {
              clarification = asks best.1;
              additional_request = second_request best.1;
            };
      considered = considered;
      claims = claims_of all_ranked;
    }

-- Nobody was decisive, and nobody claimed the request or recognised its subject.
unfoldable pub off_domain :
    GuardrailEngine → List WorkerAgent → List String → Option GuardrailVerdict → ScreenResult
off_domain e candidates considered none = record {
  agent = none;
  result = plain false deterministic "this topic is blocked for every agent you can reach";
  considered = considered;
  claims = [];
}
off_domain e candidates considered (some off) =
    if ltb off.confidence e.threshold
    then record {
      agent = head? candidates;
      result = plain true semantic (
          "low-confidence off-domain verdict ("
          <> (fixed2 off.confidence <> ("): " <> off.reason)));
      considered = considered;
      claims = [];
    }
    else record {
      agent = none;
      result = plain false semantic off.reason;
      considered = considered;
      claims = [];
    }

unclear_or_off :
    GuardrailEngine
    → List WorkerAgent
    → List String
    → List Claim
    → Option GuardrailVerdict
    → ScreenResult
unclear_or_off e candidates considered [] best_off = off_domain e candidates considered best_off
unclear_or_off e candidates considered ((agent, v) ∷ rest) best_off = record {
  agent = some agent;
  result = record (plain true semantic ("underspecified: " <> v.reason)) { clarification = asks v };
  considered = considered;
  claims = claims_of ((agent, v) ∷ rest);
}

ranked_or_unclear : GuardrailEngine → List WorkerAgent → List Claim → Gathered → ScreenResult
ranked_or_unclear e candidates [] g = unclear_or_off e candidates g.considered g.unclear g.best_off
ranked_or_unclear e candidates (best ∷ rest) g = rank_claims e g.considered best (best ∷ rest)

-- Everything after the loop.
unfoldable pub conclude : GuardrailEngine → List WorkerAgent → Scan → ScreenResult
unfolding ranked_or_unclear unclear_or_off off_domain rank_claims
conclude e candidates (decided r) = r
conclude e candidates (undecided g) = ranked_or_unclear e candidates (ranked g.in_domain) g

abbrev pub is_sole : List WorkerAgent → Bool
is_sole candidates = eqb (length candidates) 1

abbrev pub refusal : DenyRule → ScreenResult
refusal rule = record {
  agent = none;
  result = record (plain false deterministic rule.reason) { escalate = is_escalate rule.action };
  considered = [];
  claims = [];
}

abbrev pub chat : String → ScreenResult
chat kind = record {
  agent = none;
  result = record (plain true small_talk (kind <> ", no domain intent")) { small_talk = kind };
  considered = [];
  claims = [];
}

unfoldable pub screen :
    GuardrailEngine
    → String
    → List WorkerAgent
    → List String
    → Option Deadline
    → ℕ
    → Timed ScreenResult
unfolding scan examine
screen e query candidates history deadline now = elim (first_match e.re e.rules query) [
  | some rule ↦ (ok (refusal rule), now)
  | none ↦
      if truthy (small_talk_kind e.re query)
      then (ok (chat (small_talk_kind e.re query)), now)
      else then_timed
          (scan e query history deadline (is_sole candidates)
            (if is_sole candidates then e.threshold else e.decisive) candidates nothing_yet now)
          (λ s t. (ok (conclude e candidates s), t))
]

-- The reason for which a deterministic rule refuses a text, or "".
unfoldable pub deterministic_block : GuardrailEngine → String → String
deterministic_block e query = elim (first_match e.re e.rules query) [
  | none ↦ ""
  | some rule ↦ rule.reason
]

-- `GuardrailEngine.__init__`, over compiled rules: the two clamped settings.
unfoldable pub new :
    Regex → List DenyRule → ℕ → String → (WorkerAgent → ScreenModel) → ℕ → ℕ → ℕ → GuardrailEngine
new re rules confidence_threshold hold model decisive_threshold contested_margin attempts = record {
  re = re;
  rules = rules;
  threshold = confidence_threshold;
  decisive = max confidence_threshold decisive_threshold;
  contested_margin = contested_margin;
  kill_switch_message = hold;
  model = model;
  attempts = attempts;
}
