-- ===== src/Tests/Publishing.antt =====
-- Witnesses on the checks of governed documents and on the policy suite.
use supervisor_agent.Base.{
  ℕ, ◌≤◌, String, ◌==◌, Bool, true, false, List, [], ◌∷◌, map, All, ◌≡◌, ◌↔◌, refl, if◌then◌else◌,
}
use supervisor_agent.Base.Text.{is_in}
use supervisor_agent.Base.Result.{ok}
use supervisor_agent.Worker.Json.{Json, str, arr, obj, nil, cons, end, field}
use supervisor_agent.Worker.Registry.{AgentRegistry, from_mapping, agent_ids}
use supervisor_agent.Governance.DenyRules.{Regex, DenyRule, compile_rules}
use supervisor_agent.Governance.Sensitive.{Category, Matches, has_category}
use supervisor_agent.Governance.OutputGuard.{
  OutputPolicy, OutputGuard, policy_from_mapping, active_categories, severity,
}
use supervisor_agent.Governance.Validators.{validate_guardrails, list_of}
use supervisor_agent.Governance.Validators.Documents.{raw_rules, entries, section_of}
use supervisor_agent.Governance.Validators.Rules.{AllAsPublished, validated-AsPublished}
use supervisor_agent.Governance.Validators.Policy.{validated_never_delivers}
use supervisor_agent.Governance.PolicySuite.{
  parse_cases, Case, Report, passed, guard_of, evaluate, raw_cases,
}
use supervisor_agent.Governance.PolicySuite.Gate.{Met, evaluate_gate}
use supervisor_agent.Governance.PolicySuite.Parsing.{
  Labelled, Distinct, AllWritten, parse_cases-Written,
}
use supervisor_agent.Governed.{validate_agents, agent_id_form}
use supervisor_agent.Governed.Documents.{agent_rows, rows_of}
use supervisor_agent.Governed.Agents.{Usable, id_of, validated_registry}
use supervisor_agent.Tests.Fixtures.{plain_regex}

-- Every text is a slug here; the other patterns are plain texts.
abbrev slug_regex : Regex
slug_regex = record plain_regex { search = λ p t. if p == agent_id_form then true else is_in p t }

abbrev error_text : String → String
error_text pattern = "bad pattern"

abbrev repr : Json → String
repr j = "{}"

-- Salaries go to a human, bank details are masked.
abbrev guardrails : Json
guardrails = obj (
    field "global_deny_patterns"
      (arr (cons (obj (field "pattern" (str "salary") (field "action" (str "escalate") end))) nil))
      (field "output_policy" (obj (field "categories" (obj (field "bank" (str "mask") end)) end))
        end))

validated-AsPublished_example :
    ((built : List DenyRule) × (compile_rules slug_regex "denied"
          (raw_rules guardrails "global_deny_patterns")
        ≡ ok built)
      × AllAsPublished slug_regex error_text "denied"
          (entries guardrails "global_deny_patterns")
          built)
    × ((built : List DenyRule) × (compile_rules slug_regex "denied"
            (raw_rules guardrails "output_deny_patterns")
          ≡ ok built)
        × AllAsPublished slug_regex error_text "denied"
            (entries guardrails "output_deny_patterns")
            built)
unfolding validate_guardrails supervisor_agent.Governance.ConfigStore.require
validated-AsPublished_example = validated-AsPublished slug_regex error_text "denied" guardrails refl

abbrev published_policy : OutputPolicy
published_policy = policy_from_mapping (section_of guardrails) false

validated_never_delivers_example :
    (1 ≤ severity (published_policy.action_for Category.bank))
    × (has_category (active_categories published_policy) Category.bank ≡ true)
unfolding validate_guardrails supervisor_agent.Governance.ConfigStore.require
validated_never_delivers_example =
    validated_never_delivers slug_regex error_text guardrails false Category.bank refl refl

abbrev agents : Json
agents = obj (
    field "agents"
      (arr (
        cons
          (obj (
            field "id" (str "story") (
              field "endpoint" (str "story-endpoint") (
                field "approval_patterns"
                  (arr (
                    cons (obj (field "pattern" (str "delete") (field "reason" (str "deletes") end)))
                      nil))
                  end))))
          (cons (obj (field "id" (str "design") (field "endpoint" (str "design-endpoint") end)))
            nil)))
      end)

validated_registry_example :
    (registry : AgentRegistry) × (from_mapping (agent_rows agents) ≡ ok registry)
    × (agent_ids registry ≡ map id_of (rows_of agents))
    × All (Usable slug_regex error_text repr) registry
unfolding validate_agents supervisor_agent.Governance.ConfigStore.require
    supervisor_agent.Base.Text.strip
validated_registry_example = validated_registry slug_regex error_text repr agents refl

-- The catalogue finds nothing here.
abbrev nothing_found : Matches
nothing_found text wanted = []

abbrev suite : List Case
suite =
    record { id = "1"; expect = "escalate"; text = "my salary"; reply = ""; why = ""; labels = [] }
    ∷ record { id = "2"; expect = "allow"; text = ""; reply = "a story"; why = ""; labels = [] }
    ∷ []

evaluate_gate_example :
    (rules : List DenyRule) × (guard : OutputGuard) × (report : Report) × (compile_rules slug_regex
        "matched a blocked pattern"
        (raw_rules guardrails "global_deny_patterns")
      ≡ ok rules)
    × (guard_of slug_regex nothing_found "canary" guardrails true ≡ ok guard)
    × (evaluate slug_regex nothing_found "canary" guardrails suite true ≡ ok report)
    × (map (λ r. r.case) report ≡ suite)
    × ((passed report ≡ true) ↔ All (Met rules guard) suite)
unfolding validate_guardrails supervisor_agent.Governance.ConfigStore.require
evaluate_gate_example =
    evaluate_gate slug_regex error_text nothing_found "canary" guardrails suite true refl

abbrev corpus : Json
corpus = obj (
    field "cases"
      (arr (
        cons
          (obj (
            field "id" (str "1")
              (field "expect" (str "Escalate") (field "text" (str "my salary") end))))
          nil))
      end)

abbrev corpus_cases : List Case
corpus_cases =
    record { id = "1"; expect = "escalate"; text = "my salary"; reply = ""; why = ""; labels = [] }
    ∷ []

parse_cases-Written_example :
    All Labelled corpus_cases
    × Distinct [] corpus_cases
    × AllWritten repr (list_of (raw_cases corpus)) corpus_cases
unfolding parse_cases supervisor_agent.Governance.PolicySuite.expected
    supervisor_agent.Base.Text.strip supervisor_agent.Base.Text.lower
parse_cases-Written_example = parse_cases-Written repr corpus corpus_cases refl
