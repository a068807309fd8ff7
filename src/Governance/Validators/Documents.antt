-- ===== src/Governance/Validators/Documents.antt =====
-- A guardrails document as deny_rules.py and output_guard.py read it, once it has been validated:
-- the lists that `compile_rules`, `OutputPolicy.from_mapping` and `OutputGuard.from_mapping` take.
use supervisor_agent.Base.{String, Option, none, some, List, [], ◌∷◌, map, keep}
use supervisor_agent.Worker.Json.{
  Json, Fields, null, arr, obj, nil, end, field, field_or, lookup_field, or_object,
}
use supervisor_agent.Governance.DenyRules.{RawRule}
use supervisor_agent.Governance.Sensitive.{Category}
use supervisor_agent.Governance.OutputGuard as Guard
use supervisor_agent.Governance.OutputGuard.{PolicySection}
use supervisor_agent.Governance.Validators.{
  text_of, is_text, list_of, fields_of, or_list, category_of, action_of, natural,
}

abbrev pub text_in : Option Json → Option String
text_in none = none
text_in (some v) = some (text_of v)

abbrev pub given_text : String → Json → Option String
given_text key entry = text_in (lookup_field key (fields_of entry))

abbrev pub rule_of : Json → RawRule
rule_of entry = record {
  pattern = given_text "pattern" entry;
  reason = given_text "reason" entry;
  action = given_text "action" entry;
}

abbrev pub entries : Json → String → List Json
entries payload section = list_of (or_list (field_or (fields_of payload) section (arr nil)))

-- `data.get(section, [])`
unfoldable pub raw_rules : Json → String → List RawRule
raw_rules payload section = map rule_of (entries payload section)

-- `if category in actions and action in ACTIONS`

unfoldable pub overrides_of : Fields → List (Category × Guard.Action)
overrides_of end = []
overrides_of (field category action rest) = elim (category_of category) [
  | none ↦ overrides_of rest
  | some c ↦ elim (action_of (text_of action)) [
    | none ↦ overrides_of rest
    | some a ↦ (c, a) ∷ overrides_of rest
  ]
]

abbrev pub policy_of : Json → Fields
policy_of payload = fields_of (or_object (field_or (fields_of payload) "output_policy" null))

unfoldable pub section_of : Json → PolicySection
unfolding overrides_of
section_of payload = record {
  overrides =
      overrides_of (fields_of (or_object (field_or (policy_of payload) "categories" (obj end))));
  escalate_at_findings = natural (field_or (policy_of payload) "escalate_at_findings" null);
}

-- `[c for c in (data.get("canary_tokens") or []) if isinstance(c, str)]`
unfoldable pub canaries_of : Json → List String
canaries_of payload =
    map text_of
      (keep is_text (list_of (or_list (field_or (fields_of payload) "canary_tokens" null))))
