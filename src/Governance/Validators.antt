-- ===== src/Governance/Validators.antt =====
-- governed_config_store.py: the checks of a guardrails document before it is published or served.
-- `re` is an argument, with the text of its error for a pattern; a pattern that the source compiles
-- once is kept here as its text.
pub mod Documents
pub mod Rules
pub mod Policy
use Prim.Native.Char.{code}
use supervisor_agent.Base.{
  ℕ, ◌+◌, ◌-◌, ◌*◌, String, ◌<>◌, ◌==◌, Bool, true, false, not, ◌&&◌, Option, none, some, List, [],
  ◌∷◌, leb, count, elem, is_some, if◌then◌else◌,
}
use supervisor_agent.Base.Text.{truthy, strip, decimal, join}
use supervisor_agent.Base.Result.{Result, ok, raised, ◌>>=◌}
use supervisor_agent.Worker.Json.{
  Json, Fields, null, boolean, number, str, arr, obj, nil, end, field, items_list, is_object,
  truthy_json, field_or, lookup_field, or_object,
}
use supervisor_agent.Governance.DenyRules.{Regex}
use supervisor_agent.Governance.Sensitive.{Category, has_category, never_allow}
use supervisor_agent.Governance.OutputGuard as Guard
use supervisor_agent.Governance.OutputGuard.{usable_canary, severity}
use supervisor_agent.Governance.ConfigStore.{require, config_error}

abbrev pub is_list : Json → Bool
is_list (arr xs) = true
is_list _ = false

abbrev pub is_text : Json → Bool
is_text (str s) = true
is_text _ = false

-- The parts of a value whose type has been checked.
abbrev pub text_of : Json → String
text_of (str s) = s
text_of _ = ""

abbrev pub list_of : Json → List Json
list_of (arr xs) = items_list xs
list_of _ = []

abbrev pub fields_of : Json → Fields
fields_of (obj fields) = fields
fields_of _ = end

-- `value or []`
abbrev pub or_list : Json → Json
or_list v = if truthy_json v then v else arr nil

-- `isinstance(value, str) and value != ""`, and a text in a tuple of texts
abbrev pub is_filled : Json → Bool
is_filled v = is_text v && truthy (text_of v)

abbrev pub is_one_of : List String → Json → Bool
is_one_of texts v = is_text v && elem (text_of v) texts

-- `if key in row: check(row[key])`
unfoldable pub when_given : String → Fields → (Json → Result (Unit {0})) → Result (Unit {0})
when_given key row check = elim (lookup_field key row) [ none ↦ ok tt | some v ↦ check v ]

abbrev pub prompt_field_control : String
prompt_field_control = "[\\x00-\\x08\\x0b\\x0c\\x0e-\\x1f\\x7f-\\x9f]"

abbrev pub prompt_field_markers : String
prompt_field_markers =
    "(?im)<\\|[a-z_]{0,32}\\|>|<\\/?(?:system|assistant|user|human|im_start|im_end)>|\\[/?INST\\]|\\[/?SYS\\]|###\\s*(?:system|instruction)s?\\s*:?|^\\s*(?:system|assistant|developer|tool)\\s*:"

-- `sensitive.CATEGORIES` and `ACTIONS`
abbrev pub category_names : List String
category_names =
    "credential" ∷ "secret_assignment" ∷ "government_id" ∷ "payment" ∷ "bank" ∷ "health_id"
    ∷ "health_condition" ∷ "person" ∷ "contact" ∷ "dob" ∷ "network" ∷ []

abbrev pub action_names : List String
action_names = "allow" ∷ "mask" ∷ "block" ∷ "escalate" ∷ []

-- The category and the action that a text names.
abbrev pub category_of : String → Option Category
category_of name =
    if name == "credential"
    then some Category.credential
    else if name == "secret_assignment"
    then some Category.secret_assignment
    else if name == "government_id"
    then some Category.government_id
    else if name == "payment"
    then some Category.payment
    else if name == "bank"
    then some Category.bank
    else if name == "health_id"
    then some Category.health_id
    else if name == "health_condition"
    then some Category.health_condition
    else if name == "person"
    then some Category.person
    else if name == "contact"
    then some Category.contact
    else if name == "dob"
    then some Category.dob
    else if name == "network"
    then some Category.network
    else none

abbrev pub action_of : String → Option Guard.Action
action_of name =
    if name == "allow"
    then some Guard.Action.allow
    else if name == "mask"
    then some Guard.Action.mask
    else if name == "block"
    then some Guard.Action.block
    else if name == "escalate"
    then some Guard.Action.escalate
    else none

digits_value : ℕ → String → Option ℕ
digits_value acc String.[] = some acc
digits_value acc (String.◌∷◌ c s) =
    let rest = digits_value (10 * acc + (code c - b'0')) s in
    if leb b'0' (code c) && leb (code c) b'9' then rest else none

-- The value of a whole number that is not negative, from its text; true and false are no numbers.
unfoldable pub natural : Json → Option ℕ
unfolding digits_value
natural (number n) = if truthy n then digits_value 0 n else none
natural _ = none

-- The high tier may not be `allow`.
abbrev pub never_delivered : String → Json → Bool
never_delivered category action =
    elim (category_of category) [ none ↦ false | some c ↦ has_category never_allow c ]
    && is_one_of ("allow" ∷ []) action

unfoldable pub validate_categories : Fields → Result (Unit {0})
validate_categories end = ok tt
validate_categories (field category action rest) = do
  known ← require (is_some (category_of category)) (
      "output_policy.categories has an unknown category '"
      <> (category <> ("' — known: " <> join ", " category_names)))
  acts ← require (is_one_of action_names action) (
      "output_policy.categories['"
      <> (category <> ("'] must be one of " <> join ", " action_names)))
  held ← require (not (never_delivered category action)) (
      "output_policy.categories['"
      <> (category <> "'] may not be 'allow': this category is never delivered unmasked"))
  validate_categories rest

-- The section where there is one.
unfoldable pub validate_section : Json → Result (Unit {0})
unfolding validate_categories when_given
validate_section null = ok tt
validate_section section = do
  mapping ← require (is_object section) "guardrails 'output_policy' must be a mapping"
  let categories = or_object (field_or (fields_of section) "categories" (obj end))
  mapped ← require (is_object categories) "guardrails 'output_policy.categories' must be a mapping"
  checked ← validate_categories (fields_of categories)
  when_given "escalate_at_findings" (fields_of section) (λ v.
      require (is_some (natural v))
        "output_policy.escalate_at_findings must be a non-negative integer (0 disables)")

unfoldable pub validate_output_policy : Fields → Result (Unit {0})
unfolding validate_section
validate_output_policy payload = validate_section (field_or payload "output_policy" null)

abbrev pub is_boolean : Json → Bool
is_boolean (boolean b) = true
is_boolean _ = false

unfoldable pub validate_kill_switch : Json → Result (Unit {0})
unfolding when_given
validate_kill_switch (obj declared) = do
  enabled ←
      require (is_boolean (field_or declared "enabled" null))
        "guardrails 'kill_switch.enabled' must be a boolean"
  when_given "message" declared (λ v.
      require (is_text v && leb (count (text_of v)) 500)
        "guardrails 'kill_switch.message' must be a string of at most 500 chars")
validate_kill_switch declared =
    require (is_boolean declared)
      "guardrails 'kill_switch' must be a boolean or a {enabled, message} mapping"

module _ (re : Regex) (error_text : String → String) where
  unfoldable pub compile_pattern : String → String → Result (Unit {0})
  compile_pattern pattern at =
      if re.compiles pattern
      then ok tt
      else raised
          (config_error (at <> (" is not a valid regular expression: " <> error_text pattern)))

  unfoldable pub validate_rule : String → Json → Result (Unit {0})
  unfolding compile_pattern when_given
  validate_rule at rule = do
    mapping ← require (is_object rule) (at <> " must be a mapping")
    let pattern = field_or (fields_of rule) "pattern" null
    filled ← require (is_filled pattern) (at <> ".pattern must be a string")
    compiled ← compile_pattern (text_of pattern) at
    reason ←
        when_given "reason" (fields_of rule)
          (λ v. require (is_text v) (at <> ".reason must be a string"))
    when_given "action" (fields_of rule) (λ v.
        require (is_one_of ("block" ∷ "escalate" ∷ []) v)
          (at <> ".action must be 'block' or 'escalate'"))

  -- The entries of a section, from the given index on.
  unfoldable pub validate_rules : String → ℕ → List Json → Result (Unit {0})
  unfolding validate_rule
  validate_rules section index [] = ok tt
  validate_rules section index (rule ∷ rules) = do
    first ← validate_rule (section <> ("[" <> (decimal index <> "]"))) rule
    validate_rules section (index + 1) rules

  unfoldable pub validate_deny_rules : Fields → String → Result (Unit {0})
  unfolding validate_rules
  validate_deny_rules payload section = do
    let rules = or_list (field_or payload section (arr nil))
    listed ← require (is_list rules) ("guardrails '" <> (section <> "' must be a list"))
    validate_rules section 0 (list_of rules)

  unfoldable pub validate_canary : String → Json → Result (Unit {0})
  validate_canary at token = do
    sized ←
        require
          (is_text token
            && leb 8 (count (strip (text_of token)))
            && leb (count (strip (text_of token))) 64)
          (at <> " must be a string of 8 to 64 characters")
    clean ←
        require (not (re.search prompt_field_control (text_of token)))
          (at <> " contains control characters")
    require (usable_canary (text_of token)) (
        at
        <> " must contain at least 6 ASCII letters or digits — the detector matches on the condensed form, so anything less is never armed")

  unfoldable pub validate_tokens : ℕ → List Json → Result (Unit {0})
  unfolding validate_canary
  validate_tokens index [] = ok tt
  validate_tokens index (token ∷ tokens) = do
    first ← validate_canary ("canary_tokens[" <> (decimal index <> "]")) token
    validate_tokens (index + 1) tokens

  unfoldable pub validate_canary_list : Json → Result (Unit {0})
  unfolding validate_tokens
  validate_canary_list null = ok tt
  validate_canary_list canaries = do
    listed ← require (is_list canaries) "guardrails 'canary_tokens' must be a list"
    validate_tokens 0 (list_of canaries)

  unfoldable pub validate_canaries : Fields → Result (Unit {0})
  unfolding validate_canary_list
  validate_canaries payload = validate_canary_list (field_or payload "canary_tokens" null)

  unfoldable pub validate_guardrails : Json → Result (Unit {0})
  unfolding validate_deny_rules validate_output_policy validate_canaries validate_kill_switch
  validate_guardrails payload = do
    mapping ← require (is_object payload) "guardrails config must be a mapping"
    inbound ← validate_deny_rules (fields_of payload) "global_deny_patterns"
    outbound ← validate_deny_rules (fields_of payload) "output_deny_patterns"
    policy ← validate_output_policy (fields_of payload)
    canaries ← validate_canaries (fields_of payload)
    when_given "kill_switch" (fields_of payload) validate_kill_switch
