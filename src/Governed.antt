-- ===== src/Governed.antt =====
-- governed_config.py: the checks of the agents and the roles document, and the supervisor's table
-- of checks. A pattern that the source compiles once is kept here as its text; `repr` is the text
-- that Python prints for a value in a message.
pub mod Documents
pub mod Agents
use supervisor_agent.Base.{
  false, true, if◌then◌else◌, ℕ, ◌+◌, String, ◌<>◌, Bool, not, ◌&&◌, List, [], ◌∷◌, leb, ltb, count,
  elem,
}
use supervisor_agent.Base.Text.{truthy, strip, lower, decimal}
use supervisor_agent.Base.Dict.{Dict}
use supervisor_agent.Base.Result.{Result, ok, ◌>>=◌}
use supervisor_agent.Worker.Json.{
  str, truthy_json, Json, Fields, null, arr, nil, end, field, is_object, field_or,
}
use supervisor_agent.Governance.DenyRules.{Regex}
use supervisor_agent.Governance.ConfigStore.{require, Validator}
use supervisor_agent.Governance.Validators.{
  text_of, list_of, fields_of, is_text, is_list, is_filled, or_list, when_given, compile_pattern,
  prompt_field_control, prompt_field_markers, validate_guardrails,
}

abbrev pub agent_id_form : String
agent_id_form = "^[a-z0-9][a-z0-9-]{1,63}$"

abbrev pub context_key_form : String
context_key_form = "^[a-z][a-z0-9_]{0,31}$"

-- `_RISK_LEVELS`, in the order of the message
abbrev pub risk_levels : List String
risk_levels = "critical" ∷ "high" ∷ "low" ∷ "medium" ∷ []

-- `_PROMPT_FIELD_LIMITS`
abbrev pub prompt_field_limits : List (String × ℕ)
prompt_field_limits = ("name", 120) ∷ ("description", 2000) ∷ ("domain_scope", 4000) ∷ []

-- `isinstance(value, str) and bool(FORM.match(value))`, and `value.strip() != ""` of a text
abbrev pub has_form : Regex → String → Json → Bool
has_form re form v = is_text v && re.search form (text_of v)

abbrev pub is_named : Json → Bool
is_named v = is_text v && truthy (strip (text_of v))

abbrev pub is_null : Json → Bool
is_null null = true
is_null _ = false

-- `if key in row and row[key] is not None: check(row[key])`
unfoldable pub when_set : String → Fields → (Json → Result (Unit {0})) → Result (Unit {0})
unfolding when_given
when_set key row check = when_given key row (λ v. if is_null v then ok tt else check v)

abbrev pub validate_model : String → Json → Result (Unit {0})
validate_model at v =
    require (is_named v) (at <> ".model must be a non-empty serving-endpoint name when present")

module _ (re : Regex) (error_text : String → String) (repr : Json → String) where
  unfoldable pub validate_prompt_field : String → String → String → ℕ → Result (Unit {0})
  validate_prompt_field value at name limit = do
    sized ← require (leb (count value) limit) (
        at
        <> ("."
            <> (name
                <> (" exceeds "
                    <> (decimal limit
                        <> " characters — this text is injected into governance system prompts and must stay remit-sized")))))
    clean ←
        require (not (re.search prompt_field_control value))
          (at <> ("." <> (name <> " contains control characters")))
    require (not (re.search prompt_field_markers value)) (
        at
        <> ("."
            <> (name
                <> " contains chat-template or turn-boundary markers, which have no place in prompt-bound configuration")))

  unfoldable pub validate_prompt_fields : String → Fields → List (String × ℕ) → Result (Unit {0})
  unfolding validate_prompt_field when_given
  validate_prompt_fields at row [] = ok tt
  validate_prompt_fields at row ((name, limit) ∷ limits) = do
    first ← when_given name row (λ v. do
      texted ← require (is_text v) (at <> ("." <> (name <> " must be a string")))
      validate_prompt_field (text_of v) at name limit)
    validate_prompt_fields at row limits

  unfoldable pub validate_context_keys : String → List Json → Result (Unit {0})
  validate_context_keys at [] = ok tt
  validate_context_keys at (key ∷ keys) = do
    first ←
        require (has_form re context_key_form key)
          (at <> (".required_context contains an invalid key " <> repr key))
    validate_context_keys at keys

  unfoldable pub validate_patterns : String → List Json → Result (Unit {0})
  unfolding compile_pattern
  validate_patterns at [] = ok tt
  validate_patterns at (pattern ∷ patterns) = do
    first ← require (is_text pattern) (at <> ".deny_patterns must contain strings")
    compiled ← compile_pattern re error_text (text_of pattern) (at <> ".deny_patterns")
    validate_patterns at patterns

  unfoldable pub validate_approval : String → Json → Result (Unit {0})
  unfolding compile_pattern
  validate_approval at rule = do
    mapping ← require (is_object rule) (at <> " must be a mapping")
    let pattern = field_or (fields_of rule) "pattern" null
    filled ← require (is_filled pattern) (at <> ".pattern must be a string")
    compiled ← compile_pattern re error_text (text_of pattern) at
    let reason = field_or (fields_of rule) "reason" null
    sized ←
        require
          (is_text reason && ltb 0 (count (text_of reason)) && leb (count (text_of reason)) 500)
          (at
            <> ".reason must be a non-empty string of at most 500 characters — it is shown to the human being asked to approve")
    require
        (not (re.search prompt_field_control (text_of reason))
          && not (re.search prompt_field_markers (text_of reason)))
        (at <> ".reason contains control characters or turn-boundary markers")

  unfoldable pub validate_approvals : String → ℕ → List Json → Result (Unit {0})
  unfolding validate_approval
  validate_approvals at position [] = ok tt
  validate_approvals at position (rule ∷ rules) = do
    first ← validate_approval (at <> (".approval_patterns[" <> (decimal position <> "]"))) rule
    validate_approvals at (position + 1) rules

  -- One row, after its id has been checked.
  unfoldable pub validate_row : String → Fields → Result (Unit {0})
  unfolding validate_prompt_fields validate_context_keys validate_patterns validate_approvals
      when_set
  validate_row at row = do
    endpoint ←
        require (is_named (field_or row "endpoint" null))
          (at <> ".endpoint must be a non-empty string")
    fields ← validate_prompt_fields at row prompt_field_limits
    model ← when_set "model" row (validate_model at)
    let required = or_list (field_or row "required_context" (arr nil))
    listed ← require (is_list required) (at <> ".required_context must be a list")
    keys ← validate_context_keys at (list_of required)
    let patterns = or_list (field_or row "deny_patterns" (arr nil))
    listed ← require (is_list patterns) (at <> ".deny_patterns must be a list")
    denials ← validate_patterns at (list_of patterns)
    let approvals = or_list (field_or row "approval_patterns" (arr nil))
    listed ← require (is_list approvals) (at <> ".approval_patterns must be a list")
    signoffs ← validate_approvals at 0 (list_of approvals)
    when_set "risk_level" row (λ v.
        require (is_text v && elem (lower (strip (text_of v))) risk_levels)
          (at <> ".risk_level must be one of critical, high, low, medium"))

  -- The rows from the given index on, after the ids seen so far.
  unfoldable pub validate_rows : ℕ → List String → List Json → Result (Unit {0})
  unfolding validate_row
  validate_rows index seen [] = ok tt
  validate_rows index seen (row ∷ rows) = do
    let at = "agents[" <> (decimal index <> "]")
    mapping ← require (is_object row) (at <> " must be a mapping")
    let agent_id = field_or (fields_of row) "id" null
    slug ←
        require (has_form re agent_id_form agent_id)
          (at <> (".id must be a lowercase slug, got " <> repr agent_id))
    fresh ← require (not (elem (text_of agent_id) seen)) ("duplicate agent id " <> repr agent_id)
    checked ← validate_row at (fields_of row)
    validate_rows (index + 1) (text_of agent_id ∷ seen) rows

  unfoldable pub validate_agents : Validator
  unfolding validate_rows
  validate_agents payload = do
    mapping ← require (is_object payload) "agents config must be a mapping"
    let agents = field_or (fields_of payload) "agents" null
    listed ←
        require (is_list agents && truthy_json agents)
          "agents config needs a non-empty 'agents' list"
    validate_rows 0 [] (list_of agents)

  unfoldable pub validate_role : String → List Json → Result (Unit {0})
  validate_role role [] = ok tt
  validate_role role (agent_id ∷ agents) = do
    slug ←
        require (has_form re agent_id_form agent_id)
          ("roles[" <> (repr (str role) <> ("] contains an invalid agent id " <> repr agent_id)))
    validate_role role agents

  unfoldable pub validate_roles : Fields → Result (Unit {0})
  unfolding validate_role
  validate_roles end = ok tt
  validate_roles (field role agents rest) = do
    named ← require (truthy (strip role)) ("invalid role name " <> repr (str role))
    listed ←
        require (is_list agents) ("roles[" <> (repr (str role) <> "] must be a list of agent ids"))
    checked ← validate_role role (list_of agents)
    validate_roles rest

  unfoldable pub validate_rbac : Validator
  unfolding validate_roles
  validate_rbac payload = do
    mapping ← require (is_object payload) "rbac config must be a mapping"
    let roles = field_or (fields_of payload) "roles" null
    mapped ← require (is_object roles) "rbac config needs a 'roles' mapping"
    validate_roles (fields_of roles)

  -- `VALIDATORS`
  abbrev pub validators : Dict Validator
  validators =
      ("agents", validate_agents)
      ∷ ("rbac", validate_rbac)
      ∷ ("guardrails", validate_guardrails re error_text)
      ∷ []
