-- ===== src/Settings.antt =====
-- src/supervisor/settings.py: the settings, their validation and its enforcement at start-up. The
-- variables of the process, Python's `int` and `float` of a text and the package's configuration
-- folder are arguments. A float is kept exactly, NaN and the infinities included.
pub mod Startup
use supervisor_agent.Base.{
  ℕ, String, ◌<>◌, ◌==◌, Bool, true, false, not, some, ◌&&◌, ◌||◌, List, [], ◌∷◌, is_empty,
  if◌then◌else◌,
}
use supervisor_agent.Base.Int.{ℤ, pos, leℤ}
use supervisor_agent.Base.Float.{Float, whole, le, lt}
use supervisor_agent.Base.Text.{lower, strip, join}
use supervisor_agent.Base.Result.{Result, ok, raised, other_error, ◌>>=◌}
use supervisor_agent.Governance.Environment.{Environ, getenv, is_local_environment}

pub record Settings : Type 0 where
  pub routing_llm_endpoint : String
  pub routing_temperature : Float
  pub multi_model_enabled : Bool
  pub routing_llm_timeout_seconds : Float
  pub routing_llm_max_retries : ℤ
  pub governance_llm_attempts : ℤ
  pub worker_timeout_seconds : Float
  pub turn_budget_seconds : Float
  pub environment : String
  pub config_dir : String
  pub config_source : String
  pub config_table : String
  pub config_cache_seconds : Float
  pub audit_pg_table : String
  pub max_clarifications : ℤ
  pub session_max_age_seconds : Float
  pub approval_max_age_seconds : Float
  pub long_term_memory_ttl_seconds : Float
  pub input_max_chars : ℤ
  pub guardrail_block_streak_limit : ℤ
  pub output_pii_masking : Bool
  pub worker_output_max_chars : ℤ
  pub durability : String
  pub history_max_tokens : ℤ
  pub worker_history_max_tokens : ℤ
  pub guardrail_confidence_threshold : Float
  pub routing_decisive_confidence : Float
  pub routing_contested_margin : Float
  pub worker_max_attempts : ℤ
  pub worker_backoff_seconds : Float
  pub worker_circuit_threshold : ℤ
  pub worker_circuit_cooldown_seconds : Float
  pub graph_recursion_limit : ℤ
  pub mock_workers : Bool

-- The defaults of the fields, in their order: a text that is no number raises.
unfoldable pub from_environ :
    Environ → (String → Result ℤ) → (String → Result Float) → String → Result Settings
from_environ env to_int to_float package_config = do
  routing_temperature ← to_float (getenv env "ROUTING_TEMPERATURE" "0.0")
  routing_llm_timeout_seconds ← to_float (getenv env "ROUTING_LLM_TIMEOUT_SECONDS" "30")
  routing_llm_max_retries ← to_int (getenv env "ROUTING_LLM_MAX_RETRIES" "0")
  governance_llm_attempts ← to_int (getenv env "GOVERNANCE_LLM_ATTEMPTS" "3")
  worker_timeout_seconds ← to_float (getenv env "WORKER_TIMEOUT_SECONDS" "45")
  turn_budget_seconds ← to_float (getenv env "TURN_BUDGET_SECONDS" "120")
  config_cache_seconds ← to_float (getenv env "CONFIG_CACHE_TTL_SECONDS" "60")
  max_clarifications ← to_int (getenv env "MAX_CLARIFICATIONS" "2")
  session_max_age_seconds ← to_float (getenv env "SESSION_MAX_AGE_SECONDS" "604800")
  approval_max_age_seconds ← to_float (getenv env "APPROVAL_MAX_AGE_SECONDS" "2592000")
  long_term_memory_ttl_seconds ← to_float (getenv env "LONG_TERM_MEMORY_TTL_SECONDS" "7776000")
  input_max_chars ← to_int (getenv env "INPUT_MAX_CHARS" "8000")
  guardrail_block_streak_limit ← to_int (getenv env "GUARDRAIL_BLOCK_STREAK_LIMIT" "5")
  worker_output_max_chars ← to_int (getenv env "WORKER_OUTPUT_MAX_CHARS" "24000")
  history_max_tokens ← to_int (getenv env "SUPERVISOR_HISTORY_MAX_TOKENS" "4000")
  worker_history_max_tokens ← to_int (getenv env "WORKER_HISTORY_MAX_TOKENS" "16000")
  guardrail_confidence_threshold ← to_float (getenv env "GUARDRAIL_CONFIDENCE_THRESHOLD" "0.7")
  routing_decisive_confidence ← to_float (getenv env "ROUTING_DECISIVE_CONFIDENCE" "0.9")
  routing_contested_margin ← to_float (getenv env "ROUTING_CONTESTED_MARGIN" "0.15")
  worker_max_attempts ← to_int (getenv env "WORKER_MAX_ATTEMPTS" "3")
  worker_backoff_seconds ← to_float (getenv env "WORKER_BACKOFF_SECONDS" "1.0")
  worker_circuit_threshold ← to_int (getenv env "WORKER_CIRCUIT_THRESHOLD" "3")
  worker_circuit_cooldown_seconds ← to_float (getenv env "WORKER_CIRCUIT_COOLDOWN_SECONDS" "60")
  graph_recursion_limit ← to_int (getenv env "GRAPH_RECURSION_LIMIT" "12")
  ok (record {
    routing_llm_endpoint = getenv env "ROUTING_LLM_ENDPOINT" "databricks-claude-sonnet-4-5";
    routing_temperature = routing_temperature;
    multi_model_enabled = lower (getenv env "MULTI_MODEL_ENABLED" "") == "true";
    routing_llm_timeout_seconds = routing_llm_timeout_seconds;
    routing_llm_max_retries = routing_llm_max_retries;
    governance_llm_attempts = governance_llm_attempts;
    worker_timeout_seconds = worker_timeout_seconds;
    turn_budget_seconds = turn_budget_seconds;
    environment = getenv env "ENVIRONMENT" "local";
    config_dir = getenv env "SUPERVISOR_CONFIG_DIR" package_config;
    config_source = lower (strip (getenv env "SUPERVISOR_CONFIG_SOURCE" "auto"));
    config_table = getenv env "SUPERVISOR_CONFIG_TABLE" "supervisor_config";
    config_cache_seconds = config_cache_seconds;
    audit_pg_table = getenv env "AUDIT_PG_TABLE" "supervisor_audit_log";
    max_clarifications = max_clarifications;
    session_max_age_seconds = session_max_age_seconds;
    approval_max_age_seconds = approval_max_age_seconds;
    long_term_memory_ttl_seconds = long_term_memory_ttl_seconds;
    input_max_chars = input_max_chars;
    guardrail_block_streak_limit = guardrail_block_streak_limit;
    output_pii_masking = not (lower (getenv env "OUTPUT_PII_MASKING" "true") == "false");
    worker_output_max_chars = worker_output_max_chars;
    durability = getenv env "SUPERVISOR_DURABILITY" "sync";
    history_max_tokens = history_max_tokens;
    worker_history_max_tokens = worker_history_max_tokens;
    guardrail_confidence_threshold = guardrail_confidence_threshold;
    routing_decisive_confidence = routing_decisive_confidence;
    routing_contested_margin = routing_contested_margin;
    worker_max_attempts = worker_max_attempts;
    worker_backoff_seconds = worker_backoff_seconds;
    worker_circuit_threshold = worker_circuit_threshold;
    worker_circuit_cooldown_seconds = worker_circuit_cooldown_seconds;
    graph_recursion_limit = graph_recursion_limit;
    mock_workers = lower (getenv env "SUPERVISOR_MOCK_WORKERS" "") == "true";
  })

-- `a < b`
abbrev pub ltℤ : ℤ → ℤ → Bool
ltℤ a b = not (leℤ b a)

-- What `validate` tests, in its order, each with its finding.
abbrev pub checks : Settings → List (Bool × String)
checks s =
    (
      le s.turn_budget_seconds (whole 0),
      "TURN_BUDGET_SECONDS<=0 disables the turn time budget (solution §05)",
    )
    ∷ (
      ltℤ s.max_clarifications (pos 1),
      "MAX_CLARIFICATIONS<1 escalates on the first ambiguous turn",
    )
    ∷ (
      not (le (whole 0) s.routing_contested_margin && le s.routing_contested_margin (whole 1)),
      "ROUTING_CONTESTED_MARGIN must be between 0.0 and 1.0",
    )
    ∷ (
      not (
          lt (whole 0) s.routing_decisive_confidence && le s.routing_decisive_confidence (whole 1)),
      "ROUTING_DECISIVE_CONFIDENCE must be between 0.0 and 1.0",
    )
    ∷ (
      lt s.routing_decisive_confidence s.guardrail_confidence_threshold,
      "ROUTING_DECISIVE_CONFIDENCE below GUARDRAIL_CONFIDENCE_THRESHOLD means the screen stops at the first candidate above the acting threshold, so which agent owns a contested request is decided by candidate order",
    )
    ∷ (
      not (
          lt (whole 0) s.guardrail_confidence_threshold
          && le s.guardrail_confidence_threshold (whole 1)),
      "GUARDRAIL_CONFIDENCE_THRESHOLD outside (0, 1] weakens or disables the semantic guardrail",
    )
    ∷ (
      le s.session_max_age_seconds (whole 0),
      "SESSION_MAX_AGE_SECONDS<=0 disables the session lifetime bound",
    )
    ∷ (
      lt s.approval_max_age_seconds s.session_max_age_seconds,
      "APPROVAL_MAX_AGE_SECONDS below SESSION_MAX_AGE_SECONDS expires a pending approval sooner than an ordinary conversation",
    )
    ∷ (
      le s.long_term_memory_ttl_seconds (whole 0),
      "LONG_TERM_MEMORY_TTL_SECONDS<=0 keeps remembered context forever (guardrail layer 3: memory expiry)",
    )
    ∷ (
      leℤ s.worker_output_max_chars (pos 0),
      "WORKER_OUTPUT_MAX_CHARS<=0 removes the worker output size bound",
    )
    ∷ (leℤ s.input_max_chars (pos 0), "INPUT_MAX_CHARS<=0 removes the inbound message size bound")
    ∷ (
      ltℤ s.guardrail_block_streak_limit (pos 1),
      "GUARDRAIL_BLOCK_STREAK_LIMIT<1 disables the repeated-block escalation (guardrail probing goes unflagged)",
    )
    ∷ (
      le s.routing_llm_timeout_seconds (whole 0) || le s.worker_timeout_seconds (whole 0),
      "a per-call timeout <= 0 leaves an outbound call unbounded",
    )
    ∷ (
      ltℤ s.worker_max_attempts (pos 1) || ltℤ s.governance_llm_attempts (pos 1),
      "retry attempt counts below 1 make every call fail before it starts",
    )
    ∷ (
      ltℤ s.graph_recursion_limit (pos 6),
      "GRAPH_RECURSION_LIMIT below 6 is shorter than the graph's longest legitimate path and will fail normal turns",
    )
    ∷ []

abbrev pub flagged : List (Bool × String) → List String
flagged [] = []
flagged ((bad, finding) ∷ rest) = let later = flagged rest in if bad then finding ∷ later else later

unfoldable pub validate : Settings → List String
validate s = flagged (checks s)

-- Findings refuse the start of a deployed environment, and are logged in a local one. The log is
-- the list that is returned.
unfoldable pub enforce : Environ → Settings → Result (List String)
unfolding validate
enforce env s =
    let findings = validate s in
    if is_empty findings
    then ok []
    else if not (is_local_environment env (some s.environment))
    then raised (
        other_error "RuntimeError"
          ("refusing to serve with safety-critical settings disabled: " <> join "; " findings))
    else ok findings
