-- ===== src/Tests/Fixtures.antt =====
-- A small deployment: two agents, a role that may reach both, a model that claims every request,
-- a worker that answers every call, and a conversation of one message.
use supervisor_agent.Base.{ℕ, ◌+◌, String, true, false, none, some, List, [], ◌∷◌}
use supervisor_agent.Base.Text.{is_in, lower}
use supervisor_agent.Base.Result.{ok}
use supervisor_agent.Governance.DenyRules as Deny
use supervisor_agent.Governance.DenyRules.{Regex, DenyRule}
use supervisor_agent.Governance.Deadline.{Deadline}
use supervisor_agent.Governance.Sensitive.{Category, Finding}
use supervisor_agent.Governance.OutputGuard as Guard
use supervisor_agent.Governance.OutputGuard.{OutputGuard, OutputPolicy}
use supervisor_agent.Worker.Json.{null}
use supervisor_agent.Worker.Registry.{WorkerAgent, AgentRegistry}
use supervisor_agent.Worker.Breaker.{CircuitBreaker}
use supervisor_agent.Worker.Response.{WorkerResponse, completed}
use supervisor_agent.Worker.Client.{Called}
use supervisor_agent.Engine.Verdict.{GuardrailVerdict, ScreenModel}
use supervisor_agent.Engine.Screen.{GuardrailEngine}
use supervisor_agent.State.{
  Message, human, at, unset, Settings, SupervisorState, SupervisorContext, Pending,
}
use supervisor_agent.Resolver.{RouteModel}
use supervisor_agent.Services.{Services, World, WorkerCall}

-- Patterns are plain texts here, and a substitution finds nothing.
abbrev pub plain_regex : Regex
plain_regex = record {
  compiles = λ p. true;
  search = λ p t. is_in p t;
  search_i = λ p t. is_in (lower p) (lower t);
  match_i = λ p t. none;
  subn = λ p f t. (t, 0);
  count_all = λ p t. 0;
}

abbrev pub story_agent : WorkerAgent
story_agent = record {
  id = "story";
  name = "Story agent";
  description = "Writes stories";
  endpoint = "story-endpoint";
  domain_scope = "user stories";
  required_context = "project" ∷ [];
  deny_patterns = "salary" ∷ [];
  model = "";
  approval_patterns = [];
  risk_level = "low";
}

abbrev pub design_agent : WorkerAgent
design_agent = record {
  id = "design";
  name = "Design agent";
  description = "Writes designs";
  endpoint = "design-endpoint";
  domain_scope = "designs";
  required_context = [];
  deny_patterns = [];
  model = "";
  approval_patterns =
      record { pattern = some "production"; reason = some "touches production" } ∷ [];
  risk_level = "high";
}

abbrev pub agents : AgentRegistry
agents = ("story", story_agent) ∷ ("design", design_agent) ∷ []

abbrev pub claim : ℕ → GuardrailVerdict
claim confidence = record {
  sdlc_reading = "a story";
  in_domain = true;
  confidence = confidence;
  underspecified = false;
  clarification = "";
  additional_request = "";
  reason = "a story is asked for";
}

abbrev pub claiming_model : WorkerAgent → ScreenModel
claiming_model agent prompt n t = record { elapsed = 200; reply = ok (claim 900); draw = 0 }

abbrev pub no_export : DenyRule
no_export = record { regex = "export all"; reason = "bulk export"; action = Deny.Action.block }

abbrev pub engine : GuardrailEngine
engine = record {
  re = plain_regex;
  rules = no_export ∷ [];
  threshold = 600;
  decisive = 850;
  contested_margin = 100;
  kill_switch_message = "";
  model = claiming_model;
  attempts = 2;
}

abbrev pub nothing_sensitive : String → List Category → List Finding
nothing_sensitive text wanted = []

abbrev pub mask_contact : OutputPolicy
mask_contact = record { action_for = λ c. Guard.default_action c; escalate_at_findings = 5 }

abbrev pub guard : OutputGuard
guard = record {
  re = plain_regex;
  matches = nothing_sensitive;
  rules = no_export ∷ [];
  policy = mask_contact;
  canaries = "zq7canary" ∷ [];
  protected = [];
}

abbrev pub settings : Settings
settings = record {
  environment = "local";
  turn_budget_seconds = 60000;
  max_clarifications = 2;
  session_max_age_seconds = 1000000;
  approval_max_age_seconds = 5000000;
  input_max_chars = 100;
  guardrail_block_streak_limit = 2;
  worker_output_max_chars = 1000;
  history_max_tokens = 100;
  worker_history_max_tokens = 100;
}

abbrev pub ready : RouteModel
ready prompt n t = record {
  elapsed = 100;
  reply = ok (record {
    context_applies = true;
    prior_context_applies = true;
    ready = true;
    resolved_context = ("project", "Apollo") ∷ [];
    clarifying_question = none;
  });
  draw = 0;
}

abbrev pub answer_text : WorkerResponse
answer_text = record { text = "Here is the story."; status = completed; stage = null; sources = [] }

abbrev pub answering : WorkerCall → CircuitBreaker → ℕ → Called
answering call b now = record { reply = ok answer_text; breaker = b; now = now + 500 }

abbrev pub services : Services
services = record {
  environ = λ name. none;
  settings = settings;
  registry = agents;
  rbac = record { role_to_agents = ("analyst", "story" ∷ "design" ∷ []) ∷ [] };
  guardrails = engine;
  output_guard = guard;
  route_model = λ agent. ready;
  route_attempts = 2;
  workers = answering;
  memory_keys = "project" ∷ [];
  memory_ttl = 1000;
  trim = λ ms n. some ms;
  dict_text = λ d. "{}";
  time_text = λ t. "2026-01-01T00:00:00";
}

abbrev pub closed_breaker : CircuitBreaker
closed_breaker = record { threshold = 2; cooldown = 30000; failures = []; open_until = [] }

abbrev pub world : World
world = record {
  now = 5000;
  wall = 9000000;
  uuid = "request-1";
  breaker = closed_breaker;
  store = [];
  store_reads = true;
  store_writes = true;
  audit_up = true;
  audit_log = [];
}

abbrev pub context : SupervisorContext
context = record {
  user_role = "analyst";
  user_key = "user-1";
  permitted_agents = none;
  approvable_agents = none;
  requested_agent_id = "story";
  correlation_id = "c";
  environment = "local";
  turn_started_at = 4000;
}

abbrev pub saying : String → List Message
saying text = record { role = human; content = text } ∷ []

abbrev pub fresh : String → SupervisorState
fresh text = record {
  messages = saying text;
  conversation_id = "conversation-1";
  request_id = "";
  target_agent_id = "";
  rbac = none;
  guardrail = none;
  route = none;
  worker_response = none;
  outcome = unset;
  final_text = "";
  signoff = none;
  routed_agent_name = "";
  sources = [];
  audit_trail = [];
  session_context = [];
  deferred_request = none;
  clarification_count = 0;
  pending_clarification = none;
  guardrail_block_streak = 0;
  pending_approval = none;
  approval_reply = none;
  last_signoff = none;
  session_started_at = some (at 8999000);
  session_last_active_at = some (at 8999000);
}

abbrev pub asking : SupervisorState
asking = fresh "write a story"

abbrev pub staged : Pending
staged = record {
  agent_id = "design";
  agent_name = "Design agent";
  stage = null;
  artifact = "The design.";
  context = [];
  staged_at = some (at 8990000);
  required_because = "touches production";
  risk_level = "high";
}

-- The deadline of a turn that started at 4000 with a minute.
abbrev pub minute : Deadline
minute = record { started_at = 4000; budget_seconds = 60000 }
