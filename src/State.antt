-- ===== src/State.antt =====
-- src/supervisor/state.py and settings.py: the checkpointed state of a conversation, the context
-- of one turn, the settings that the stages read. Wall-clock times and durations are thousandths
-- of a second.
use supervisor_agent.Base.{ℕ, String, Bool, false, Option, none, some, List, []}
use supervisor_agent.Base.Text.{or_text}
use supervisor_agent.Base.Dict.{Dict}
use supervisor_agent.Worker.Json.{Json}
use supervisor_agent.Engine.Replies.{ApprovalReply, Decision}
use supervisor_agent.Engine.Screen.{Tier}

pub data Role : Type 0 where
  human ai another : Role

pub record Message : Type 0 where
  pub role : Role
  pub content : String

-- An ISO timestamp: the moment that it stands for, or a text that does not parse.
pub data Stamp : Type 0 where
  at : ℕ → Stamp
  unparseable : String → Stamp

-- One entry of the audit trail.
pub record Entry : Type 0 where
  pub stage : String
  pub decision : String
  pub detail : String
  pub ts : Stamp

-- `outcome`; `unset` is the empty text that the gate writes.
pub data Outcome : Type 0 where
  unset answer blocked clarify escalated approval_pending error expired : Outcome

pub record RbacRecord : Type 0 where
  pub allowed : Bool
  pub reason : String

-- The `guardrail` record. A key that a branch does not write has the value that `.get` falls back
-- to; `considered` and the like are lists.
pub record GuardrailRecord : Type 0 where
  pub passed : Bool
  pub tier : Tier
  pub reason : String
  pub escalated : Bool
  pub block_streak : Option ℕ
  pub considered : List String
  pub small_talk : String
  pub underspecified : Bool
  pub retargeted : Bool
  pub contested : List String
  pub additional_request : String

abbrev pub guardrail_record : Bool → Tier → String → GuardrailRecord
guardrail_record passed tier reason = record {
  passed = passed;
  tier = tier;
  reason = reason;
  escalated = false;
  block_streak = none;
  considered = [];
  small_talk = "";
  underspecified = false;
  retargeted = false;
  contested = [];
  additional_request = "";
}

pub record RouteRecord : Type 0 where
  pub next : String
  pub resolved_context : Dict String
  pub carried_over : Dict String
  pub dropped_context : List String

pub record WorkerNote : Type 0 where
  pub status : String
  pub stage : Json

pub record Signoff : Type 0 where
  pub stage : Json
  pub agent_id : String
  pub approver : String
  pub approver_role : String
  pub decided_at : Stamp
  pub staged_at : Option Stamp
  pub waited_seconds : Option ℕ
  pub comment : Json
  pub decision : Decision

pub record Pending : Type 0 where
  pub agent_id : String
  pub agent_name : String
  pub stage : Json
  pub artifact : String
  pub context : Dict String
  pub staged_at : Option Stamp
  pub required_because : String
  pub risk_level : String

pub record Deferred : Type 0 where
  pub text : String
  pub asked_at : String

pub record SupervisorState : Type 0 where
  pub messages : List Message
  pub conversation_id : String
  pub request_id : String
  pub target_agent_id : String
  pub rbac : Option RbacRecord
  pub guardrail : Option GuardrailRecord
  pub route : Option RouteRecord
  pub worker_response : Option WorkerNote
  pub outcome : Outcome
  pub final_text : String
  pub signoff : Option Signoff
  pub routed_agent_name : String
  pub sources : List (Dict String)
  pub audit_trail : List Entry
  pub session_context : Dict String
  pub deferred_request : Option Deferred
  pub clarification_count : ℕ
  pub pending_clarification : Option String
  pub guardrail_block_streak : ℕ
  pub pending_approval : Option Pending
  pub approval_reply : Option ApprovalReply
  pub last_signoff : Option Signoff
  pub session_started_at : Option Stamp
  pub session_last_active_at : Option Stamp

pub record SupervisorContext : Type 0 where
  pub user_role : String
  pub user_key : String
  pub permitted_agents : Option (List String)
  pub approvable_agents : Option (List String)
  pub requested_agent_id : String
  pub correlation_id : String
  pub environment : String
  pub turn_started_at : ℕ

-- The keys of `custom_inputs` that are read here, as texts.
pub record CustomInputs : Type 0 where
  pub user_role : Option String
  pub user_id : Option String
  pub user_reference : Option String
  pub permitted_agents : Option (List String)
  pub approvable_agents : Option (List String)
  pub agent_id : Option String
  pub correlation_id : Option String
  pub environment : Option String

abbrev get_or : Option String → String → String
get_or none default = default
get_or (some s) default = s

-- The turn's clock starts at `now`, the reading of the monotonic clock.
unfoldable pub from_custom_inputs : CustomInputs → ℕ → SupervisorContext
from_custom_inputs custom now = record {
  user_role = get_or custom.user_role "";
  user_key = or_text (get_or custom.user_id "") (get_or custom.user_reference "");
  permitted_agents = custom.permitted_agents;
  approvable_agents = custom.approvable_agents;
  requested_agent_id = get_or custom.agent_id "";
  correlation_id = get_or custom.correlation_id "";
  environment = get_or custom.environment "dev";
  turn_started_at = now;
}

-- The settings that the stages read.
pub record Settings : Type 0 where
  pub environment : String
  pub turn_budget_seconds : ℕ
  pub max_clarifications : ℕ
  pub session_max_age_seconds : ℕ
  pub approval_max_age_seconds : ℕ
  pub input_max_chars : ℕ
  pub guardrail_block_streak_limit : ℕ
  pub worker_output_max_chars : ℕ
  pub history_max_tokens : ℕ
  pub worker_history_max_tokens : ℕ
