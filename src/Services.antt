-- ===== src/Services.antt =====
-- src/supervisor/services.py: what the stages are given, and the world that a stage changes.
-- The clients are interfaces here, as they are protocols there: a worker client and a routing
-- model are functions of a call and of the clock.
use supervisor_agent.Base.{ℕ, String, Bool, Option, List}
use supervisor_agent.Base.Dict.{Dict}
use supervisor_agent.Governance.Environment.{Environ}
use supervisor_agent.Governance.Rbac.{RbacPolicy}
use supervisor_agent.Governance.Deadline.{Deadline, deadline_for}
use supervisor_agent.Governance.OutputGuard.{OutputGuard}
use supervisor_agent.Worker.Registry.{WorkerAgent, AgentRegistry}
use supervisor_agent.Worker.Breaker.{CircuitBreaker}
use supervisor_agent.Worker.Client.{Called}
use supervisor_agent.Engine.Screen.{GuardrailEngine}
use supervisor_agent.State.{Message, Entry, Signoff, Outcome, Settings, SupervisorContext}
use supervisor_agent.Memory.{Store}
use supervisor_agent.Resolver.{RouteModel}

-- A message as it goes to a worker: the role and the content.
abbrev pub WorkerMessage : Type 0
WorkerMessage = String × String

-- The arguments of `WorkerClient.invoke`.
pub record WorkerCall : Type 0 where
  pub agent : WorkerAgent
  pub messages : List WorkerMessage
  pub context : Dict String
  pub conversation_id : String
  pub user_role : String
  pub trace : Dict String
  pub deadline : Option Deadline
  pub signoff : Option Signoff

-- The row that `respond` gives to the audit sink.
pub record AuditRecord : Type 0 where
  pub request_id : String
  pub conversation_id : String
  pub correlation_id : String
  pub user_role : String
  pub user_key : String
  pub target_agent_id : String
  pub outcome : Outcome
  pub decision_trail : List Entry
  pub latency_ms : Option ℕ
  pub session_age_seconds : Option ℕ
  pub signoff : Option Signoff

-- `trim` is langchain's `trim_messages` under the budget (`none` where it raises), and
-- `dict_text` the text of a dict in an f-string, `time_text` the ISO text of a time of day.
pub record Services : Type 0 where
  pub environ : Environ
  pub settings : Settings
  pub registry : AgentRegistry
  pub rbac : RbacPolicy
  pub guardrails : GuardrailEngine
  pub output_guard : OutputGuard
  pub route_model : WorkerAgent → RouteModel
  pub route_attempts : ℕ
  pub workers : WorkerCall → CircuitBreaker → ℕ → Called
  pub memory_keys : List String
  pub memory_ttl : ℕ
  pub trim : List Message → ℕ → Option (List Message)
  pub dict_text : Dict String → String
  pub time_text : ℕ → String

-- `now` is the monotonic clock and `wall` the time of day, which a stage reads once; `uuid` is the
-- next identifier that uuid4 gives. The store and the audit sink may be down.
pub record World : Type 0 where
  pub now : ℕ
  pub wall : ℕ
  pub uuid : String
  pub breaker : CircuitBreaker
  pub store : Store
  pub store_reads : Bool
  pub store_writes : Bool
  pub audit_up : Bool
  pub audit_log : List AuditRecord

-- `deadline_for(context, self.s.settings)`
abbrev pub turn_deadline : Services → SupervisorContext → World → Deadline
turn_deadline s context w =
    deadline_for s.environ context.turn_started_at s.settings.turn_budget_seconds
      s.settings.environment w.now
