-- ===== src/Governance/Audit/Sinks.antt =====
-- audit_trail.py: the sinks behind `log`, and the trace of a request that each decision also tags.
use supervisor_agent.Base.{String, Bool, Option, none, some, List, [], ◌∷◌, ◌++◌, if◌then◌else◌}
use supervisor_agent.Base.Text.{truthy}
use supervisor_agent.Base.Dict.{Dict}
use supervisor_agent.Base.Result.{Result, ok, raised}
use supervisor_agent.Worker.Json.{Json, str, arr, nil, null, json_text, truthy_json}
use supervisor_agent.Governance.Audit.{
  AuditTable, Schema, PostgresAuditLogger, Record, record_or, log,
}

-- Postgres, the process log, and either behind the tracing wrapper.
pub data AuditLogger : Type 0 where
  logging : AuditLogger
  postgres : AuditLogger
  tracing : AuditLogger → AuditLogger

unfoldable pub build_audit_logger : Bool → AuditLogger
build_audit_logger configured = if configured then tracing postgres else tracing logging

-- What `mlflow.update_current_trace` is given.
pub record TraceTags : Type 0 where
  pub client_request_id : Option String
  pub session_id : Option String
  pub user : Option String
  pub outcome : String
  pub target_agent_id : String
  pub user_role : String
  pub decision_trail : Json

-- The sinks' state: the logger, the schema, the process log and the tags of the traces. Where no
-- trace is active, tagging one raises, which `_tag_trace` swallows.
pub record Sinks : Type 0 where
  pub logger : PostgresAuditLogger
  pub db : Schema
  pub process_log : List Record
  pub trace_active : Bool
  pub traces : List TraceTags

-- `str(record.get(name) or "") or None`
optional_text : (Json → String) → Record → String → Option String
optional_text repr r name =
    let v = record_or r name null in
    let s = json_text repr (if truthy_json v then v else str "") in
    if truthy s then some s else none

unfoldable pub tag_trace : (Json → String) → Record → Sinks → Sinks
unfolding optional_text
tag_trace repr r s =
    if s.trace_active
    then record s {
      traces =
          s.traces
          ++ record {
            client_request_id = optional_text repr r "request_id";
            session_id = optional_text repr r "conversation_id";
            user = optional_text repr r "user_key";
            outcome = json_text repr (record_or r "outcome" (str ""));
            target_agent_id = json_text repr (record_or r "target_agent_id" (str ""));
            user_role = json_text repr (record_or r "user_role" (str ""));
            decision_trail = record_or r "decision_trail" (arr nil);
          }
            ∷ [];
    }
    else s

module _ (sha256 : String → String) (dumps : Dict Json → String) (repr : Json → String) where
  after_insert : Sinks → PostgresAuditLogger × Result AuditTable → Sinks × Result (Unit {0})
  after_insert s (l, ok t) = (record s { logger = l; db = some t }, ok tt)
  after_insert s (l, raised e) = (record s { logger = l }, raised e)

  unfoldable pub sink_log : AuditLogger → String → Record → Sinks → Sinks × Result (Unit {0})
  unfolding after_insert
  sink_log logging now r s = (record s { process_log = s.process_log ++ r ∷ [] }, ok tt)
  sink_log postgres now r s = after_insert s (log sha256 dumps repr s.logger now r s.db)
  sink_log (tracing inner) now r s = sink_log inner now r (tag_trace repr r s)
