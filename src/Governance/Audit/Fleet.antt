-- ===== src/Governance/Audit/Fleet.antt =====
-- audit_trail.py: the replicas of an endpoint, each with its own `PostgresAuditLogger` over one table.
-- The advisory lock makes each `log` one step, so what they do is a list of such steps.
use supervisor_agent.Base.{ℕ, eqb, String, none, some, List, [], ◌∷◌, if◌then◌else◌}
use supervisor_agent.Base.Dict.{Dict}
use supervisor_agent.Base.Result.{Result, ok, raised}
use supervisor_agent.Worker.Json.{Json}
use supervisor_agent.Governance.Audit.{
  AuditTable, Schema, PostgresAuditLogger, Record, new_logger, log,
}

pub record Fleet : Type 0 where
  pub loggers : ℕ → PostgresAuditLogger
  pub db : Schema

-- A decision that a replica logs at an instant.
pub record Event : Type 0 where
  pub replica : ℕ
  pub now : String
  pub decision : Record

-- Before the first decision: no logger has looked for the table, which does not exist.
abbrev pub idle_fleet : Fleet
idle_fleet = record { loggers = λ j. new_logger; db = none }

-- A write that fails leaves the table as it was.
abbrev after_write : Schema → Result AuditTable → Schema
after_write db (ok t) = some t
after_write db (raised e) = db

unfoldable pub write :
    (String → String) → (Dict Json → String) → (Json → String) → Fleet → Event → Fleet
write sha256 dumps repr f e =
    let (l, written) = log sha256 dumps repr (f.loggers e.replica) e.now e.decision f.db in
    record {
      loggers = λ j. if eqb j e.replica then l else f.loggers j;
      db = after_write f.db written;
    }

unfoldable pub run :
    (String → String) → (Dict Json → String) → (Json → String) → List Event → Fleet → Fleet
unfolding write
run sha256 dumps repr [] f = f
run sha256 dumps repr (e ∷ events) f = run sha256 dumps repr events (write sha256 dumps repr f e)
