-- ===== src/Governance/Audit.antt =====
-- audit_trail.py: the sinks of the decision trail, and the walk of the hash chain. SHA-256 and
-- `json.dumps` of a payload are arguments. The table is what a connection shows of it: the columns
-- that it has, and its rows in the order of their ids. A JSON column holds the value that it was
-- given, and a timestamp is its text in UTC.
pub mod Sinks
pub mod Walk
pub mod Fleet
pub mod Chain
pub mod Tamper
use supervisor_agent.Base.{
  ℕ, ◌+◌, String, ◌<>◌, ◌==◌, Bool, true, false, not, ◌&&◌, ◌||◌, Option, none, some, List, [], ◌∷◌,
  ◌++◌, map, elem, keep, all, is_empty, ltb, if◌then◌else◌,
}
use supervisor_agent.Base.Text.{truthy, or_text, prefix, decimal}
use supervisor_agent.Base.Dict.{Dict, lookup}
use supervisor_agent.Base.Result.{Result, ok, raised, other_error}
use supervisor_agent.Worker.Json.{Json, null, str, arr, nil, json_text}

abbrev pub base_columns : List String
base_columns =
    "event_time" ∷ "request_id" ∷ "correlation_id" ∷ "conversation_id" ∷ "user_role" ∷ "user_key"
    ∷ "target_agent_id" ∷ "outcome" ∷ "decision_trail" ∷ []

abbrev pub hash_columns : List String
hash_columns = "prev_hash" ∷ "row_hash" ∷ []

abbrev pub optional_columns : List String
optional_columns =
    "latency_ms" ∷ "session_age_seconds" ∷ "signoff" ∷ "provenance" ∷ "prev_hash" ∷ "row_hash" ∷ []

abbrev is_content : String → Bool
is_content name = not (elem name hash_columns)

abbrev pub chain_columns : List String
chain_columns = base_columns ++ keep is_content optional_columns

abbrev pub genesis : String
genesis = "0000000000000000000000000000000000000000000000000000000000000000"

-- A row: its content by column, and the pair of hashes. A hash that is NULL is the empty text.
pub record AuditRow : Type 0 where
  pub id : ℕ
  pub cells : Dict Json
  pub prev_hash : String
  pub row_hash : String

-- The optional columns of a table, its rows and the id that its sequence gives next.
pub record AuditTable : Type 0 where
  pub columns : List String
  pub rows : List AuditRow
  pub next_id : ℕ

abbrev pub Schema : Type 0
Schema = Option AuditTable

pub record PostgresAuditLogger : Type 0 where
  pub ready : Bool
  pub columns : List String

abbrev pub new_logger : PostgresAuditLogger
new_logger = record { ready = false; columns = [] }

unfoldable pub detect_columns : AuditTable → List String
detect_columns t = keep (λ name. elem name t.columns) optional_columns

abbrev created : AuditTable
created = record { columns = optional_columns; rows = []; next_id = 1 }

-- A logger that is ready does not look at the table again; one that meets no table creates it.
unfoldable pub ensure_table : PostgresAuditLogger → Schema → PostgresAuditLogger × Schema
unfolding detect_columns
ensure_table l db = if l.ready then (l, db) else (elim db [
  | none ↦ (record { ready = true; columns = optional_columns }, some created)
  | some t ↦ (record { ready = true; columns = detect_columns t }, some t)
])

-- `record.get(name, default)` of the record to log
abbrev pub Record : Type 0
Record = Dict Json

abbrev pub record_or : Record → String → Json → Json
record_or r name default = elim (lookup name r) [ none ↦ default | some v ↦ v ]

abbrev text_columns : List String
text_columns =
    "request_id" ∷ "correlation_id" ∷ "conversation_id" ∷ "user_role" ∷ "user_key"
    ∷ "target_agent_id" ∷ "outcome" ∷ []

-- What `log` stores in a column, at an instant.
unfoldable pub value_of : (Json → String) → String → Record → String → Json
value_of repr now r name =
    if name == "event_time"
    then str now
    else if elem name text_columns
    then str (json_text repr (record_or r name (str "")))
    else if name == "decision_trail"
    then record_or r name (arr nil)
    else record_or r name null

unfoldable pub last_hash : List AuditRow → String
last_hash [] = ""
last_hash (row ∷ []) = row.row_hash
last_hash (row ∷ next ∷ rows) = last_hash (next ∷ rows)

-- `dict(zip(columns, values))`
unfoldable pub payload_of : (String → Json) → List String → Dict Json
payload_of value [] = []
payload_of value (name ∷ names) = (name, value name) ∷ payload_of value names

pub record ChainVerification : Type 0 where
  pub intact : Bool
  pub checked : ℕ
  pub head_id : ℕ
  pub head_hash : String
  pub broken_at : ℕ
  pub detail : String

unfoldable pub audit_detail : ChainVerification → String
audit_detail v =
    if v.intact
    then "audit chain intact: " <> (decimal v.checked <> (" row(s) to head " <> decimal v.head_id))
    else "audit chain BROKEN at row " <> (decimal v.broken_at <> (": " <> v.detail))

unfoldable pub verifiable_payload : AuditRow → List String → Dict Json
unfolding payload_of
verifiable_payload row columns =
    payload_of (λ name. record_or row.cells name null) (keep is_content columns)

-- The columns that the walk reads of a table.
unfoldable pub walked_columns : AuditTable → List String
walked_columns t = keep (λ name. elem name (base_columns ++ t.columns)) chain_columns

module _ (sha256 : String → String) (dumps : Dict Json → String) where
  unfoldable pub row_digest : String → Dict Json → String
  row_digest prev payload = sha256 (prev <> dumps payload)

  -- The row that a writer appends, chained where its columns have the pair of hashes.
  unfoldable pub new_row :
      (Json → String) → List String → ℕ → List AuditRow → String → Record → AuditRow
  unfolding row_digest payload_of
  new_row repr columns id rows now r =
      let cells = payload_of (value_of repr now r) (base_columns ++ keep is_content columns) in
      let prev = or_text (last_hash rows) genesis in
      if all (λ name. elem name columns) hash_columns
      then record { id = id; cells = cells; prev_hash = prev; row_hash = row_digest prev cells }
      else record { id = id; cells = cells; prev_hash = ""; row_hash = "" }

  -- A column of the writer's that the table does not have, or no table, fails the INSERT.
  unfoldable pub insert_row :
      (Json → String) → List String → String → Record → Schema → Result AuditTable
  unfolding new_row
  insert_row repr columns now r none =
      raised (other_error "UndefinedTable" "relation does not exist")
  insert_row repr columns now r (some t) =
      if all (λ name. elem name t.columns) columns
      then ok (record t {
        rows = t.rows ++ new_row repr columns t.next_id t.rows now r ∷ [];
        next_id = t.next_id + 1;
      })
      else raised (other_error "UndefinedColumn" "column does not exist")

  unfoldable pub log :
      (Json → String)
      → PostgresAuditLogger
      → String
      → Record
      → Schema
      → PostgresAuditLogger × Result AuditTable
  unfolding ensure_table insert_row
  log repr l now r db =
      let (l', db') = ensure_table l db in (l', insert_row repr l'.columns now r db')

  -- The walk. The first row's `prev_hash` is taken on trust: `prev` is then empty.
  unfoldable pub walk : List String → String → ℕ → ℕ → String → List AuditRow → ChainVerification
  unfolding row_digest
  walk columns prev checked head_id head_hash [] = record {
    intact = true;
    checked = checked;
    head_id = head_id;
    head_hash = head_hash;
    broken_at = 0;
    detail = "";
  }
  walk columns prev checked head_id head_hash (row ∷ rows) =
      let rest = walk columns row.row_hash (checked + 1) row.id row.row_hash rows in
      let broken : String → ChainVerification = λ why. record {
        intact = false;
        checked = checked;
        head_id = head_id;
        head_hash = head_hash;
        broken_at = row.id;
        detail = why;
      } in
      if truthy prev && not (row.prev_hash == prev)
      then broken (
          "prev_hash "
          <> (prefix row.prev_hash 12 <> ("… does not follow " <> (prefix prev 12 <> "…"))))
      else if not (
          row_digest (or_text row.prev_hash genesis) (verifiable_payload row columns)
          == row.row_hash)
      then broken "row content does not match its recorded digest"
      else rest

  unfoldable pub verify_chain : AuditTable → ℕ → ChainVerification
  unfolding walk walked_columns
  verify_chain t after_id =
      if all (λ name. elem name t.columns) hash_columns
      then walk (walked_columns t) "" 0 0 "" (keep (λ row. ltb after_id row.id) t.rows)
      else record {
        intact = true;
        checked = 0;
        head_id = 0;
        head_hash = "";
        broken_at = 0;
        detail = "table predates the hash chain — nothing to verify";
      }
