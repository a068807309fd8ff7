-- ===== src/Governance/ConfigStore.antt =====
-- governed_config_store.py: `ConfigStore`, the governed documents in a Postgres table. SHA-256,
-- `json.dumps`, `json.loads` and what the JSONB column gives back of a document are arguments. The
-- table is the list of its rows, the newest first, each with its document as it was written;
-- each operation is one transaction, which an exception rolls back.
pub mod Ledger
pub mod Rows
pub mod Refines
pub mod Reads
pub mod Require
pub mod Steps
use supervisor_agent.Base.{
  ℕ, ◌+◌, max, eqb, leb, String, ◌<>◌, ◌==◌, Bool, true, false, not, ◌&&◌, Option, none, some, List,
  [], ◌∷◌, map, keep, any, if◌then◌else◌,
}
use supervisor_agent.Base.Text.{truthy, prefix, decimal}
use supervisor_agent.Base.Dict.{Dict, lookup}
use supervisor_agent.Base.Result.{Exc, Result, ok, raised, other_error, ◌>>=◌}
use supervisor_agent.Base.Sort.{sort}
use supervisor_agent.Worker.Json.{Json, str, is_object}

abbrev pub config_error : String → Exc
config_error message = other_error "ConfigError" message

unfoldable pub require : Bool → String → Result (Unit {0})
require true message = ok tt
require false message = raised (config_error message)

-- A validator returns, or raises.
abbrev pub Validator : Type 0
Validator = Json → Result (Unit {0})

pub record ConfigRow : Type 0 where
  pub name : String
  pub version : ℕ
  pub payload : Json
  pub checksum : String
  pub active : Bool
  pub created_by : String
  pub comment : String

abbrev pub ConfigTable : Type 0
ConfigTable = List ConfigRow

pub record ConfigDocument : Type 0 where
  pub name : String
  pub payload : Json
  pub source : String
  pub version : Option ℕ
  pub checksum : String

unfoldable pub label : ConfigDocument → String
label d =
    d.name
    <> ("@"
        <> (d.source
            <> elim d.version [ none ↦ "" | some v ↦ if eqb v 0 then "" else ":v" <> decimal v ]))

unfoldable pub validate : Dict Validator → String → Json → Result (Unit {0})
validate validators name payload = elim (lookup name validators) [
  | none ↦ raised (config_error ("unknown configuration document '" <> (name <> "'")))
  | some validator ↦ validator payload
]

-- `WHERE name = %s`
abbrev pub versions_of : String → ConfigTable → List ConfigRow
versions_of name t = keep (λ row. name == row.name) t

-- `WHERE name = %s AND active LIMIT 1`
unfoldable pub active_row : List ConfigRow → Option ConfigRow
active_row [] = none
active_row (row ∷ rows) = let later = active_row rows in if row.active then some row else later

-- `COALESCE(MAX(version), 0)`
unfoldable pub max_version : List ConfigRow → ℕ
max_version [] = 0
max_version (row ∷ rows) = max row.version (max_version rows)

-- `SET active = FALSE WHERE name = %s AND active`
unfoldable pub deactivate : String → ConfigTable → ConfigTable
deactivate name [] = []
deactivate name (row ∷ rows) =
    (if name == row.name && row.active then record row { active = false } else row)
    ∷ deactivate name rows

-- `SET active = TRUE WHERE name = %s AND version = %s`
unfoldable pub set_active : String → ℕ → ConfigTable → ConfigTable
set_active name version [] = []
set_active name version (row ∷ rows) =
    (if name == row.name && eqb row.version version then record row { active = true } else row)
    ∷ set_active name version rows

-- An INSERT, under the two unique indexes of the table.
unfoldable pub insert_row : ConfigRow → ConfigTable → Result ConfigTable
insert_row row t =
    let same = versions_of row.name t in
    if any (λ r. eqb r.version row.version) same
    then raised (other_error "UniqueViolation" "(name, version)")
    else if row.active && any (λ r. r.active) same
    then raised (other_error "UniqueViolation" "(name) WHERE active")
    else ok (row ∷ t)

unfoldable pub activate : String → ℕ → ConfigTable → Result ConfigTable
activate name version t =
    if any (λ row. eqb row.version version) (versions_of name t)
    then ok (set_active name version (deactivate name t))
    else raised (config_error (name <> (" has no version " <> decimal version)))

module _ (sha256 : String → String) (dumps : Json → String) where
  unfoldable pub checksum_of : Json → String
  checksum_of payload = sha256 (dumps payload)

  unfoldable pub publish :
      Dict Validator → String → Json → String → String → ConfigTable → Result (ConfigTable × ℕ)
  publish validators name payload actor comment t = do
    checked ← validate validators name payload
    let version = max_version (versions_of name t) + 1
    t' ←
        insert_row
          (record {
            name = name;
            version = version;
            payload = payload;
            checksum = checksum_of payload;
            active = true;
            created_by = actor;
            comment = comment;
          })
          (deactivate name t)
    ok (t', version)

  -- A driver that hands back text has it parsed.
  unfoldable pub from_driver : (String → Result Json) → Json → Result Json
  from_driver loads (str text) = loads text
  from_driver loads payload = ok payload

  -- What is read back of a document that was written: `column` is the JSONB column, which may give
  -- back another document than the one whose text was written, as it does with some numbers.
  unfoldable pub parsed : (Json → Json) → (String → Result Json) → Json → Result Json
  unfolding from_driver
  parsed column loads written = from_driver loads (column written)

  mismatch : String → ConfigRow → String → String
  mismatch name row actual =
      name
      <> (" v"
          <> (decimal row.version
              <> (": checksum mismatch — the row was modified outside publish() (stored "
                  <> (prefix row.checksum 12 <> ("…, computed " <> (prefix actual 12 <> "…)"))))))

  -- The document that a row is read as.
  unfoldable pub document_of :
      (Json → Json)
      → (String → Result Json)
      → Dict Validator
      → String
      → ConfigRow
      → Result ConfigDocument
  unfolding parsed mismatch
  document_of column loads validators name row = do
    payload ← parsed column loads row.payload
    mapping ←
        require (is_object payload)
          (name <> (" v" <> (decimal row.version <> ": payload is not a mapping")))
    let actual = checksum_of payload
    same ←
        require (not (truthy row.checksum && not (actual == row.checksum)))
          (mismatch name row actual)
    valid ← validate validators name payload
    ok (record {
      name = name;
      payload = payload;
      source = "table";
      version = some row.version;
      checksum = actual;
    })

  unfoldable pub read :
      (Json → Json)
      → (String → Result Json)
      → Dict Validator
      → String
      → ConfigTable
      → Result (Option ConfigDocument)
  read column loads validators name t = elim (active_row (versions_of name t)) [
    | none ↦ ok none
    | some row ↦ do document ← document_of column loads validators name row; ok (some document)
  ]

-- `history`: the newest version first.
unfoldable pub history : String → ConfigTable → List ConfigRow
history name t = sort (λ a b. leb b.version a.version) (versions_of name t)
