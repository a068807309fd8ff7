-- ===== src/Tests/Configuring.antt =====
-- Witnesses on configuration: the store of governed documents, its provider, the settings.
use supervisor_agent.Base.{
  ◌*◌, ◌^◌, ◌≢◌, ℕ, ◌+◌, ◌<◌, ◌≤◌, String, ◌<>◌, ◌==◌, Bool, true, false, Option, none, some, List,
  [], ◌∷◌, All, ◌≡◌, ◌⊎◌, ◌↔◌, refl, arith, inl, inr, not, if◌then◌else◌,
}
use supervisor_agent.Base.Append.{append_cancel}
use supervisor_agent.Base.Text.{truthy}
use supervisor_agent.Base.Dict.{Dict, lookup, insert}
use supervisor_agent.Base.Result.{Result, ok, raised, other_error}
use supervisor_agent.Base.Float.{finite, whole}
use supervisor_agent.Base.Int.{pos}
use supervisor_agent.Worker.Json.{is_object, number, Json, obj, field, boolean, end}
use supervisor_agent.Governance.Environment.{Environ}
use supervisor_agent.Governance.ConfigStore.{
  validate, Validator, ConfigDocument, ConfigRow, ConfigTable, active_row, versions_of, checksum_of,
  config_error, read,
}
use supervisor_agent.Governance.ConfigStore.Ledger.{unpublished}
use supervisor_agent.Governance.ConfigStore.Steps.{view, WellFormed}
use supervisor_agent.Governance.ConfigStore.Refines.{
  Command, publish, activate, run, run_ledger, run_refines,
}
use supervisor_agent.Governance.ConfigStore.Reads.{Checked, read_serves, read-Checked}
use supervisor_agent.Governance.ConfigProvider.{new_provider, load, ConfigProvider}
use supervisor_agent.Governance.ConfigProvider.Holding.{Poll}
use supervisor_agent.Governance.ConfigProvider.Held.{served, failures_held}
use supervisor_agent.Governance.ConfigProvider.Objects.{Request, reused, afresh, reused-afresh}
use supervisor_agent.Governance.ConfigProvider.Fresh.{after, served_within_ttl}
use supervisor_agent.Settings.{Settings, enforce}
use supervisor_agent.Settings.Startup.{IsSound, enforce_deployed}

abbrev kill_switch : Bool → Json
kill_switch on = obj (field "kill_switch" (boolean on) end)

-- The text of the documents here, and a digest that keeps it.
abbrev dumps : Json → String
dumps (obj (field k (boolean true) fields)) = k <> ":true"
dumps (obj (field k (boolean false) fields)) = k <> ":false"
dumps (obj (field k (number n) fields)) = k <> (":" <> n)
dumps j = "{}"

abbrev digest : String → String
digest text = "#" <> text

-- A column that gives back a whole number for a large float.
abbrev column : Json → Json
column (obj (field k (number n) fields)) =
    obj (field k (number (if n == "1e+16" then "10000000000000000" else n)) fields)
column j = j

abbrev loads : String → Result Json
loads text = raised (other_error "JSONDecodeError" text)

abbrev accepts_all : Validator
accepts_all payload = ok tt

abbrev validators : Dict Validator
validators = ("guardrails", accepts_all) ∷ []

-- Two versions, and a roll-back to the first.
abbrev rolled_back : List Command
rolled_back =
    publish "guardrails" (kill_switch false) "ann" "first"
    ∷ publish "guardrails" (kill_switch true) "bob" "stop"
    ∷ publish "unknown" (kill_switch true) "bob" "refused"
    ∷ activate "guardrails" 7
    ∷ activate "guardrails" 1
    ∷ []

run_refines_example :
    WellFormed digest dumps validators (run digest dumps validators rolled_back [])
    × ((name : String)
        → view name (run digest dumps validators rolled_back [])
          ≡ run_ledger digest dumps validators name rolled_back unpublished)
run_refines_example = run_refines digest dumps validators rolled_back

abbrev first_version : ConfigDocument
first_version = record {
  name = "guardrails";
  payload = kill_switch false;
  source = "table";
  version = some 1;
  checksum = checksum_of digest dumps (kill_switch false);
}

abbrev current_switch : Json
current_switch = kill_switch false

read_serves_example :
    (column current_switch ≡ current_switch
      → is_object current_switch ≡ true
      → validate validators "guardrails" current_switch ≡ ok tt
      → read digest dumps column loads validators "guardrails"
          (run digest dumps validators rolled_back [])
        ≡ ok (some first_version))
    × (is_object (column current_switch) ≡ true
        → truthy (checksum_of digest dumps current_switch) ≡ true
        → checksum_of digest dumps current_switch ≢ checksum_of digest dumps (column current_switch)
        → (message : String) × (read digest dumps column loads validators "guardrails"
              (run digest dumps validators rolled_back [])
            ≡ raised (config_error message)))
unfolding validate lookup
read_serves_example =
    read_serves digest dumps column loads validators rolled_back "guardrails" current_switch refl

-- What was published is served, where the column keeps it.
serves_first :
    read digest dumps column loads validators "guardrails"
      (run digest dumps validators rolled_back [])
    ≡ ok (some first_version)
unfolding validate lookup
serves_first =
    (read_serves digest dumps column loads validators rolled_back "guardrails" current_switch
        refl).0
      refl refl refl

abbrev large : Json
large = obj (field "threshold" (number "1e+16") end)

large_differs : checksum_of digest dumps large ≢ checksum_of digest dumps (column large)
unfolding checksum_of
large_differs h = absurd cc

-- What was published is refused, where the column changes it.
refuses_large :
    (message : String) × (read digest dumps column loads validators "guardrails"
        (run digest dumps validators (publish "guardrails" large "ann" "large" ∷ []) [])
      ≡ raised (config_error message))
unfolding validate lookup checksum_of
refuses_large =
    (read_serves digest dumps column loads validators
        (publish "guardrails" large "ann" "large" ∷ []) "guardrails" large refl).1
      refl refl large_differs

abbrev edited : ConfigTable
edited =
    record {
      name = "guardrails";
      version = 1;
      payload = kill_switch true;
      checksum = "";
      active = true;
      created_by = "";
      comment = "";
    }
    ∷ []

abbrev edited_document : ConfigDocument
edited_document = record first_version {
  payload = kill_switch true;
  checksum = checksum_of digest dumps (kill_switch true);
}

read-Checked_example :
    (row : ConfigRow) × (active_row (versions_of "guardrails" edited) ≡ some row)
    × Checked digest dumps column loads validators "guardrails" row edited_document
unfolding read supervisor_agent.Governance.ConfigStore.document_of
    supervisor_agent.Governance.ConfigStore.require supervisor_agent.Governance.ConfigStore.validate
    lookup active_row checksum_of
read-Checked_example =
    read-Checked digest dumps column loads validators "guardrails" edited edited_document refl

abbrev bundled : String → Json
bundled name = kill_switch false

abbrev fresh_provider : ConfigProvider Json
fresh_provider = new_provider 60000 "auto"

-- The store refuses the row, cannot be reached, and another document is not published.
abbrev outage : List Poll
outage =
    record { name = "guardrails"; now = 70000; reply = raised (config_error "checksum mismatch") }
    ∷ record { name = "rbac"; now = 80000; reply = ok none }
    ∷ record {
      name = "guardrails";
      now = 140000;
      reply = raised (other_error "OperationalError" "gone");
    }
    ∷ []

failures_held_example :
    All
      (λ s. (("guardrails" == s.0) ≡ false) ⊎ (s.1 ≡ edited_document))
      (served digest dumps bundled true outage
        (load digest dumps bundled true "guardrails" 5000
          (ok (some edited_document))
          fresh_provider).0)
unfolding new_provider lookup supervisor_agent.Governance.ConfigProvider.resolve_store
    supervisor_agent.Base.Text.lower supervisor_agent.Base.Text.strip
failures_held_example =
    failures_held digest dumps bundled true "guardrails" 5000 edited_document fresh_provider outage
      refl refl (inr (_, refl), (inl refl, (inr (_, refl), tt)))

abbrev builders : String → Json → String
builders key payload = key <> ("=" <> dumps payload)

abbrev requests : List Request
requests =
    record { name = "guardrails"; cache_key = ""; now = 0; reply = ok none }
    ∷ record {
      name = "guardrails";
      cache_key = "output_guard";
      now = 70000;
      reply = ok (some edited_document);
    }
    ∷ record { name = "guardrails"; cache_key = ""; now = 80000; reply = ok none }
    ∷ []

summed :
    (d : ConfigDocument)
    → ok (some edited_document) ≡ ok (some d)
    → d.checksum ≡ checksum_of digest dumps d.payload
summed d e = let f : edited_document ≡ d = cc in rw (← f) refl

reused-afresh_example :
    reused digest dumps bundled true builders requests (new_provider 60000 "auto")
    ≡ afresh digest dumps bundled true builders requests (new_provider 60000 "auto")
unfolding checksum_of
reused-afresh_example =
    reused-afresh digest dumps bundled true builders 60000 "auto" requests
      (λ key x y e.
        let f : dumps x ≡ dumps y = (append_cancel "#" "#" (dumps x) (dumps y) refl e).1 in
        rw f refl)
      ((λ d e. absurd cc), (summed, ((λ d e. absurd cc), tt)))

served_within_ttl_example :
    (load digest dumps bundled true "guardrails" 130000 (ok (some edited_document)) (
      after digest dumps bundled {A = Json} true
        (record { name = "guardrails"; now = 70000; reply = ok none } ∷ [])
        fresh_provider)).1
    ≡ edited_document
unfolding new_provider lookup insert after load
    supervisor_agent.Governance.ConfigProvider.resolve_store supervisor_agent.Base.Text.lower
    supervisor_agent.Base.Text.strip
served_within_ttl_example =
    served_within_ttl digest dumps bundled Json true 60000 70000 "auto"
      (record { name = "guardrails"; now = 70000; reply = ok none } ∷ []) "guardrails" 130000
      edited_document (omega arith, tt) (omega arith) refl

abbrev production : Environ
production name = none

abbrev deployed_settings : Settings
deployed_settings = record {
  routing_llm_endpoint = "databricks-claude-sonnet-4-5";
  routing_temperature = whole 0;
  multi_model_enabled = false;
  routing_llm_timeout_seconds = whole 30;
  routing_llm_max_retries = pos 0;
  governance_llm_attempts = pos 3;
  worker_timeout_seconds = whole 45;
  turn_budget_seconds = whole 120;
  environment = "prod";
  config_dir = "config";
  config_source = "auto";
  config_table = "supervisor_config";
  config_cache_seconds = whole 60;
  audit_pg_table = "supervisor_audit_log";
  max_clarifications = pos 2;
  session_max_age_seconds = whole 604800;
  approval_max_age_seconds = whole 2592000;
  long_term_memory_ttl_seconds = whole 7776000;
  input_max_chars = pos 8000;
  guardrail_block_streak_limit = pos 5;
  output_pii_masking = true;
  worker_output_max_chars = pos 24000;
  durability = "sync";
  history_max_tokens = pos 4000;
  worker_history_max_tokens = pos 16000;
  guardrail_confidence_threshold = finite (pos (3 * 2 ^ 1072));
  routing_decisive_confidence = finite (pos (7 * 2 ^ 1071));
  routing_contested_margin = finite (pos (2 ^ 1071));
  worker_max_attempts = pos 3;
  worker_backoff_seconds = whole 1;
  worker_circuit_threshold = pos 3;
  worker_circuit_cooldown_seconds = whole 60;
  graph_recursion_limit = pos 12;
  mock_workers = false;
}

enforce_deployed_example :
    (enforce production deployed_settings ≡ ok []) ↔ IsSound deployed_settings
unfolding supervisor_agent.Governance.Environment.is_local_environment
    supervisor_agent.Governance.Environment.current_environment supervisor_agent.Base.Text.lower
    supervisor_agent.Base.Text.strip
enforce_deployed_example = enforce_deployed production deployed_settings refl
