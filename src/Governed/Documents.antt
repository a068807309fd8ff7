-- ===== src/Governed/Documents.antt =====
-- An agents document as agent_registry.py reads it, once it has been validated.
use supervisor_agent.Base.{String, List, map, keep}
use supervisor_agent.Worker.Json.{nil, Json, arr, is_object, field_or}
use supervisor_agent.Worker.Registry.{AgentRow, ApprovalRule}
use supervisor_agent.Governance.Validators.{text_of, list_of, fields_of, or_list}
use supervisor_agent.Governance.Validators.Documents.{given_text}

abbrev pub approval_of : Json → ApprovalRule
approval_of rule = record { pattern = given_text "pattern" rule; reason = given_text "reason" rule }

-- `row.get(key, []) or []`
abbrev pub listed : String → Json → List Json
listed key row = list_of (or_list (field_or (fields_of row) key (arr nil)))

abbrev pub row_of : Json → AgentRow
row_of row = record {
  id = given_text "id" row;
  name = given_text "name" row;
  description = given_text "description" row;
  endpoint = given_text "endpoint" row;
  domain_scope = given_text "domain_scope" row;
  required_context = map text_of (listed "required_context" row);
  deny_patterns = map text_of (listed "deny_patterns" row);
  model = given_text "model" row;
  approval_patterns = map approval_of (keep is_object (listed "approval_patterns" row));
  risk_level = given_text "risk_level" row;
}

-- `data.get("agents", [])`
abbrev pub rows_of : Json → List Json
rows_of payload = list_of (field_or (fields_of payload) "agents" (arr nil))

unfoldable pub agent_rows : Json → List AgentRow
agent_rows payload = map row_of (rows_of payload)
