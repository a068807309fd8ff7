-- ===== src/Worker/Registry.antt =====
-- agent_registry.py: the worker agents and the approval patterns of each.
pub mod Approval
use supervisor_agent.Base.{
  String, Bool, false, Option, none, some, List, [], ◌∷◌, ◌++◌, if◌then◌else◌,
}
use supervisor_agent.Base.Text.{strip, lower, truthy, or_text}
use supervisor_agent.Base.Dict.{Dict, lookup, insert, keys}
use supervisor_agent.Base.Result.{Result, ok, raised, other_error, ◌>>=◌}
use supervisor_agent.Governance.DenyRules.{Regex}

-- One of `approval_patterns`, with the keys that it has.
pub record ApprovalRule : Type 0 where
  pub pattern : Option String
  pub reason : Option String

pub record WorkerAgent : Type 0 where
  pub id : String
  pub name : String
  pub description : String
  pub endpoint : String
  pub domain_scope : String
  pub required_context : List String
  pub deny_patterns : List String
  pub model : String
  pub approval_patterns : List ApprovalRule
  pub risk_level : String

-- A row of the agents document, with the keys that it has; `approval_patterns` lists the entries
-- that are mappings.
pub record AgentRow : Type 0 where
  pub id : Option String
  pub name : Option String
  pub description : Option String
  pub endpoint : Option String
  pub domain_scope : Option String
  pub required_context : List String
  pub deny_patterns : List String
  pub model : Option String
  pub approval_patterns : List ApprovalRule
  pub risk_level : Option String

abbrev pub AgentRegistry : Type 0
AgentRegistry = Dict WorkerAgent

abbrev pub text_or : Option String → String → String
text_or none default = default
text_or (some s) default = s

abbrev pub required : String → Option String → Result String
required key none = raised (other_error "KeyError" key)
required key (some v) = ok v

-- `WorkerAgent(...)` of a row, with its id and its endpoint
abbrev pub worker_of : AgentRow → String → String → WorkerAgent
worker_of row id endpoint = record {
  id = id;
  name = text_or row.name id;
  description = text_or row.description "";
  endpoint = endpoint;
  domain_scope = text_or row.domain_scope (text_or row.description "");
  required_context = row.required_context;
  deny_patterns = row.deny_patterns;
  model = strip (text_or row.model "");
  approval_patterns = row.approval_patterns;
  risk_level = lower (strip (or_text (text_or row.risk_level "low") "low"));
}

unfoldable pub agent_of_row : AgentRow → Result WorkerAgent
agent_of_row row = do
  id ← required "id" row.id
  endpoint ← required "endpoint" row.endpoint
  ok (worker_of row id endpoint)

-- `{a.id: a for a in agents}`
unfoldable pub index_agents : AgentRegistry → List WorkerAgent → AgentRegistry
index_agents d [] = d
index_agents d (a ∷ rest) = index_agents (insert a.id a d) rest

unfoldable pub agents_of_rows : List AgentRow → Result (List WorkerAgent)
unfolding agent_of_row
agents_of_rows [] = ok []
agents_of_rows (row ∷ rows) = do a ← agent_of_row row; rest ← agents_of_rows rows; ok (a ∷ rest)

unfoldable pub from_mapping : List AgentRow → Result AgentRegistry
unfolding agents_of_rows index_agents
from_mapping rows = do agents ← agents_of_rows rows; ok (index_agents [] agents)

-- `registry.get(agent_id)` and `registry.ids()`
abbrev pub get_agent : AgentRegistry → String → Option WorkerAgent
get_agent registry agent_id = lookup agent_id registry

abbrev pub agent_ids : AgentRegistry → List String
agent_ids registry = keys registry

-- An invalid pattern is skipped.
unfoldable pub rule_matches : Regex → ApprovalRule → String → Bool
rule_matches re rule query =
    let pattern = text_or rule.pattern "" in
    if truthy pattern
    then (if re.compiles pattern then re.search_i pattern query else false)
    else false

unfoldable pub first_approval : Regex → List ApprovalRule → String → String
unfolding rule_matches
first_approval re [] query = ""
first_approval re (rule ∷ rules) query =
    let later = first_approval re rules query in
    if rule_matches re rule query
    then or_text (text_or rule.reason "") "the request matches an approval rule"
    else later

unfoldable pub approval_reason : Regex → Option WorkerAgent → String → String
unfolding first_approval
approval_reason re none query = ""
approval_reason re (some agent) query =
    if truthy query then first_approval re agent.approval_patterns query else ""

unfoldable pub context_keys : AgentRegistry → List String
context_keys [] = []
context_keys ((id, agent) ∷ rest) = agent.required_context ++ context_keys rest
