-- ===== src/Lib.antt =====
-- The supervisor agent: a governed router in front of worker agents.
--
-- A turn names a worker agent and carries a message. src/supervisor/graph.py runs it through fixed
-- stages, each of which names the next: the RBAC gate, the guardrails, the route stage, the worker
-- call (dispatch), the approval gate where a human must sign off, and respond, which audits and
-- answers. The stages share one checkpointed state (src/supervisor/state.py) and the services that
-- they are given (src/supervisor/services.py); the policies that they apply are the library
-- libs/agent_governance.
--
-- Governance is that library (libs/agent_governance/src/agent_governance): Environment
-- (environment.py), Rbac (rbac.py), DenyRules (deny_rules.py), Deadline and Retry
-- (retry_and_deadline.py), Sanitize (sanitize.py), Sensitive (sensitive_data.py, its Luhn
-- check in Sensitive/Luhn), OutputGuard (output_guard.py), ConfigStore and ConfigProvider
-- (governed_config_store.py, its document checks in Validators), PolicySuite
-- (policy_suite_eval.py), Audit (audit_trail.py). ConfigStore/Ledger is what the store promises of
-- one document, and Audit/Fleet the replicas that write one table. Governed is
-- src/supervisor/governed_config.py, the checks of the agents and the roles document. Settings is
-- src/supervisor/settings.py. Worker is src/supervisor/agent_registry.py (Registry) and
-- src/supervisor/worker_client.py (Breaker, Response, Client; Json is what a payload is read as).
-- Engine is src/supervisor/guardrail_engine.py: Patterns, Replies, Verdict, Screen. State, Memory,
-- Resolver, UserText and Services are state.py with the settings that the stages read, memory.py,
-- context_resolver.py, user_facing_text.py and services.py of src/supervisor. Nodes has a module
-- per file of src/supervisor/nodes: Turn (base.py), Failsafes, Gate (rbac_gate.py), Guardrails,
-- Route, Dispatch, Approval, Respond. Graph is graph.py. Base has the shared helpers, Tests the
-- fixtures and the witnesses. A definition has the name of its function, method or constant, or
-- that of a part of it.
--
-- A stage is a function from the services, the turn's context, the world (clocks, the breaker, the
-- store, the audit log) and the state to a command: the next stage and the whole state after the
-- update, with the world where the stage changes it. Python's exceptions are values of Exc, in a
-- Result; an interrupt is a suspension. Times and durations are thousandths of a second,
-- confidences and thresholds thousandths; every reading of a clock is an argument, and calls that
-- leave the process say how long they took. Numbers are natural: the source's are never negative
-- where they are read, and 0 stands for a setting that is off. The settings read from the
-- environment are integers and exact floats (Base/Float), NaN included. str.lower is that of
-- Unicode (Base/Casing) but for the last sigma of a word and two right-to-left scripts; str.upper,
-- which meets the names of privileges and first letters, is that of ASCII.
--
-- Python's re is the interface Regex, with the source's pattern texts; the shapes of
-- sensitive_data.py are the argument `matches`; a chat model is a function of a prompt, the number
-- of the attempt and the time; SHA-256, json.dumps and json.loads are functions, and so is what the
-- JSONB column of a published document gives back for the payload written to it. Nothing is assumed
-- of these but where a theorem says so. A table of the database is the list of its rows, and each
-- transaction one step; what the replicas of an endpoint do is a list of such steps.
--
-- The loops over attempts recur on the rounds that are left, which is the source's range. A turn
-- runs on fuel 6, since each stage leads to a later one and the seventh ends the turn.
--
-- Not modelled: SQL and the connections to Lakebase, the prompt texts, the construction of
-- clients, log lines, the deployment scripts.
pub mod Base
pub mod Governance
pub mod Governed
pub mod Worker
pub mod Engine
pub mod State
pub mod Settings
pub mod Memory
pub mod Resolver
pub mod UserText
pub mod Services
pub mod Nodes
pub mod Graph
pub mod Tests
