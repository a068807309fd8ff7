-- ===== src/Governance.antt =====
-- The shared governance library, libs/agent_governance/src/agent_governance.
pub mod Environment
pub mod Rbac
pub mod DenyRules
pub mod Deadline
pub mod Retry
pub mod Sanitize
pub mod Sensitive
pub mod OutputGuard
pub mod Audit
pub mod ConfigStore
pub mod ConfigProvider
pub mod Validators
pub mod PolicySuite
