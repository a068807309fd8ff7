-- ===== src/Nodes.antt =====
-- src/supervisor/nodes: the stages of a turn, one module each.
pub mod Turn
pub mod Failsafes
pub mod Gate
pub mod Guardrails
pub mod Route
pub mod Dispatch
pub mod Approval
pub mod Respond
