-- ===== src/Worker.antt =====
-- src/supervisor/worker_client.py and agent_registry.py: the worker catalogue and the client
-- that dispatch calls.
pub mod Json
pub mod Registry
pub mod Breaker
pub mod Response
pub mod Client
