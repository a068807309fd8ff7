-- ===== src/Engine.antt =====
-- src/supervisor/guardrail_engine.py: the two-tier screen and the classifiers of short messages.
pub mod Patterns
pub mod Replies
pub mod Verdict
pub mod Screen
