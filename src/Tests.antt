-- ===== src/Tests.antt =====
-- Tests and witnesses: the theorems at concrete inputs.
pub mod Fixtures
pub mod Governing
pub mod Calling
pub mod Screening
pub mod Staging
pub mod Turning
pub mod Auditing
pub mod Configuring
pub mod Publishing
