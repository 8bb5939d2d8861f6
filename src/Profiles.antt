-- ===== src/Profiles.antt =====
-- Profiles (conformance/src/profiles): the requirements that a profile adds to a valid event.
pub mod Types
pub mod Rules
pub mod Evaluate
pub mod Check
pub mod Coverage
pub mod Selection
pub mod Verdict
pub mod Severity
pub mod Totals
