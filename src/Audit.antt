-- ===== src/Audit.antt =====
-- src/py_app_runner/audit: what changed between two states of a row.
pub mod Values
pub mod Diff
pub mod Symmetric
pub mod Redacted
mod Tests
