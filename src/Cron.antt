-- ===== src/Cron.antt =====
-- src/py_app_runner/cron: which jobs run, and that none runs twice at once.
pub mod Execute
pub mod Commands
mod Overlap
mod Tests
