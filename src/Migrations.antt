-- ===== src/Migrations.antt =====
-- src/py_app_runner/migrations: the files, the states and the commands.
pub mod Text
pub mod Discovery
pub mod States
pub mod Tracker
pub mod Apply
pub mod Baseline
mod Distinct
mod Backed
mod Landed
mod Stamped
mod Tests
