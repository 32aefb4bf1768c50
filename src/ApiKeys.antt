-- ===== src/ApiKeys.antt =====
-- src/py_app_runner/api_keys: what a key may do, and from where.
pub mod Abilities
pub mod Keys
mod Allows
mod Tests
