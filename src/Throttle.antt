-- ===== src/Throttle.antt =====
-- src/py_app_runner/throttle/throttle.py: the fixed window and what a caller is told.
pub mod Window
pub mod Allowance
mod Tests
