-- ===== src/Queue.antt =====
-- src/py_app_runner/queue: jobs, the database driver and the worker loop.
pub mod Job
pub mod Errors
pub mod Pg
pub mod Redis
pub mod Worker
