-- ===== src/Queue/Redis.antt =====
-- The Redis driver, `RedisQueue` of src/py_app_runner/queue/driver_redis.py, over its keys. A script
-- runs alone on the server, so it is one step; `int(result)` and the texts of numbers are numbers.
pub mod Store
pub mod Push
pub mod Completion
pub mod Reserve
pub mod Reports
pub mod Kept
pub mod Aged
pub mod Handed
pub mod Attempts
pub mod Settled
pub mod Stale
pub mod Unique
mod Tests
