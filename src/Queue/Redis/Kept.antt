-- ===== src/Queue/Redis/Kept.antt =====
-- No job is lost: every hash has a place, in a delayed set, on a stream that is served or among the
-- failed jobs.
pub mod Places
pub mod Lists
pub mod Commands
pub mod Moves
pub mod Streams
pub mod Push
pub mod Completion
pub mod Reports
pub mod Handles
pub mod Rounds
pub mod Reserve
pub mod Runs
