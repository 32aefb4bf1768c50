-- ===== src/Queue/Pg.antt =====
-- The database driver, `PgQueue` of src/py_app_runner/queue/driver_pg.py, over the two tables of
-- queue/files. A method is one function for each statement that it sends, composed as the code
-- composes them; moments are seconds, and other connections enter as functions on the tables.
pub mod Tables
pub mod Push
pub mod Completion
pub mod Reserve
pub mod Reports
mod Rows
mod Search
pub mod WellFormed
pub mod Claims
mod Order
pub mod Exclusive
pub mod Handed
pub mod Unique
mod Conserved
mod Tests
