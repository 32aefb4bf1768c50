-- ===== src/Queue/Worker.antt =====
-- worker.py: the delay between attempts, the loop, and when it ends.
pub mod Backoff
pub mod Loop
mod Outcome
mod Exit
mod MaxJobs
mod Drains
mod Tests
