-- ===== src/Queue/Pg/WellFormed.antt =====
-- The invariant of the tables: what their keys and indexes promise, and the attempt budget.
pub mod Push
pub mod Completion
pub mod Reserve
use py_app_runner.Prelude.{ℕ, ◌≤◌, ◌<◌, String, ◌≢◌, Option, none, some, All, AllPairs}
use py_app_runner.Queue.Pg.Tables.{Row, FailedRow, Db}

-- A claim is a deadline together with its holder.
abbrev pub IsClaim : Option ℕ → Option String → Type 0
IsClaim none none = Unit
IsClaim (some until) (some worker) = Unit
IsClaim _ _ = ⊥

pub record IsSound (next_id : ℕ) (r : Row) : Type 0 where
  pub numbered : r.id < next_id
  pub within_budget : r.attempts ≤ r.max_attempts
  pub has_budget : 1 ≤ r.max_attempts
  pub claim : IsClaim r.reserved_until r.reserved_by

abbrev pub Unshared : Option String → Option String → Type 0
Unshared (some k) (some j) = k ≢ j
Unshared _ _ = Unit

pub record Apart (r s : Row) : Type 0 where
  pub ids : r.id ≢ s.id
  pub keys : Unshared r.unique_key s.unique_key

pub record IsWellFormed (db : Db) : Type 0 where
  pub sound : All (IsSound db.next_id) db.jobs
  pub apart : AllPairs Apart db.jobs
  pub failed_numbered : All (λ (f : FailedRow). f.id < db.next_failed_id) db.failed
  pub failed_apart : AllPairs (λ (f g : FailedRow). f.id ≢ g.id) db.failed
