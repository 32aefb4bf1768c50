-- ===== src/Queue/Pg/Completion.antt =====
-- `delete`, `release`, `fail` and `_move_to_failed` of `PgQueue`. The Boolean is whether the
-- statement met its row: where it is false the method logs a stale claim.
use py_app_runner.Prelude.{
  ℕ, ◌+◌, String, Bool, true, false, not, ◌&&◌, none, some, [], ◌∷◌, ◌++◌, ◌==◌, filter, find,
  count,
}
use py_app_runner.Prelude.Int.{ℤ, at_least}
use py_app_runner.Queue.Job.{Job}
use py_app_runner.Queue.Errors.{fit_error}
use py_app_runner.Queue.Pg.Tables.{Row, FailedRow, Db, owned, update_where}

unfoldable pub failed_row : ℕ → ℕ → String → Row → FailedRow
failed_row id failed_at error r = record {
  id = id;
  queue = r.queue;
  name = r.name;
  payload = r.payload;
  attempts = r.attempts;
  error = fit_error error;
  failed_at = failed_at;
}

-- DELETE … RETURNING and the INSERT into the failed table, in one transaction
unfoldable pub move_to_failed : (Row → Bool) → ℕ → String → ℕ → Db → Bool × Db
unfolding failed_row
move_to_failed guard id error failed_at db =
    let met = λ (r : Row). r.id == id && guard r in
    elim (find met db.jobs) [
      | none ↦ (false, db)
      | some r ↦ (
        true,
        record db {
          jobs = filter (λ s. not (met s)) db.jobs;
          failed = db.failed ++ failed_row db.next_failed_id failed_at error r ∷ [];
          next_failed_id = db.next_failed_id + 1;
        },
      )
    ]

unfoldable pub freed : ℕ → String → Row → Row
freed available_at error r = record r {
  reserved_until = none;
  reserved_by = none;
  available_at = available_at;
  last_error = error;
}

module _ {Payload : Type 0} where
  -- WHERE id = … AND _OWNED
  unfoldable pub holds : Job Payload → Row → Bool
  unfolding owned
  holds job r = r.id == job.id && owned job.reserved_by job.attempts r

  unfoldable pub delete : Job Payload → Db → Bool × Db
  unfolding holds
  delete job db =
      (count (holds job) db.jobs == 1, record db { jobs = filter (λ r. not (holds job r)) db.jobs })

  unfoldable pub release : ℕ → Job Payload → ℤ → String → Db → Bool × Db
  unfolding holds freed
  release now job delay error db = (
    count (holds job) db.jobs == 1,
    record db {
      jobs = update_where (holds job) (freed (now + at_least 0 delay) (fit_error error)) db.jobs;
    },
  )

  unfoldable pub fail : ℕ → Job Payload → String → Db → Bool × Db
  unfolding move_to_failed owned
  fail now job error db = move_to_failed (owned job.reserved_by job.attempts) job.id error now db
