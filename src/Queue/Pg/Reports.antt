-- ===== src/Queue/Pg/Reports.antt =====
-- `pending`, `stats`, `failed_count`, `failed_rows`, `retry_failed` and `forget_failed` of `PgQueue`.
use py_app_runner.Prelude.{
  ℕ, ◌+◌, String, Bool, true, false, not, ◌&&◌, Option, none, some, List, [], ◌∷◌, ◌++◌, str_eq,
  ltb, leb, ◌==◌, length, filter, count,
}
use py_app_runner.Prelude.Int.{ℤ, pos, at_least}
use py_app_runner.Queue.Pg.Tables.{Row, FailedRow, Db, claimable}

-- available_at <= moment AND (reserved_until IS NULL OR reserved_until <= moment)
unfoldable pub ready : ℕ → Row → Bool
unfolding claimable
ready moment r = leb r.available_at moment && claimable moment r

unfoldable pub delayed : ℕ → Row → Bool
delayed moment r = ltb moment r.available_at

-- reserved_until > moment, which a NULL is not
unfoldable pub held : ℕ → Row → Bool
held moment r = elim r.reserved_until [ none ↦ false | some until ↦ ltb moment until ]

unfoldable pub pending : ℕ → Option String → Db → ℕ
unfolding ready
pending moment none db = count (ready moment) db.jobs
pending moment (some queue) db = count (λ r. str_eq r.queue queue && ready moment r) db.jobs

pub record QueueStats : Type 0 where
  pub queue : String
  pub pending : ℕ
  pub delayed : ℕ
  pub reserved : ℕ
  pub total : ℕ

unfoldable pub stats_of : ℕ → String → List Row → QueueStats
unfolding ready delayed held
stats_of moment queue rows =
    let mine = λ (r : Row). str_eq r.queue queue in
    record {
      queue = queue;
      pending = count (λ r. mine r && ready moment r) rows;
      delayed = count (λ r. mine r && delayed moment r) rows;
      reserved = count (λ r. mine r && held moment r) rows;
      total = count mine rows;
    }

unfoldable pub failed_count : Db → ℕ
failed_count db = length db.failed

-- INSERT of one retried job and DELETE of its failed row, in one transaction
unfoldable pub requeue : ℕ → ℤ → FailedRow → Db → Db
requeue moment max_attempts f db = record db {
  jobs =
      db.jobs
      ++ record {
        id = db.next_id;
        queue = f.queue;
        name = f.name;
        payload = f.payload;
        attempts = 0;
        max_attempts = at_least 1 max_attempts;
        priority = pos 0;
        unique_key = none;
        available_at = moment;
        reserved_until = none;
        reserved_by = none;
        last_error = "";
        created_at = moment;
      }
        ∷ [];
  failed = filter (λ g. not (g.id == f.id)) db.failed;
  next_id = db.next_id + 1;
}

-- for failed_id, queue, name, payload in rows; `moments` is the clock of each round
unfoldable pub requeue_all : (ℕ → ℕ) → ℤ → List FailedRow → Db → ℕ × Db
unfolding requeue
requeue_all moments max_attempts [] db = (0, db)
requeue_all moments max_attempts (f ∷ rest) db =
    let (requeued, db') =
      requeue_all (λ i. moments (i + 1)) max_attempts rest
        (requeue (moments 0) max_attempts f db) in
    (requeued + 1, db')

unfoldable pub chosen : Option ℕ → FailedRow → Bool
chosen none f = true
chosen (some id) f = f.id == id

-- Rows are inserted in the order of their ids, so ORDER BY id leaves the table's order.
unfoldable pub retry_failed : (ℕ → ℕ) → Option ℕ → ℤ → Db → ℕ × Db
unfolding requeue_all chosen
retry_failed moments job_id max_attempts db =
    requeue_all moments max_attempts (filter (chosen job_id) db.failed) db

unfoldable pub forgotten : Option ℕ → Option ℕ → FailedRow → Bool
forgotten (some id) before f = f.id == id
forgotten none (some moment) f = ltb f.failed_at moment
forgotten none none f = true

-- `before` is the moment that Postgres reads from the text
unfoldable pub forget_failed : Option ℕ → Option ℕ → Db → ℕ × Db
unfolding forgotten
forget_failed job_id before db = (
  count (forgotten job_id before) db.failed,
  record db { failed = filter (λ f. not (forgotten job_id before f)) db.failed },
)
