-- ===== src/Queue/Pg/Reserve.antt =====
-- `PgQueue.reserve`, `_reserve_from`, `_candidate`, `_claim`, `_read` and `_to_job`.
use Prim.Native.String.{[] as end, ◌∷◌ as char}
use mathlib.Core.Option
use py_app_runner.Prelude.{
  ℕ, zero, suc, ◌+◌, String, Bool, true, false, not, ◌&&◌, Option, none, some, List, [], ◌∷◌,
  str_eq, leb, ◌==◌, filter, find, count,
}
use py_app_runner.Prelude.Int.{ℤ, at_least}
use py_app_runner.Queue.Job.{Job}
use py_app_runner.Queue.Pg.Tables.{
  Row, Db, claimable, owned, exhausted, update_where, first_by, precedes,
}
use py_app_runner.Queue.Pg.Completion.{move_to_failed}

abbrev pub claim_rounds : ℕ
claim_rounds = 5

abbrev pub exhausted_error : String
exhausted_error =
    "Exceeded max attempts: the last attempt released the job, or its worker died before finishing it."

abbrev pub payload_error : String
payload_error = "Payload is not valid JSON, so no handler could be given it."

-- worker[:n]
unfoldable pub take_chars : ℕ → String → String
take_chars zero s = ""
take_chars (suc n) end = ""
take_chars (suc n) (char c s) = char c (take_chars n s)

-- One round of the loop: its clock, the rows that other transactions have locked (SKIP LOCKED), and
-- what other connections commit before the round, between the select and the update, and before an
-- undecodable job is moved.
pub record Round : Type 0 where
  pub moment : ℕ
  pub locked : ℕ → Bool
  pub before : Db → Db
  pub meanwhile : Db → Db
  pub after : Db → Db
  pub failed_at : ℕ

unfoldable pub eligible : String → ℕ → (ℕ → Bool) → Row → Bool
unfolding claimable
eligible queue moment locked r =
    str_eq r.queue queue && leb r.available_at moment && claimable moment r && not (locked r.id)

unfoldable pub candidate : String → ℕ → (ℕ → Bool) → Db → Option (ℕ × Bool)
unfolding eligible
candidate queue moment locked db =
    Option.map (λ (r : Row). (r.id, leb r.max_attempts r.attempts))
      (first_by precedes (filter (eligible queue moment locked) db.jobs))

unfoldable pub claimed_row : ℕ → String → Row → Row
claimed_row until worker r = record r {
  reserved_until = some until;
  reserved_by = some worker;
  attempts = r.attempts + 1;
}

unfoldable pub claim : ℕ → ℕ → String → ℕ → Db → Bool × Db
unfolding claimed_row
claim id until worker moment db =
    let free = λ (r : Row). r.id == id && claimable moment r in
    (
      count free db.jobs == 1,
      record db { jobs = update_where free (claimed_row until (take_chars 64 worker)) db.jobs },
    )

unfoldable pub read : ℕ → Db → Option Row
read id db = find (λ r. r.id == id) db.jobs

unfoldable pub job_of : {Payload : Type 0} → Row → String → Payload → Job Payload
job_of r reserved_by payload = record {
  id = r.id;
  queue = r.queue;
  name = r.name;
  payload = payload;
  payload_json = r.payload;
  attempts = r.attempts;
  max_attempts = r.max_attempts;
  handle = "";
  reserved_by = reserved_by;
  release_request = none;
}

-- `loads` is json.loads, with a payload that is no dict counted as not decoded
unfoldable pub to_job :
    {Payload : Type 0} → (String → Option Payload) → Row → String → Option (Job Payload)
unfolding job_of
to_job loads r reserved_by = Option.map (job_of r reserved_by) (loads r.payload)

-- `none` ends the method, `again` is `continue`.
pub data Outcome (Payload : Type 0) : Type 0 where
  empty again : Outcome Payload
  claimed : Job Payload → Outcome Payload

module _ {Payload : Type 0} where
  -- if job is None: the row goes to the failed table
  unfoldable pub on_decoded :
      Round → String → Row → Option (Job Payload) → Db → Outcome Payload × Db
  on_decoded env worker r (some job) db = (claimed job, db)
  on_decoded env worker r none db = (
    again,
    (move_to_failed (owned worker r.attempts) r.id payload_error env.failed_at (env.after db)).1,
  )

module _ {Payload : Type 0} (loads : String → Option Payload) where
  unfoldable pub on_read : Round → String → Option Row → Db → Outcome Payload × Db
  on_read env worker none db = (again, db)
  on_read env worker (some r) db = on_decoded env worker r (to_job loads r worker) db

  -- if not claimed: continue
  unfoldable pub on_claim : Round → String → ℕ → Bool × Db → Outcome Payload × Db
  on_claim env worker id (false, db) = (again, db)
  on_claim env worker id (true, db) = on_read env (take_chars 64 worker) (read id db) db

  unfoldable pub on_candidate : Round → ℤ → String → Option (ℕ × Bool) → Db → Outcome Payload × Db
  on_candidate env timeout worker none db = (empty, db)
  on_candidate env timeout worker (some (id, true)) db = (
    again,
    (move_to_failed (exhausted env.moment) id exhausted_error env.failed_at (env.meanwhile db)).1,
  )
  on_candidate env timeout worker (some (id, false)) db =
      on_claim env worker id
        (claim id (env.moment + at_least 1 timeout) worker env.moment (env.meanwhile db))

  -- one round of the loop of `_reserve_from`
  unfoldable pub attempt : Round → String → ℤ → String → Db → Outcome Payload × Db
  attempt env queue timeout worker db =
      let db' = env.before db in
      on_candidate env timeout worker (candidate queue env.moment env.locked db') db'

module _ {Payload : Type 0} where
  -- return None / return job / continue, for a given rest of the loop
  unfoldable pub on_outcome :
      Outcome Payload × Db → (Db → Option (Job Payload) × Db) → Option (Job Payload) × Db
  on_outcome (empty, db) rest = (none, db)
  on_outcome (again, db) rest = rest db
  on_outcome (claimed job, db) rest = (some job, db)

  -- if job is not None: return job
  unfoldable pub or_next :
      Option (Job Payload) × Db → (Db → Option (Job Payload) × Db) → Option (Job Payload) × Db
  or_next (some job, db) next = (some job, db)
  or_next (none, db) next = next db

module _ {Payload : Type 0} (loads : String → Option Payload) where
  -- for _ in range(rounds); the rounds are numbered from `i`
  unfoldable pub rounds_from :
      ℕ → ℕ → (ℕ → Round) → String → ℤ → String → Db → Option (Job Payload) × Db
  rounds_from zero i env queue timeout worker db = (none, db)
  rounds_from (suc n) i env queue timeout worker db =
      on_outcome (attempt loads (env i) queue timeout worker db)
        (λ db'. rounds_from n (i + 1) env queue timeout worker db')

  unfoldable pub reserve_from : (ℕ → Round) → String → ℤ → String → Db → Option (Job Payload) × Db
  reserve_from env queue timeout worker db = rounds_from claim_rounds 0 env queue timeout worker db

  -- `env` gives the rounds that are spent on the queue at a position of the list
  unfoldable pub reserve :
      (ℕ → ℕ → Round) → List String → ℤ → String → Db → Option (Job Payload) × Db
  reserve env [] timeout worker db = (none, db)
  reserve env (queue ∷ queues) timeout worker db =
      or_next (reserve_from (env 0) queue timeout worker db)
        (λ db'. reserve (λ i. env (i + 1)) queues timeout worker db')
