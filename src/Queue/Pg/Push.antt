-- ===== src/Queue/Pg/Push.antt =====
-- `PgQueue.push` and `_id_for_unique`.
use mathlib.Core.Option
use py_app_runner.Prelude.{
  ℕ, ◌+◌, String, Bool, false, Option, none, some, [], ◌∷◌, ◌++◌, str_eq, if◌then◌else◌, any, find,
}
use py_app_runner.Prelude.Int.{ℤ, at_least}
use py_app_runner.Queue.Pg.Tables.{Row, Db, has_key}

pub record PushArgs (Payload : Type 0) : Type 0 where
  pub name : String
  pub payload : Option Payload
  pub delay : ℤ
  pub queue : String
  pub priority : ℤ
  pub unique : Option String
  pub max_attempts : ℤ

-- `raised_transaction` is the error of any statement in a transaction that has already failed.
pub data PushResult : Type 0 where
  queued : ℕ → PushResult
  not_encodable unique_violation raised_transaction : PushResult

-- What the surroundings of one push decide: the clock, whether the caller has a transaction open,
-- and what other connections commit before the insert and after a refused one.
pub record PushEnv : Type 0 where
  pub moment : ℕ
  pub in_transaction : Bool
  pub before_insert : Db → Db
  pub after_refusal : Db → Db

-- `unique or None`
unfoldable pub key_of : Option String → Option String
key_of none = none
key_of (some key) = if str_eq key "" then none else some key

-- `queue or "default"`
unfoldable pub queue_of : String → String
queue_of queue = if str_eq queue "" then "default" else queue

unfoldable pub id_for_unique : Db → String → Option ℕ
id_for_unique db key = Option.map (λ (r : Row). r.id) (find (has_key key) db.jobs)

-- The unique index on unique_key; NULLs do not clash.
unfoldable pub violates : Db → Option String → Bool
violates db none = false
violates db (some key) = any (has_key key) db.jobs

module _ {Payload : Type 0} where
  unfoldable pub new_row : ℕ → ℕ → String → PushArgs Payload → Row
  unfolding key_of queue_of
  new_row id moment payload args = record {
    id = id;
    queue = queue_of args.queue;
    name = args.name;
    payload = payload;
    attempts = 0;
    max_attempts = at_least 1 args.max_attempts;
    priority = args.priority;
    unique_key = key_of args.unique;
    available_at = moment + at_least 0 args.delay;
    reserved_until = none;
    reserved_by = none;
    last_error = "";
    created_at = moment;
  }

  -- A refused INSERT spends a value of the sequence too.
  unfoldable pub insert_job : ℕ → String → PushArgs Payload → Db → Option ℕ × Db
  unfolding new_row violates
  insert_job moment payload args db =
      if violates db (key_of args.unique) then (none, record db { next_id = db.next_id + 1 }) else (
        some db.next_id,
        record db {
          jobs = db.jobs ++ new_row db.next_id moment payload args ∷ [];
          next_id = db.next_id + 1;
        },
      )

-- except UniqueViolation: the id of whoever holds the key now, or the violation again
unfoldable pub refused : PushEnv → Option String → Db → PushResult × Db
refused env none db = (unique_violation, db)
refused env (some key) db =
    if env.in_transaction
    then (raised_transaction, db)
    else (let db' = env.after_refusal db in
        elim (id_for_unique db' key) [
          | none ↦ (unique_violation, db')
          | some id ↦ (queued id, db')
        ])

-- try: the insert / except UniqueViolation
unfoldable pub settled : PushEnv → Option String → Option ℕ × Db → PushResult × Db
unfolding refused
settled env key (some id, db) = (queued id, db)
settled env key (none, db) = refused env key db

module _ {Payload : Type 0} where
  -- `none` stands for a payload that is not JSON encodable
  unfoldable pub insert_encoded : PushEnv → PushArgs Payload → Option String → Db → PushResult × Db
  unfolding settled insert_job
  insert_encoded env args none db = (not_encodable, db)
  insert_encoded env args (some payload) db =
      settled env (key_of args.unique) (insert_job env.moment payload args (env.before_insert db))

  -- if existing is not None: return existing
  unfoldable pub unless_existing :
      PushEnv → PushArgs Payload → Option String → Option ℕ → Db → PushResult × Db
  unfolding insert_encoded
  unless_existing env args payload (some id) db = (queued id, db)
  unless_existing env args payload none db = insert_encoded env args payload db

-- if key is not None: the id that holds it
unfoldable pub existing : Option String → Db → Option ℕ
unfolding id_for_unique
existing none db = none
existing (some key) db = id_for_unique db key

module _ {Payload : Type 0} (empty : Payload) (dumps : Payload → Option String) where
  unfoldable pub push : PushEnv → PushArgs Payload → Db → PushResult × Db
  unfolding unless_existing existing
  push env args db =
      unless_existing env args (dumps (Option.get_or args.payload empty))
        (existing (key_of args.unique) db) db
