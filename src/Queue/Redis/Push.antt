-- ===== src/Queue/Redis/Push.antt =====
-- `_PUSH` and `RedisQueue.push`.
use mathlib.Core.Option
use py_app_runner.Prelude.{ℕ, ◌+◌, String, Option, none, some, str_eq, ltb, if◌then◌else◌}
use py_app_runner.Prelude.Int.{at_least}
use py_app_runner.Queue.Pg.Push.{PushArgs, key_of, queue_of}
use py_app_runner.Queue.Redis.Store.{
  JobHash, Store, Redis, hset, set_unique, zadd_delayed, sadd_queue, add_ready,
}

-- `unique or ""`
unfoldable pub text_of : Option String → String
text_of none = ""
text_of (some key) = key

-- a holder whose hash is still there
unfoldable pub holder_alive : Option ℕ → Option JobHash → Option ℕ
holder_alive none hash = none
holder_alive (some id) none = none
holder_alive (some id) (some hash) = some id

unfoldable pub hash_at : Option ℕ → Store → Option JobHash
hash_at none s = none
hash_at (some id) s = s.jobs id

-- the holder of a unique key, which answers the push
unfoldable pub holder : String → Store → Option ℕ
unfolding holder_alive hash_at
holder key s =
    if str_eq key "" then none else holder_alive (s.unique key) (hash_at (s.unique key) s)

unfoldable pub new_hash : {Payload : Type 0} → ℕ → String → String → PushArgs Payload → JobHash
unfolding queue_of key_of text_of
new_hash now created_at payload args = record {
  queue = queue_of args.queue;
  name = args.name;
  payload = payload;
  attempts = 0;
  max_attempts = at_least 1 args.max_attempts;
  priority = args.priority;
  unique_key = text_of (key_of args.unique);
  available_at = now + at_least 0 args.delay;
  reserved_until = 0;
  reserved_by = "";
  last_error = "";
  error = "";
  failed_at = "";
  created_at = created_at;
  entry = "";
}

-- the key taken by the id, where there is a key; an older holder that is gone is overwritten
unfoldable pub take_key : String → ℕ → Store → Store
unfolding set_unique
take_key key id s = if str_eq key "" then s else set_unique key (some id) s

-- the new job in the delayed set, or on its stream
unfoldable pub enqueue : Redis → ℕ → ℕ → JobHash → Store → Store
unfolding zadd_delayed add_ready
enqueue r now id hash s =
    if ltb now hash.available_at
    then zadd_delayed r hash.queue hash.available_at id s
    else add_ready r hash.queue id hash s

unfoldable pub store_job : Redis → ℕ → JobHash → Store → ℕ × Store
unfolding hset take_key sadd_queue enqueue
store_job r now hash s =
    let id = s.seq + 1 in
    (
      id,
      enqueue r now id hash (
          sadd_queue hash.queue
            (take_key hash.unique_key id (hset id (some hash) (record s { seq = id })))),
    )

-- return held
unfoldable pub unless_held : Redis → ℕ → JobHash → Option ℕ → Store → ℕ × Store
unfolding store_job
unless_held r now hash (some id) s = (id, s)
unless_held r now hash none s = store_job r now hash s

unfoldable pub push_script : Redis → ℕ → JobHash → Store → ℕ × Store
unfolding unless_held holder
push_script r now hash s = unless_held r now hash (holder hash.unique_key s) s

-- none where the payload cannot be encoded
unfoldable pub push_encoded :
    {Payload : Type 0}
    → Redis
    → ℕ
    → String
    → PushArgs Payload
    → Option String
    → Store
    → Option ℕ × Store
push_encoded r now created_at args none s = (none, s)
push_encoded r now created_at args (some payload) s =
    let (id, after) = push_script r now (new_hash now created_at payload args) s in (some id, after)

unfoldable pub push :
    {Payload : Type 0}
    → Payload
    → (Payload → Option String)
    → Redis
    → ℕ
    → String
    → PushArgs Payload
    → Store
    → Option ℕ × Store
unfolding push_encoded
push empty dumps r now created_at args s =
    push_encoded r now created_at args (dumps (Option.get_or args.payload empty)) s
