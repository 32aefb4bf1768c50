-- ===== src/Queue/Redis/Reserve.antt =====
-- `_RESERVE`, `RedisQueue.reserve`, `_reserve_from` and `_to_job`.
use py_app_runner.Prelude.{
  ℕ, zero, suc, ◌+◌, ◌*◌, max, String, true, false, ◌&&◌, Option, none, some, List, [], ◌∷◌, map,
  str_eq, ltb, leb, if◌then◌else◌, filter, any, find, take,
}
use py_app_runner.Prelude.Int.{ℤ, at_least}
use py_app_runner.Queue.Job.{Job}
use py_app_runner.Queue.Pg.Push.{queue_of}
use py_app_runner.Queue.Pg.Reserve.{claim_rounds, exhausted_error, payload_error, take_chars}
use py_app_runner.Queue.Redis.Store.{
  JobHash, Due, Entry, Store, Redis, hset, is_due_for, zrem_delayed, zadd_delayed, in_stream,
  drop_entry, deliver, add_ready,
}
use py_app_runner.Queue.Redis.Completion.{fail_raw, buried}

abbrev pub promote_limit : ℕ
promote_limit = 50

-- The arguments of one call of the script: the queue, the second, the server's millisecond, the
-- timeout, the worker and the text of the moment.
pub record Call : Type 0 where
  pub queue : String
  pub now : ℕ
  pub ms : ℕ
  pub timeout : ℕ
  pub worker : String
  pub failed_at : String

-- ZRANGEBYSCORE ... LIMIT
unfoldable pub due_ids : String → ℕ → Store → List ℕ
due_ids queue now s =
    take promote_limit
      (map (λ (d : Due). d.id) (filter (λ d. str_eq d.queue queue && leb d.score now) s.delayed))

unfoldable pub promote_hash : Redis → String → ℕ → Option JobHash → Store → Store
unfolding add_ready
promote_hash r queue id none s = s
promote_hash r queue id (some hash) s = add_ready r queue id hash s

-- only the caller that removed it adds the entry
unfoldable pub promote_one : Redis → String → ℕ → Store → Store
unfolding zrem_delayed promote_hash
promote_one r queue id s =
    if any (is_due_for queue id) s.delayed
    then promote_hash r queue id (s.jobs id) (zrem_delayed queue id s)
    else s

unfoldable pub promote : Redis → String → List ℕ → Store → Store
promote r queue [] s = s
promote r queue (id ∷ ids) s = promote r queue ids (promote_one r queue id s)

-- the entry that XAUTOCLAIM hands over, or else the first that was never delivered
unfoldable pub or_unread : Option Entry → List Entry → Option Entry
or_unread (some e) stream = some e
or_unread none stream = find (λ e. elim e.delivered [ none ↦ true | some _ ↦ false ]) stream

unfoldable pub next_entry : Redis → Call → ℤ → Store → Option Entry
unfolding or_unread in_stream
next_entry r call level s =
    let stream = filter (in_stream call.queue level) s.entries in
    or_unread (r.autoclaim call.ms (call.timeout * 1000) stream) stream

-- What one round of a level comes to: no entry, the next round, or a job handed out.
pub data Turn : Type 0 where
  idle : Turn
  again : Store → Turn
  handed : ℕ → String → JobHash → Store → Turn

-- a claim that still runs: back to the delayed set until it ends
unfoldable pub park : Redis → Call → ℤ → Entry → JobHash → Store → Store
unfolding drop_entry hset zadd_delayed
park r call level e hash s = drop_entry r call.queue level (r.entry_id e.number) (
    hset e.job (some (record hash { entry = "" }))
      (zadd_delayed r call.queue hash.reserved_until e.job s))

unfoldable pub bury : Redis → Call → ℤ → Entry → JobHash → Store → Store
unfolding drop_entry buried
bury r call level e hash s =
    buried r e.job hash exhausted_error call.now call.failed_at
      (drop_entry r call.queue level (r.entry_id e.number) s)

unfoldable pub claimed_hash : Redis → Call → Entry → JobHash → JobHash
claimed_hash r call e hash = record hash {
  attempts = hash.attempts + 1;
  reserved_by = call.worker;
  reserved_until = call.now + call.timeout;
  entry = r.entry_id e.number;
}

unfoldable pub on_hash : Redis → Call → ℤ → Entry → Option JobHash → Store → Turn
on_hash r call level e none s = again (drop_entry r call.queue level (r.entry_id e.number) s)
on_hash r call level e (some hash) s =
    if ltb call.now hash.reserved_until
    then again (park r call level e hash s)
    else if leb hash.max_attempts hash.attempts
    then again (bury r call level e hash s)
    else handed e.job (r.entry_id e.number) (claimed_hash r call e hash)
        (hset e.job (some (claimed_hash r call e hash)) s)

unfoldable pub on_entry : Redis → Call → ℤ → Option Entry → Store → Turn
unfolding deliver
on_entry r call level none s = idle
on_entry r call level (some e) s =
    let s' = deliver call.ms e.number s in on_hash r call level e (s'.jobs e.job) s'

unfoldable pub round : Redis → Call → ℤ → Store → Turn
unfolding on_entry next_entry
round r call level s = on_entry r call level (next_entry r call level s) s

-- What a script hands out: the id, the entry and the hash.
abbrev pub Handed : Type 0
Handed = ℕ × String × JobHash

unfoldable pub on_turn : (Store → Option Handed × Store) → Store → Turn → Option Handed × Store
on_turn next s idle = (none, s)
on_turn next s (again s') = next s'
on_turn next s (handed id entry hash s') = (some (id, entry, hash), s')

unfoldable pub rounds : Redis → Call → ℤ → ℕ → Store → Option Handed × Store
rounds r call level zero s = (none, s)
rounds r call level (suc n) s = on_turn (rounds r call level n) s (round r call level s)

unfoldable pub or_lower :
    Option Handed × Store → (Store → Option Handed × Store) → Option Handed × Store
or_lower (some h, s) next = (some h, s)
or_lower (none, s) next = next s

-- the levels, the highest first
unfoldable pub walk : Redis → Call → List ℤ → Store → Option Handed × Store
walk r call [] s = (none, s)
walk r call (level ∷ levels) s = or_lower (rounds r call level claim_rounds s) (walk r call levels)

unfoldable pub reserve_script : Redis → Call → Store → Option Handed × Store
unfolding promote due_ids
reserve_script r call s =
    let s' = promote r call.queue (due_ids call.queue call.now s) s in
    walk r call (s'.levels call.queue) s'

-- `fields.get("queue") or queue`
unfoldable pub queue_or : String → String → String
queue_or queue default = if str_eq queue "" then default else queue

-- The clock of a call, for each queue in turn: the second, the millisecond and the text.
pub record Clock : Type 0 where
  pub now : ℕ
  pub ms : ℕ
  pub failed_at : String

unfoldable pub call_of : String → ℤ → String → Clock → Call
unfolding take_chars
call_of queue timeout worker clock = record {
  queue = queue;
  now = clock.now;
  ms = clock.ms;
  timeout = at_least 1 timeout;
  worker = take_chars 64 worker;
  failed_at = clock.failed_at;
}

module _ {Payload : Type 0} where
  -- max(1, ...), since a job that is handed out has been attempted
  unfoldable pub job_of : ℕ → String → JobHash → Payload → Job Payload
  unfolding queue_of
  job_of id entry hash payload = record {
    id = id;
    queue = queue_of hash.queue;
    name = hash.name;
    payload = payload;
    payload_json = hash.payload;
    attempts = max 1 hash.attempts;
    max_attempts = max 1 hash.max_attempts;
    handle = entry;
    reserved_by = hash.reserved_by;
    release_request = none;
  }

  -- A payload that cannot be read fails the job by a script of its own; `others` is what other
  -- connections do between the two scripts.
  unfoldable pub on_payload :
      Redis
      → Call
      → (Store → Store)
      → Handed
      → Option Payload
      → Store
      → Option (Job Payload) × Store
  unfolding job_of queue_or
  on_payload r call others (id, entry, hash) (some payload) s =
      (some (job_of id entry hash payload), s)
  on_payload r call others (id, entry, hash) none s = (
    none,
    (fail_raw r id (queue_or hash.queue call.queue) entry hash.reserved_by hash.attempts
        payload_error call.now call.failed_at (others s)).1,
  )

module _ {Payload : Type 0} (loads : String → Option Payload) where
  unfoldable pub on_result :
      Redis → Call → (Store → Store) → Option Handed × Store → Option (Job Payload) × Store
  on_result r call others (none, s) = (none, s)
  on_result r call others (some (id, entry, hash), s) =
      on_payload r call others (id, entry, hash) (loads hash.payload) s

  unfoldable pub reserve_from :
      Redis → Call → (Store → Store) → Store → Option (Job Payload) × Store
  reserve_from r call others s = on_result r call others (reserve_script r call s)

  unfoldable pub or_next :
      Option (Job Payload) × Store
      → (Store → Option (Job Payload) × Store)
      → Option (Job Payload) × Store
  or_next (some job, s) next = (some job, s)
  or_next (none, s) next = next s

  -- For each queue in turn, `others` is what other connections do before a job that cannot be read is
  -- failed, and `between` what they do before the next queue.
  unfoldable pub reserve :
      Redis
      → (ℕ → Clock)
      → (ℕ → Store → Store)
      → (ℕ → Store → Store)
      → List String
      → ℤ
      → String
      → Store
      → Option (Job Payload) × Store
  reserve r clocks others between [] timeout worker s = (none, s)
  reserve r clocks others between (queue ∷ queues) timeout worker s =
      or_next (reserve_from r (call_of queue timeout worker (clocks 0)) (others 0) s) (λ t.
        reserve r (λ i. clocks (i + 1)) (λ i. others (i + 1)) (λ i. between (i + 1)) queues timeout
          worker (between 0 t))
