-- ===== src/Queue/Redis/Reports.antt =====
-- `_REQUEUE`, `_FORGET`, `retry_failed`, `forget_failed`, and the counts of `RedisQueue`.
use py_app_runner.Prelude.{
  ℕ, ◌+◌, ◌-◌, max, String, Bool, true, false, ◌&&◌, Option, none, some, List, [], ◌∷◌, map, str_eq,
  ltb, leb, ◌==◌, if◌then◌else◌, length, filter, any, count,
}
use py_app_runner.Prelude.Int.{ℤ, pos, at_least}
use py_app_runner.Queue.Pg.Push.{queue_of}
use py_app_runner.Queue.Redis.Store.{
  JobHash, Due, Entry, Failed, Store, Redis, hset, sadd_queue, in_stream, zrem_failed, add_ready,
}

abbrev pub fresh_again : ℕ → ℕ → JobHash → JobHash
fresh_again max_attempts now hash = record hash {
  attempts = 0;
  max_attempts = max_attempts;
  priority = pos 0;
  unique_key = "";
  available_at = now;
  reserved_until = 0;
  reserved_by = "";
  last_error = "";
  error = "";
  failed_at = "";
}

unfoldable pub requeue_hash : Redis → ℕ → ℕ → ℕ → Option JobHash → Store → Bool × Store
unfolding sadd_queue add_ready queue_of
requeue_hash r id max_attempts now none s = (false, s)
requeue_hash r id max_attempts now (some hash) s = (
  true,
  sadd_queue (queue_of hash.queue)
      (add_ready r (queue_of hash.queue) id (fresh_again max_attempts now hash) s),
)

unfoldable pub is_failed : ℕ → Store → Bool
is_failed id s = any (λ f. f.id == id) s.failed

-- `_REQUEUE`; the Boolean is its answer
unfoldable pub requeue : Redis → ℕ → ℕ → ℕ → Store → Bool × Store
unfolding requeue_hash is_failed zrem_failed
requeue r id max_attempts now s =
    if is_failed id s
    then requeue_hash r id max_attempts now (s.jobs id) (zrem_failed id s)
    else (false, s)

-- `_FORGET`
unfoldable pub forget : ℕ → Store → Bool × Store
unfolding is_failed zrem_failed hset
forget id s = if is_failed id s then (true, hset id none (zrem_failed id s)) else (false, s)

-- for one in ids, with the answers added up
unfoldable pub for_each : (ℕ → Store → Bool × Store) → List ℕ → Store → ℕ × Store
for_each script [] s = (0, s)
for_each script (id ∷ ids) s =
    let (done, s') = script id s in
    let (more, s'') = for_each script ids s' in ((if done then 1 else 0) + more, s'')

unfoldable pub failed_ids : Option ℕ → Store → List ℕ
failed_ids (some id) s = id ∷ []
failed_ids none s = map (λ (f : Failed). f.id) s.failed

unfoldable pub retry_failed : Redis → Option ℕ → ℤ → ℕ → Store → ℕ × Store
unfolding for_each failed_ids
retry_failed r job_id max_attempts now s =
    for_each (λ id. requeue r id (at_least 1 max_attempts) now) (failed_ids job_id s) s

-- The ids to forget: the one, those that failed before the second, or all.
unfoldable pub forgotten_ids : Option ℕ → Option ℕ → Store → List ℕ
forgotten_ids (some id) before s = id ∷ []
forgotten_ids none (some before) s =
    map (λ (f : Failed). f.id) (filter (λ f. ltb f.score before) s.failed)
forgotten_ids none none s = map (λ (f : Failed). f.id) s.failed

-- `before` is the second that `_epoch` reads from the date.
unfoldable pub forget_failed : Option ℕ → Option ℕ → Store → ℕ × Store
unfolding for_each forgotten_ids
forget_failed job_id before s = for_each forget (forgotten_ids job_id before s) s

unfoldable pub failed_count : Store → ℕ
failed_count s = length s.failed

abbrev is_pending : Entry → Bool
is_pending e = elim e.delivered [ none ↦ false | some _ ↦ true ]

-- XLEN over the levels
unfoldable pub ready_entries : String → List ℤ → Store → ℕ
ready_entries queue [] s = 0
ready_entries queue (level ∷ levels) s =
    count (in_stream queue level) s.entries + ready_entries queue levels s

-- the pending entries of the group over the levels
unfoldable pub held_entries : String → List ℤ → Store → ℕ
held_entries queue [] s = 0
held_entries queue (level ∷ levels) s =
    count (λ e. in_stream queue level e && is_pending e) s.entries + held_entries queue levels s

pub record Counts : Type 0 where
  pub pending : ℕ
  pub delayed : ℕ
  pub reserved : ℕ
  pub total : ℕ

-- `_counts`
unfoldable pub counts : String → ℕ → Store → Counts
unfolding ready_entries held_entries
counts queue now s =
    let ready = ready_entries queue (s.levels queue) s in
    let held = held_entries queue (s.levels queue) s in
    let due = count (λ (d : Due). str_eq d.queue queue && leb d.score now) s.delayed in
    let scheduled = count (λ (d : Due). str_eq d.queue queue) s.delayed in
    record {
      pending = max 0 (ready - held) + due;
      delayed = max 0 (scheduled - due);
      reserved = held;
      total = max 0 (ready - held) + due + max 0 (scheduled - due) + held;
    }

unfoldable pub pending_over : List String → ℕ → Store → ℕ
pending_over [] now s = 0
pending_over (queue ∷ queues) now s = (counts queue now s).pending + pending_over queues now s

unfoldable pub pending : Option String → ℕ → Store → ℕ
unfolding pending_over
pending (some queue) now s = pending_over (queue ∷ []) now s
pending none now s = pending_over s.queues now s

-- the rows of the queues with anything in them
unfoldable pub stats_over : List String → ℕ → Store → List (String × Counts)
stats_over [] now s = []
stats_over (queue ∷ queues) now s =
    let rest = stats_over queues now s in
    if ltb 0 (counts queue now s).total then (queue, counts queue now s) ∷ rest else rest
