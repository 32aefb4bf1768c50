-- ===== src/Queue/Redis/Handed.antt =====
-- Which job `reserve` hands out, and what becomes of the claims on it.
use py_app_runner.Prelude.{
  ℕ, zero, suc, ◌+◌, ◌≤◌, ◌<◌, String, ◌≡◌, refl, sym, ap, ◌∙◌, subst, Option, none, some, List, [],
  ◌∷◌, arith,
}
use py_app_runner.Prelude.Int.{ℤ}
use py_app_runner.Queue.Job.{Job}
use py_app_runner.Queue.Pg.Push.{queue_of}
use py_app_runner.Queue.Pg.Reserve.{claim_rounds}
use py_app_runner.Queue.Redis.Aged.{
  Aged, Aged-trans, Aged-same, earlier, IsTaken, IsFair, round-IsFair, promote-Aged,
}
use py_app_runner.Queue.Redis.Store.{JobHash, Store, Redis}
use py_app_runner.Queue.Redis.Reserve.{
  Call, due_ids, promote, Turn, idle, again, handed, round, Handed, on_turn, rounds, or_lower, walk,
  reserve_script, job_of, on_payload, on_result, reserve_from,
}

abbrev pub IsTakenBy : Call → Store → Option Handed × Store → Type 0
IsTakenBy call s (none, s') = Aged s s'
IsTakenBy call s (some (id, entry, hash), s') = IsTaken call s s' id hash

module _ (r : Redis) (call : Call) where
  later :
      (s t : Store) (x : Option Handed × Store) → Aged s t → IsTakenBy call t x → IsTakenBy call s x
  later s t (none, u) a b = Aged-trans s t u a b
  later s t (some (id, entry, hash), u) a b = earlier call s t u id hash a b

  turned :
      (next : Store → Option Handed × Store) (s : Store) (t : Turn)
      → IsFair call s t
      → ((s' : Store) → IsTakenBy call s' (next s'))
      → IsTakenBy call s (on_turn next s t)
  unfolding on_turn
  turned next s idle f k = Aged-same s
  turned next s (again s') f k = later s s' (next s') f (k s')
  turned next s (handed id entry hash s') f k = f

  rounds-IsTakenBy : (level : ℤ) (n : ℕ) (s : Store) → IsTakenBy call s (rounds r call level n s)
  unfolding rounds
  rounds-IsTakenBy level zero s = Aged-same s
  rounds-IsTakenBy level (suc n) s =
      turned (rounds r call level n) s (round r call level s) (round-IsFair r call level s)
        (rounds-IsTakenBy level n)

  lower :
      (next : Store → Option Handed × Store) (s : Store) (x : Option Handed × Store)
      → IsTakenBy call s x
      → ((s' : Store) → IsTakenBy call s' (next s'))
      → IsTakenBy call s (or_lower x next)
  unfolding or_lower
  lower next s (some (id, entry, hash), s') f k = f
  lower next s (none, s') f k = later s s' (next s') f (k s')

  walk-IsTakenBy : (levels : List ℤ) (s : Store) → IsTakenBy call s (walk r call levels s)
  unfolding walk
  walk-IsTakenBy [] s = Aged-same s
  walk-IsTakenBy (level ∷ levels) s =
      lower (walk r call levels) s (rounds r call level claim_rounds s)
        (rounds-IsTakenBy level claim_rounds s) (walk-IsTakenBy levels)

  pub script-IsTakenBy : (s : Store) → IsTakenBy call s (reserve_script r call s)
  unfolding reserve_script
  script-IsTakenBy s =
      let ids = due_ids call.queue call.now s in
      let promoted = promote r call.queue ids s in
      later s promoted (reserve_script r call s) (promote-Aged r call.queue ids s)
        (walk-IsTakenBy (promoted.levels call.queue) promoted)

-- What a worker is handed, by the keys before and after its reserve.
pub record IsHandedOut {Payload : Type 0} (loads : String → Option Payload) (call : Call)
    (s s' : Store) (job : Job Payload) : Type 0 where
  pub before : JobHash
  pub after : JobHash
  pub stood : s.jobs job.id ≡ some before
  pub ended : before.reserved_until ≤ call.now
  pub left : before.attempts < before.max_attempts
  pub stored : s'.jobs job.id ≡ some after
  pub counted : after.attempts ≡ before.attempts + 1
  pub until : after.reserved_until ≡ call.now + call.timeout
  pub held : after.reserved_by ≡ call.worker
  pub same_attempts : job.attempts ≡ after.attempts
  pub same_worker : job.reserved_by ≡ call.worker
  pub payload : loads before.payload ≡ some job.payload
  pub queue : job.queue ≡ queue_of before.queue
  pub name : job.name ≡ before.name

-- What a reserve answers, in those terms.
abbrev IsAnswer :
    {Payload : Type 0}
    → (String → Option Payload)
    → Call
    → Store
    → Option (Job Payload) × Store
    → Type 0
IsAnswer loads call s (none, s') = Unit
IsAnswer loads call s (some job, s') = IsHandedOut loads call s s' job

module _ {Payload : Type 0} (loads : String → Option Payload) (r : Redis) (call : Call)
    (others : Store → Store) (s : Store) where
  decoded :
      (id : ℕ) (entry : String) (hash : JobHash) (t : Store) (o : Option Payload)
      → loads hash.payload ≡ o
      → IsTaken call s t id hash
      → IsAnswer loads call s (on_payload r call others (id, entry, hash) o t)
  unfolding on_payload job_of
  decoded id entry hash t none read taken = tt
  decoded id entry hash t (some payload) read taken = record {
    before = taken.before;
    after = hash;
    stood = taken.stood;
    ended = taken.ended;
    left = taken.left;
    stored = taken.stored;
    counted = taken.counted;
    until = taken.until;
    held = taken.held;
    same_attempts = omega (arith, taken.counted);
    same_worker = taken.held;
    payload = ap loads (sym taken.payload) ∙ read;
    queue = ap queue_of taken.queue;
    name = taken.name;
  }

  answered :
      (x : Option Handed × Store)
      → IsTakenBy call s x
      → IsAnswer loads call s (on_result loads r call others x)
  unfolding on_result
  answered (none, t) taken = tt
  answered (some (id, entry, hash), t) taken =
      decoded id entry hash t (loads hash.payload) refl taken

  -- The job that `reserve_from` hands out had a hash whose claim had ended at the second of the call and
  -- that had attempts left. Its hash now counts one attempt more and is held by the worker of the call
  -- until the timeout from that second; the job carries that attempt and that worker, and the queue,
  -- name and decoded payload that were stored.
  pub reserve_from-IsHandedOut :
      (job : Job Payload) (s' : Store)
      → reserve_from loads r call others s ≡ (some job, s')
      → IsHandedOut loads call s s' job
  unfolding reserve_from
  reserve_from-IsHandedOut job s' e =
      subst (IsAnswer loads call s) e
        (answered (reserve_script r call s) (script-IsTakenBy r call s))
