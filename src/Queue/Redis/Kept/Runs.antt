-- ===== src/Queue/Redis/Kept/Runs.antt =====
-- Every interleaving of the driver's scripts, by any number of workers that may come back with any job
-- they were ever handed.
use mathlib.Core.List.{Memᴰ}
use py_app_runner.Prelude.{ℕ, String, Option, none, some, List, [], ◌∷◌, All, All-Memᴰ, All-map}
use py_app_runner.Prelude.Int.{ℤ}
use py_app_runner.Queue.Job.{Job}
use py_app_runner.Queue.Pg.Push.{PushArgs}
use py_app_runner.Queue.Redis.Store.{Store, Redis}
use py_app_runner.Queue.Redis.Push.{push}
use py_app_runner.Queue.Redis.Completion.{delete, release, fail}
use py_app_runner.Queue.Redis.Reserve.{Call, Handed, reserve_script, on_payload}
use py_app_runner.Queue.Redis.Reports.{requeue, forget}
use py_app_runner.Queue.Redis.Kept.Places.{IsWhole, IsHandle, IsRedis}
use py_app_runner.Queue.Redis.Kept.Handles.{IsHandled, IsHandled-Keeping}
use py_app_runner.Queue.Redis.Kept.Push.{Keeping, push-Keeping}
use py_app_runner.Queue.Redis.Kept.Completion.{delete-Keeping, release-Keeping, fail-Keeping}
use py_app_runner.Queue.Redis.Kept.Reserve.{IsHandedOk, IsGoodJob, script_good, payload_good}
use py_app_runner.Queue.Redis.Kept.Reports.{requeue-Keeping, forget-Keeping}

-- A server without a key.
abbrev pub no_keys : Store
no_keys = record {
  seq = 0;
  jobs = λ id. none;
  unique = λ key. none;
  delayed = [];
  entries = [];
  added = 0;
  levels = λ queue. [];
  queues = [];
  failed = [];
}

abbrev pub with_job : {A : Type 0} → Option A → List A → List A
with_job none held = held
with_job (some job) held = job ∷ held

-- An answer of `_RESERVE`, with the arguments of its call.
pub record Pending : Type 0 where
  pub call : Call
  pub answer : Handed

abbrev pub id_of : Pending → ℕ
id_of p = p.answer.0

abbrev pub entry_of : Pending → String
entry_of p = p.answer.1

abbrev pub payload_of : Pending → String
payload_of p = p.answer.2.payload

abbrev pub with_answer : Call → Option Handed → List Pending → List Pending
with_answer call none pend = pend
with_answer call (some answer) pend = record { call = call; answer = answer } ∷ pend

module _ {Payload : Type 0} (empty : Payload) (dumps : Payload → Option String)
    (loads : String → Option Payload) (r : Redis) where
  -- The keys after some scripts, with the answers of `_RESERVE` and the jobs made of them. Every step is
  -- one script, or none: a reserve of several queues is one step for each, an answer whose payload
  -- cannot be read is failed by a later step, and a retry or a forget of several jobs is one step each.
  pub data Runs : Store → List Pending → List (Job Payload) → Type 0 where
    started : Runs no_keys [] []
    pushed :
        {s : Store} {pend : List Pending} {held : List (Job Payload)}
        → Runs s pend held
        → (now : ℕ) (created_at : String) (args : PushArgs Payload)
        → Runs (push empty dumps r now created_at args s).1 pend held
    reserved :
        {s : Store} {pend : List Pending} {held : List (Job Payload)}
        → Runs s pend held
        → (call : Call)
        → Runs (reserve_script r call s).1 (with_answer call (reserve_script r call s).0 pend) held
    answered :
        {s : Store} {pend : List Pending} {held : List (Job Payload)}
        → Runs s pend held
        → (p : Pending) → Memᴰ p pend
        → Runs
            (on_payload r p.call (λ t. t) p.answer (loads (payload_of p)) s).1
            pend
            (with_job (on_payload r p.call (λ t. t) p.answer (loads (payload_of p)) s).0 held)
    deleted :
        {s : Store} {pend : List Pending} {held : List (Job Payload)}
        → Runs s pend held
        → (job : Job Payload) → Memᴰ job held
        → Runs (delete r job s).1 pend held
    released :
        {s : Store} {pend : List Pending} {held : List (Job Payload)}
        → Runs s pend held
        → (job : Job Payload) (now : ℕ) (delay : ℤ) (error : String) → Memᴰ job held
        → Runs (release r now job delay error s).1 pend held
    failed :
        {s : Store} {pend : List Pending} {held : List (Job Payload)}
        → Runs s pend held
        → (job : Job Payload) (now : ℕ) (failed_at error : String) → Memᴰ job held
        → Runs (fail r now failed_at job error s).1 pend held
    requeued :
        {s : Store} {pend : List Pending} {held : List (Job Payload)}
        → Runs s pend held
        → (id max_attempts now : ℕ) → Runs (requeue r id max_attempts now s).1 pend held
    forgotten :
        {s : Store} {pend : List Pending} {held : List (Job Payload)}
        → Runs s pend held
        → (id : ℕ) → Runs (forget id s).1 pend held

  -- What every script keeps.
  record Kept (s : Store) (pend : List Pending) (held : List (Job Payload)) : Type 0 where
    pub whole : IsWhole s
    pub answers : All (λ p. IsHandled r (id_of p) (entry_of p) s) pend
    pub jobs : All (λ job. IsHandled r job.id job.handle s) held

  Kept-Keeping :
      {s s' : Store} {pend : List Pending} {held : List (Job Payload)}
      → Keeping r s s'
      → Kept s pend held
      → Kept s' pend held
  Kept-Keeping {pend = pend} {held = held} k h = record {
    whole = k.0 h.whole;
    answers =
        All-map _ _ pend (λ p own. IsHandled-Keeping r (id_of p) (entry_of p) k own) h.answers;
    jobs = All-map _ _ held (λ job own. IsHandled-Keeping r job.id job.handle k own) h.jobs;
  }

  handle_of :
      {s : Store} {pend : List Pending} {held : List (Job Payload)} (job : Job Payload)
      → Kept s pend held
      → Memᴰ job held
      → IsHandle r job.handle job.id s
  handle_of {s} {pend} {held} job h m =
      (All-Memᴰ (λ (j : Job Payload). IsHandled r j.id j.handle s) held h.jobs m).own

  with_job-Kept :
      {s : Store} {pend : List Pending} (o : Option (Job Payload)) (held : List (Job Payload))
      → IsGoodJob r o s
      → Kept s pend held
      → Kept s pend (with_job o held)
  with_job-Kept none held g k = k
  with_job-Kept (some job) held g k = record {
    whole = k.whole;
    answers = k.answers;
    jobs = (g, k.jobs);
  }

  with_answer-Kept :
      {s : Store} {held : List (Job Payload)} (call : Call) (o : Option Handed)
      (pend : List Pending)
      → IsHandedOk r o s
      → Kept s pend held
      → Kept s (with_answer call o pend) held
  with_answer-Kept call none pend g k = k
  with_answer-Kept call (some (id, entry, hash)) pend g k = record {
    whole = k.whole;
    answers = (g, k.answers);
    jobs = k.jobs;
  }

  no_keys-IsWhole : IsWhole no_keys
  no_keys-IsWhole = record {
    sound = record { served = tt; numbered = tt; distinct = tt };
    placed = λ j hash e. absurd (cc e);
  }

  Runs-Kept :
      IsRedis r
      → {s : Store} {pend : List Pending} {held : List (Job Payload)} → Runs s pend held
      → Kept s pend held
  Runs-Kept law started = record { whole = no_keys-IsWhole; answers = tt; jobs = tt }
  Runs-Kept law (pushed {s} run now created_at args) =
      Kept-Keeping (push-Keeping r law empty dumps now created_at args s) (Runs-Kept law run)
  Runs-Kept law (reserved {s} {pend} run call) =
      let k = Runs-Kept law run in
      let (kept, good) = script_good r law call s k.whole.sound in
      with_answer-Kept call (reserve_script r call s).0 pend good (Kept-Keeping kept k)
  Runs-Kept law (answered {s} {pend} {held} run p m) =
      let k = Runs-Kept law run in
      let (kept, good) =
        payload_good r law p.call (id_of p) (entry_of p) p.answer.2 (loads (payload_of p)) s
          (All-Memᴰ (λ q. IsHandled r (id_of q) (entry_of q) s) pend k.answers m) in
      with_job-Kept (on_payload r p.call (λ t. t) p.answer (loads (payload_of p)) s).0 held good
        (Kept-Keeping kept k)
  Runs-Kept law (deleted {s} run job m) =
      let k = Runs-Kept law run in Kept-Keeping (delete-Keeping r law job s (handle_of job k m)) k
  Runs-Kept law (released {s} run job now delay error m) =
      let k = Runs-Kept law run in
      Kept-Keeping (release-Keeping r law job s (handle_of job k m) now delay error) k
  Runs-Kept law (failed {s} run job now failed_at error m) =
      let k = Runs-Kept law run in
      Kept-Keeping (fail-Keeping r law job s (handle_of job k m) now failed_at error) k
  Runs-Kept law (requeued {s} run id max_attempts now) =
      Kept-Keeping (requeue-Keeping r law id max_attempts now s) (Runs-Kept law run)
  Runs-Kept law (forgotten {s} run id) =
      Kept-Keeping (forget-Keeping r law id s) (Runs-Kept law run)

  -- Where the server never uses an entry's id twice and XAUTOCLAIM hands over entries of its stream,
  -- after any interleaving of the single scripts of pushes, reserves, retries and forgets, of the
  -- failing of answers that cannot be read, at any time after they were given, and of deletes,
  -- releases and fails of jobs handed out before, stale ones included: every job with a hash is
  -- delayed, failed, or has an entry on a stream; and every entry is on a stream whose level its queue
  -- lists, so that reserve walks it.
  pub Runs-IsWhole :
      IsRedis r
      → {s : Store} {pend : List Pending} {held : List (Job Payload)} → Runs s pend held
      → IsWhole s
  Runs-IsWhole law run = (Runs-Kept law run).whole
