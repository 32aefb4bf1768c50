-- ===== src/Queue/Redis/Tests.antt =====
-- The Redis driver on a small server, and the theorems at it. A payload is its own JSON here.
use Prim.Native.String.{[] as end, ◌∷◌ as char}
use mathlib.Core.List.{Memᴰ}
use py_app_runner.Prelude.{
  ℕ, zero, suc, ◌+◌, ◌*◌, String, ◌≡◌, refl, sym, ap, ◌∙◌, false, Option, none, some, List, [], ◌∷◌,
  map, ltb, leb, find, find→Memᴰ,
}
use py_app_runner.Prelude.Int.{pos}
use py_app_runner.Queue.Job.{Job}
use py_app_runner.Queue.Pg.Push.{PushArgs, key_of, queue_of}
use py_app_runner.Queue.Redis.Store.{
  Entry, Store, Redis, hset, set_unique, is_due_for, due_before, insert_due, zrem_delayed,
  zadd_delayed, insert_level, zadd_level, sadd_queue, xadd, in_stream, drop_entry, deliver,
  zrem_failed, failed_before, insert_failed, zadd_failed, add_ready,
}
use py_app_runner.Queue.Redis.Push.{
  text_of, holder, holder_alive, hash_at, new_hash, take_key, enqueue, store_job, unless_held,
  push_script, push_encoded, push,
}
use py_app_runner.Queue.Redis.Completion.{
  holds, held, freed_key, buried, complete_held, release_held, fail_held, fail_raw, delete, release,
  fail,
}
use py_app_runner.Queue.Redis.Reserve.{
  Call, due_ids, promote_hash, promote_one, promote, or_unread, next_entry, park, bury,
  claimed_hash, on_hash, on_entry, round, on_turn, rounds, or_lower, walk, reserve_script, job_of,
  on_payload, on_result, reserve_from,
}
use py_app_runner.Queue.Redis.Kept.Places.{IsWhole, IsRedis}
use py_app_runner.Queue.Redis.Kept.Runs.{
  no_keys, with_answer, Runs, started, pushed, reserved, answered, deleted, Runs-IsWhole,
}
use py_app_runner.Queue.Redis.Handed.{IsHandedOut, reserve_from-IsHandedOut}
use py_app_runner.Queue.Redis.Stale.{here, released, stale_claims}
use py_app_runner.Queue.Redis.Unique.{second_push}

ticks : ℕ → String
ticks zero = ""
ticks (suc n) = char "i" (ticks n)

size : String → ℕ
size end = 0
size (char c s) = suc (size s)

size-ticks : (n : ℕ) → size (ticks n) ≡ n
unfolding ticks size
size-ticks zero = refl
size-ticks (suc n) = ap suc (size-ticks n)

-- the first entry that was delivered that long ago
abbrev first_idle : ℕ → ℕ → List Entry → Option Entry
first_idle ms idle = find (λ e. elim e.delivered [ none ↦ false | some at ↦ leb (at + idle) ms ])

abbrev server : Redis
unfolding ticks
server = record { entry_id = ticks; autoclaim = first_idle; member_before = ltb }

server-IsRedis : IsRedis server
unfolding server ticks
server-IsRedis = record {
  entry_ids = λ a b e. sym (size-ticks a) ∙ ap size e ∙ size-ticks b;
  autoclaimed = λ ms idle stream e found. find→Memᴰ _ stream found;
}

abbrev mail : PushArgs String
mail = record {
  name = "mail";
  payload = some "hello";
  delay = pos 0;
  queue = "";
  priority = pos 0;
  unique = some "once";
  max_attempts = pos 2;
}

abbrev dumps : String → Option String
dumps text = some text

abbrev alone : Store → Store
alone s = s

abbrev call_by : String → ℕ → Call
call_by worker now = record {
  queue = "default";
  now = now;
  ms = now * 1000;
  timeout = 60;
  worker = worker;
  failed_at = "later";
}

-- Everything that a run of the driver calls.
program : Unit {0}
unfolding push push_encoded push_script unless_held store_job enqueue take_key new_hash text_of
    holder hash_at holder_alive key_of queue_of reserve_from on_result on_payload job_of
    reserve_script walk or_lower rounds on_turn round on_entry on_hash claimed_hash bury park
    next_entry or_unread promote promote_one promote_hash due_ids hset set_unique insert_due
    due_before zrem_delayed is_due_for zadd_delayed insert_level zadd_level sadd_queue xadd
    in_stream drop_entry deliver zrem_failed failed_before insert_failed zadd_failed add_ready
    freed_key buried fail_raw held holds complete_held release_held fail_held delete release fail
    ticks
program = tt

abbrev stored : Store
stored = (push "" dumps server 5 "then" mail no_keys).1

abbrev taken : Store
taken = (reserve_from some server (call_by "host:1" 10) alone stored).1

abbrev first_job : Job String
first_job = record {
  id = 1;
  queue = "default";
  name = "mail";
  payload = "hello";
  payload_json = "hello";
  attempts = 1;
  max_attempts = 2;
  handle = "";
  reserved_by = "host:1";
  release_request = none;
}

push-mail : (push "" dumps server 5 "then" mail no_keys).0 ≡ some 1
unfolding program
push-mail = refl

reserve_from-mail :
    reserve_from some server (call_by "host:1" 10) alone stored ≡ (some first_job, taken)
unfolding program
reserve_from-mail = refl

-- Too early for another worker, and then the second attempt.
reserve_from-running : (reserve_from some server (call_by "host:2" 60) alone taken).0 ≡ none
unfolding program
reserve_from-running = refl

abbrev retaken : Store
retaken = (reserve_from some server (call_by "host:2" 80) alone taken).1

abbrev second_job : Job String
second_job = record first_job { attempts = 2; reserved_by = "host:2" }

reserve_from-retaken :
    reserve_from some server (call_by "host:2" 80) alone taken ≡ (some second_job, retaken)
unfolding program
reserve_from-retaken = refl

-- A third attempt fails the job.
reserve_from-exhausted :
    ((reserve_from some server (call_by "host:3" 150) alone retaken).0 ≡ none)
    × (map (λ f. f.id) (reserve_from some server (call_by "host:3" 150) alone retaken).1.failed
        ≡ 1 ∷ [])
unfolding program
reserve_from-exhausted = (refl, refl)

-- A worker with a shorter timeout parks the running claim, and the holder then fails the job: it is
-- among the failed jobs, and is still handed out once more.
abbrev parked : Store
parked = (reserve_from some server (record (call_by "host:2" 20) { timeout = 5 }) alone taken).1

abbrev failed_parked : Store
failed_parked = (fail server 30 "then" first_job "wrong" parked).1

failed_again :
    (map (λ f. f.id) failed_parked.failed ≡ 1 ∷ [])
    × ((reserve_from some server (call_by "host:2" 80) alone failed_parked).0
        ≡ some (record second_job { handle = server.entry_id 1 }))
unfolding program
failed_again = (refl, refl)

reserve_from-IsHandedOut_example : IsHandedOut some (call_by "host:1" 10) stored taken first_job
reserve_from-IsHandedOut_example =
    reserve_from-IsHandedOut some server (call_by "host:1" 10) alone stored first_job taken
      reserve_from-mail

-- The second attempt was released meanwhile.
stale_claims_example :
    (delete server first_job (release server 81 second_job (pos 5) "wrong" retaken).1
      ≡ (false, (release server 81 second_job (pos 5) "wrong" retaken).1))
    × (release server 90 first_job
          (pos 5)
          "late"
          (release server 81 second_job (pos 5) "wrong" retaken).1
        ≡ (false, (release server 81 second_job (pos 5) "wrong" retaken).1))
    × (fail server 90 "then" first_job "late"
          (release server 81 second_job (pos 5) "wrong" retaken).1
        ≡ (false, (release server 81 second_job (pos 5) "wrong" retaken).1))
stale_claims_example =
    stale_claims "" dumps some server (call_by "host:1" 10) (call_by "host:2" 80) alone alone stored
      taken taken retaken (release server 81 second_job (pos 5) "wrong" retaken).1 first_job
      second_job 90 (pos 5) "then" "late" reserve_from-mail here reserve_from-retaken refl
      (released here 81 second_job (pos 5) "wrong")

second_push_example : push "" dumps server 7 "later" mail stored ≡ (some 1, stored)
second_push_example =
    second_push "" dumps server 5 7 "then" "later" mail mail "once" "hello" no_keys stored 1 keyed
      keyed pushed_mail refl
  where
    keyed : key_of (some "once") ≡ some "once"
    keyed = unfold key_of in refl

    pushed_mail : push "" dumps server 5 "then" mail no_keys ≡ (some 1, stored)
    pushed_mail = unfold program in refl

-- Pushed, handed out, made a job, and deleted.
whole_run :
    Runs "" dumps some server
      (delete server first_job taken).1
      (with_answer (call_by "host:1" 10) (reserve_script server (call_by "host:1" 10) stored).0 [])
      (first_job ∷ [])
unfolding program
whole_run =
    deleted
      (answered (reserved (pushed started 5 "then" mail) (call_by "host:1" 10)) _ (Memᴰ.head refl))
      first_job (Memᴰ.head refl)

Runs-IsWhole_example : IsWhole (delete server first_job taken).1
Runs-IsWhole_example = Runs-IsWhole "" dumps some server server-IsRedis whole_run
