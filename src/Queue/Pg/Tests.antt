-- ===== src/Queue/Pg/Tests.antt =====
-- The database driver on small tables, and the theorems at them. A payload is its own JSON here.
use py_app_runner.Prelude.{
  ℕ, String, ◌≡◌, refl, ◌⊎◌, Bool, true, false, Option, none, some, List, [], ◌∷◌, arith, str_eq,
  if◌then◌else◌, find,
}
use py_app_runner.Prelude.Int.{ℤ, pos}
use py_app_runner.Queue.Job.{Job}
use py_app_runner.Queue.Pg.Tables.{
  Row, Db, claimable, has_key, update_where, better, first_by, precedes,
}
use py_app_runner.Queue.Pg.Push.{
  PushArgs, PushEnv, PushResult, queued, raised_transaction, key_of, push,
}
use py_app_runner.Queue.Pg.Completion.{holds, delete, release, fail}
use py_app_runner.Queue.Pg.Reserve.{
  Round, claimed, claim, read, attempt, reserve, reserve_from, rounds_from, on_candidate, on_claim,
  on_read, on_decoded, on_outcome, or_next, candidate, to_job, take_chars,
}
use py_app_runner.Queue.Pg.WellFormed.{IsWellFormed}
use py_app_runner.Queue.Pg.WellFormed.Push.{push-IsWellFormed}
use py_app_runner.Queue.Pg.WellFormed.Reserve.{IsFair, reserve-IsWellFormed}
use py_app_runner.Queue.Pg.Claims.{here}
use py_app_runner.Queue.Pg.Exclusive.{claim_exclusive, taken_over}
use py_app_runner.Queue.Pg.Conserved.{IsMoved, fail-conserved}
use py_app_runner.Queue.Pg.Handed.{IsHandedOut, attempt-IsHandedOut}
use py_app_runner.Queue.Pg.Unique.{push_again}

abbrev nothing : Db
nothing = record { jobs = []; failed = []; next_id = 1; next_failed_id = 1 }

abbrev loads : String → Option String
loads text = if str_eq text "bad" then none else some text

abbrev quiet : ℕ → PushEnv
quiet now = record {
  moment = now;
  in_transaction = false;
  before_insert = λ db. db;
  after_refusal = λ db. db;
}

abbrev calm : ℕ → Round
calm now = record {
  moment = now;
  locked = λ id. false;
  before = λ db. db;
  meanwhile = λ db. db;
  after = λ db. db;
  failed_at = now;
}

abbrev mail : PushArgs String
mail = record {
  name = "mail";
  payload = some "hello";
  delay = pos 0;
  queue = "";
  priority = pos 0;
  unique = some "once";
  max_attempts = pos 2;
}

abbrev urgent : PushArgs String
urgent = record mail { name = "urgent"; priority = pos 5; unique = none }

-- Everything that a run of the driver calls.
program : Unit {0}
unfolding push reserve reserve_from rounds_from attempt on_candidate on_claim on_read on_decoded
    on_outcome or_next candidate claim read to_job delete release fail better first_by precedes
    update_where take_chars has_key
program = tt

abbrev mail_row : Row
mail_row = record {
  id = 1;
  queue = "default";
  name = "mail";
  payload = "hello";
  attempts = 0;
  max_attempts = 2;
  priority = pos 0;
  unique_key = some "once";
  available_at = 10;
  reserved_until = none;
  reserved_by = none;
  last_error = "";
  created_at = 10;
}

abbrev one_job : Db
one_job = record nothing { jobs = mail_row ∷ []; next_id = 2 }

abbrev two_jobs : Db
two_jobs = record nothing {
  jobs =
      mail_row
      ∷ record mail_row {
        id = 2;
        name = "urgent";
        priority = pos 5;
        unique_key = none;
        available_at = 11;
        created_at = 11;
      }
      ∷ [];
  next_id = 3;
}

push-mail : push "{}" some (quiet 10) mail nothing ≡ (queued 1, one_job)
unfolding program
push-mail = refl

push-urgent : push "{}" some (quiet 11) urgent one_job ≡ (queued 2, two_jobs)
unfolding program
push-urgent = refl

-- A lost race for the key inside a transaction that the caller has open.
push_race : (in_transaction : Bool) → PushResult
push_race in_transaction =
    let env = record (quiet 10) {
      in_transaction = in_transaction;
      before_insert = λ db. one_job;
    } in
    (push "{}" some env mail nothing).0

push_race_lost : (push_race false ≡ queued 1) × (push_race true ≡ raised_transaction)
unfolding program push_race
push_race_lost = (refl, refl)

reserved_name : List String → Option String
reserved_name queues = elim (reserve loads (λ i j. calm 20) queues (pos 60) "host:1" two_jobs).0 [
  | none ↦ none
  | some job ↦ some job.name
]

-- The job of the higher priority goes first.
reserve_order : reserved_name ("other" ∷ "default" ∷ []) ≡ some "urgent"
unfolding program reserved_name
reserve_order = refl

two_jobs-IsWellFormed : IsWellFormed two_jobs
two_jobs-IsWellFormed = record {
  sound = omega arith;
  apart = ((record { ids = omega arith; keys = tt }, tt), (tt, tt));
  failed_numbered = tt;
  failed_apart = tt;
}

calm-IsFair : (queue : String) (now : ℕ) → IsFair queue (calm now)
calm-IsFair queue now = record {
  before = λ db wf. wf;
  meanwhile = λ db wf. wf;
  after = λ db wf. wf;
  keeps_locked = λ db id spent e. refl;
}

push-IsWellFormed_example : IsWellFormed (push "{}" some (quiet 12) mail two_jobs).1
push-IsWellFormed_example =
    push-IsWellFormed "{}" some (quiet 12) mail two_jobs
      (record { before_insert = λ db wf. wf; after_refusal = λ db wf. wf }) two_jobs-IsWellFormed

reserve-IsWellFormed_example :
    IsWellFormed (reserve loads (λ i j. calm 20) ("default" ∷ []) (pos 60) "host:1" two_jobs).1
reserve-IsWellFormed_example =
    reserve-IsWellFormed loads (pos 60) "host:1" (λ i j. calm 20) ("default" ∷ []) two_jobs
      (λ i j queue. calm-IsFair queue 20) two_jobs-IsWellFormed

push_again_example : push "{}" some (quiet 30) mail one_job ≡ (queued 1, one_job)
unfolding key_of
push_again_example =
    push_again "{}" some (quiet 10) (quiet 30) mail mail "once" nothing one_job 1 refl refl
      push-mail

abbrev claimed_once : Db
claimed_once = (claim 1 80 "host:1" 20 two_jobs).1

claim_exclusive_example : claim 1 90 "host:2" 30 claimed_once ≡ (false, claimed_once)
unfolding read claimable
claim_exclusive_example =
    claim_exclusive {Payload = String} 1 80 "host:1" 20 two_jobs mail_row two_jobs-IsWellFormed refl
      refl claimed_once here 90 "host:2" 30 (omega arith)

abbrev expired_row : Row
expired_row = record mail_row {
  attempts = 1;
  reserved_until = some 15;
  reserved_by = some "host:0";
}

abbrev one_expired : Db
one_expired = record nothing { jobs = expired_row ∷ []; next_id = 2 }

one_expired-IsWellFormed : IsWellFormed one_expired
one_expired-IsWellFormed = record {
  sound = omega arith;
  apart = (tt, tt);
  failed_numbered = tt;
  failed_apart = tt;
}

abbrev first_job : Job String
first_job = record {
  id = 1;
  queue = "default";
  name = "mail";
  payload = "hello";
  payload_json = "hello";
  attempts = 1;
  max_attempts = 2;
  handle = "";
  reserved_by = "host:0";
  release_request = none;
}

abbrev retaken : Db
retaken = (claim 1 80 "host:1" 20 one_expired).1

taken_over_example :
    (delete first_job retaken ≡ (false, retaken))
    × ((now : ℕ) (delay : ℤ) (error : String)
        → release now first_job delay error retaken ≡ (false, retaken))
    × ((now : ℕ) (error : String) → fail now first_job error retaken ≡ (false, retaken))
unfolding read claimable
taken_over_example =
    taken_over 1 80 "host:1" 20 one_expired expired_row one_expired-IsWellFormed refl refl retaken
      here first_job refl (omega arith)

abbrev second_job : Job String
second_job = record first_job { attempts = 2; reserved_by = "host:1" }

abbrev after_attempt : Db
after_attempt = record one_expired {
  jobs =
      record expired_row { attempts = 2; reserved_until = some 80; reserved_by = some "host:1" }
      ∷ [];
}

attempt_retakes :
    attempt loads (calm 20) "default" (pos 60) "host:1" one_expired
    ≡ (claimed second_job, after_attempt)
unfolding program
attempt_retakes = refl

attempt-IsHandedOut_example :
    IsHandedOut loads (calm 20) "default" (pos 60) "host:1" one_expired after_attempt second_job
attempt-IsHandedOut_example =
    attempt-IsHandedOut loads (calm 20) "default" (pos 60) "host:1" one_expired after_attempt
      second_job (calm-IsFair "default" 20) one_expired-IsWellFormed attempt_retakes

after_attempt-IsWellFormed : IsWellFormed after_attempt
after_attempt-IsWellFormed = record {
  sound = omega arith;
  apart = (tt, tt);
  failed_numbered = tt;
  failed_apart = tt;
}

-- The second attempt was the last: the row of the job moves.
fail-conserved_example :
    ((fail 20 second_job "boom" after_attempt ≡ (false, after_attempt))
      × (find (holds second_job) after_attempt.jobs ≡ none))
    ⊎ (((fail 20 second_job "boom" after_attempt).0 ≡ true)
        × IsMoved second_job.reserved_by second_job.attempts second_job.id 20 "boom" after_attempt
            (fail 20 second_job "boom" after_attempt).1)
fail-conserved_example =
    fail-conserved 20 second_job "boom" after_attempt after_attempt-IsWellFormed
