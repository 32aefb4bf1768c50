-- ===== src/Queue/Worker/Tests.antt =====
-- The worker on concrete queues: one that counts its jobs down, and one that cannot be read.
use py_app_runner.Prelude.{
  ℕ, zero, suc, ◌+◌, ◌≤◌, ◌<◌, String, ◌≡◌, refl, ap, subst, true, false, none, List, [], ◌∷◌,
  arith, if_both,
}
use py_app_runner.Prelude.Int.{pos}
use py_app_runner.Queue.Job.{Job, was_released, is_last_attempt}
use py_app_runner.Queue.Worker.Backoff.{unset, backoff, pick, listed}
use py_app_runner.Queue.Worker.Loop.{
  World, Limits, Reserved, unreadable, nothing, taken, finished, failed, Ending, returns,
  job_failed, exited, run, run_from, and_then, turn, after_reserve, after_job, run_job,
  after_handler, limit_reached,
}
use py_app_runner.Queue.Worker.Exit.{run-GaveUp, GaveUp}
use py_app_runner.Queue.Worker.MaxJobs.{jobs_from, run-max_jobs}
use py_app_runner.Queue.Worker.Drains.{IsDraining, IsEnded, run-IsEnded}

abbrev some_job : Job String
some_job = record {
  id = 1;
  queue = "default";
  name = "mail";
  payload = "{}";
  payload_json = "{}";
  attempts = 1;
  max_attempts = 3;
  handle = "h";
  reserved_by = "w";
  release_request = none;
}

abbrev reserve_one : ℕ → Reserved String × ℕ
reserve_one zero = (nothing, zero)
reserve_one (suc n) = (taken some_job, n)

abbrev counting : World ℕ String
counting = record {
  reserve = reserve_one;
  handle = λ job n. (finished, job, n);
  delete = λ job n. (returns, n);
  release = λ job delay error n. (returns, n);
  fail = λ job error n. (returns, n);
  should_quit = λ n. false;
  elapsed = λ n. 0;
  rest = λ n. n;
}

abbrev broken : World ℕ String
broken = record counting { reserve = λ n. (unreadable, n) }

abbrev limits : Limits
limits = record { max_jobs = 2; max_time = 0; stop_when_empty = true }

three_jobs : run counting unset 5 limits 3 ≡ exited 0 2
unfolding run run_from and_then turn after_reserve after_job run_job after_handler limit_reached
    was_released
three_jobs = refl

five_failures : run broken unset 5 limits 0 ≡ exited 1 0
unfolding run run_from and_then turn after_reserve limit_reached
five_failures = refl

third_delay : backoff 7 unset ≡ 300
unfolding backoff pick
third_delay = refl

run-GaveUp_example : GaveUp broken unset limits 0 0
run-GaveUp_example = run-GaveUp broken unset limits 5 0 0 five_failures

run-max_jobs_example : jobs_from counting unset limits 5 0 0 3 ≤ 2
run-max_jobs_example = run-max_jobs counting unset limits 5 3 (omega arith)

-- Jobs by the attempts that they have left. Every attempt fails; a job without any cannot be read.
abbrev tried : ℕ → Job String
tried left = record some_job { max_attempts = left + 1 }

abbrev reserve_first : List ℕ → Reserved String × List ℕ
reserve_first [] = (nothing, [])
reserve_first (zero ∷ rest) = (unreadable, rest)
reserve_first (suc left ∷ rest) = (taken (tried left), left ∷ rest)

abbrev without_first : List ℕ → List ℕ
without_first [] = []
without_first (left ∷ rest) = rest

abbrev retrying : World (List ℕ) String
retrying = record {
  reserve = reserve_first;
  handle = λ job lefts. (failed "wrong", job, lefts);
  delete = λ job lefts. (returns, without_first lefts);
  release = λ job delay error lefts. (returns, lefts);
  fail = λ job error lefts. (returns, without_first lefts);
  should_quit = λ lefts. false;
  elapsed = λ lefts. 0;
  rest = λ lefts. lefts;
}

abbrev attempts_left : List ℕ → ℕ
attempts_left [] = 0
attempts_left (left ∷ rest) = left + attempts_left rest

without_first-fewer : (lefts : List ℕ) → attempts_left (without_first lefts) ≤ attempts_left lefts
without_first-fewer [] = omega arith
without_first-fewer (left ∷ rest) = omega arith

run_job-fewer :
    (job : Job String) (lefts : List ℕ)
    → attempts_left (run_job retrying unset job lefts).1 ≤ attempts_left lefts
unfolding run_job after_handler job_failed
run_job-fewer job lefts =
    if_both (λ (x : Ending × List ℕ). attempts_left x.1 ≤ attempts_left lefts) (is_last_attempt job)
      (without_first-fewer lefts) (omega arith)

raised_fewer :
    (s v : List ℕ) → reserve_first s ≡ (unreadable, v) → attempts_left v ≤ attempts_left s
raised_fewer [] v e = absurd (cc (ap (λ x. x.0) e))
raised_fewer (zero ∷ rest) v e =
    omega (arith, subst (λ x. attempts_left x ≤ attempts_left rest) (ap (λ x. x.1) e) (omega arith))
raised_fewer (suc left ∷ rest) v e = absurd (cc (ap (λ x. x.0) e))

ran_fewer :
    (s v : List ℕ) (job : Job String)
    → reserve_first s ≡ (taken job, v)
    → attempts_left (run_job retrying unset job v).1 < attempts_left s
ran_fewer [] v job e = absurd (cc (ap (λ x. x.0) e))
ran_fewer (zero ∷ rest) v job e = absurd (cc (ap (λ x. x.0) e))
ran_fewer (suc left ∷ rest) v job e = omega (
  arith,
  run_job-fewer job v,
  subst (λ x. attempts_left x ≤ attempts_left (left ∷ rest)) (ap (λ x. x.1) e) (omega arith),
)

retrying-IsDraining : IsDraining retrying unset attempts_left
retrying-IsDraining = record { raised = raised_fewer; ran = ran_fewer }

abbrev until_empty : Limits
until_empty = record { max_jobs = 0; max_time = 0; stop_when_empty = true }

run-IsEnded_example :
    IsEnded (run retrying unset 26 until_empty (2 ∷ 0 ∷ 2 ∷ []))
    × (jobs_from retrying unset until_empty 26 0 0 (2 ∷ 0 ∷ 2 ∷ []) ≤ 4)
run-IsEnded_example =
    run-IsEnded retrying unset until_empty attempts_left (2 ∷ 0 ∷ 2 ∷ []) retrying-IsDraining refl

backoff-settled :
    (backoff 2 (listed (pos 10 ∷ pos 60 ∷ pos 300 ∷ [])) ≡ 60)
    × (backoff 5 (listed (pos 10 ∷ pos 60 ∷ [])) ≡ 60)
unfolding backoff pick
backoff-settled = (refl, refl)
