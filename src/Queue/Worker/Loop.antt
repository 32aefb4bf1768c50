-- ===== src/Queue/Worker/Loop.antt =====
-- `Worker.run`, `run_next`, `_run_job`, `_job_failed`, `_safe_release` and `_limit_reached`.
use py_app_runner.Prelude.{
  ℕ, zero, suc, ◌+◌, String, Bool, true, false, ◌&&◌, ◌||◌, ltb, leb, if◌then◌else◌,
}
use py_app_runner.Queue.Job.{Job, was_released, release_delay, is_last_attempt}
use py_app_runner.Queue.Worker.Backoff.{Steps, backoff}

-- What `queue.reserve` comes back with: an exception, a cancellation, None or a job.
pub data Reserved (Payload : Type 0) : Type 0 where
  unreadable interrupted nothing : Reserved Payload
  taken : Job Payload → Reserved Payload

-- How a call ends: it returns, or an exception leaves it.
pub data Ending : Type 0 where
  returns raises : Ending

-- How the handler ends: with a return, with an exception that the worker turns into a failed
-- attempt (a name that does not resolve and a timeout included), or cancelled from outside.
pub data Handled : Type 0 where
  finished cancelled : Handled
  failed : String → Handled

-- The queue, the handlers, the clock and the signals, over a state of the world. `handle` resolves
-- the job's name and runs the handler, and gives the job back as the handler left it.
pub record World (S Payload : Type 0) : Type 0 where
  pub reserve : S → Reserved Payload × S
  pub handle : Job Payload → S → Handled × Job Payload × S
  pub delete : Job Payload → S → Ending × S
  pub release : Job Payload → ℕ → String → S → Ending × S
  pub fail : Job Payload → String → S → Ending × S
  pub should_quit : S → Bool
  pub elapsed : S → ℕ
  pub rest : S → S

pub record Limits : Type 0 where
  pub max_jobs : ℕ
  pub max_time : ℕ
  pub stop_when_empty : Bool

-- How `run` ends: with an exit code and the jobs done, by an exception, or not yet.
pub data RunEnd : Type 0 where
  exited : ℕ → ℕ → RunEnd
  left : ℕ → RunEnd
  running : RunEnd

-- One turn of the loop: it ends, or goes on with the jobs done, the failures in a row and the state.
pub data Turn (S : Type 0) : Type 0 where
  stop : RunEnd → Turn S
  again : ℕ → ℕ → S → Turn S

abbrev pub max_consecutive_failures : ℕ
max_consecutive_failures = 5

module _ {S Payload : Type 0} (w : World S Payload) (steps : Steps) where
  unfoldable pub job_failed : Job Payload → String → S → Ending × S
  unfolding is_last_attempt
  job_failed job detail s =
      if is_last_attempt job
      then w.fail job detail s
      else w.release job (backoff job.attempts steps) detail s

  -- what follows the handler in `_run_job`
  unfoldable pub after_handler : Handled → Job Payload → S → Ending × S
  unfolding job_failed was_released release_delay
  after_handler cancelled job s = (raises, (w.release job 0 "Worker was cancelled mid-job" s).1)
  after_handler (failed detail) job s = job_failed job detail s
  after_handler finished job s =
      if was_released job then w.release job (release_delay job) "" s else w.delete job s

  unfoldable pub run_job : Job Payload → S → Ending × S
  unfolding after_handler
  run_job job s = let (h, job', s') = w.handle job s in after_handler h job' s'

  -- what `run_next` makes of a reserve: how it ends, and whether there was a job
  unfoldable pub next_of : Reserved Payload × S → Ending × Bool × S
  next_of (unreadable, s) = (raises, false, s)
  next_of (interrupted, s) = (raises, false, s)
  next_of (nothing, s) = (returns, false, s)
  next_of (taken job, s) = let (ending, s') = run_job job s in (ending, true, s')

  unfoldable pub run_next : S → Ending × Bool × S
  run_next s = next_of (w.reserve s)

  -- true where the loop is told to stop
  unfoldable pub limit_reached : Limits → ℕ → S → Bool
  limit_reached limits done s =
      ltb 0 limits.max_jobs && leb limits.max_jobs done
      || ltb 0 limits.max_time && leb limits.max_time (w.elapsed s)

  unfoldable pub after_job : Limits → ℕ → Ending × S → Turn S
  after_job limits done (raises, s) = stop (left done)
  after_job limits done (returns, s) =
      if limit_reached limits (done + 1) s then stop (exited 0 (done + 1)) else again (done + 1) 0 s

  unfoldable pub after_reserve : Limits → ℕ → ℕ → Reserved Payload × S → Turn S
  after_reserve limits done failures (unreadable, s) =
      if leb max_consecutive_failures (failures + 1)
      then stop (exited 1 done)
      else again done (failures + 1) (w.rest s)
  after_reserve limits done failures (interrupted, s) = stop (left done)
  after_reserve limits done failures (nothing, s) =
      if limits.stop_when_empty || limit_reached limits done s
      then stop (exited 0 done)
      else again done 0 (w.rest s)
  after_reserve limits done failures (taken job, s) = after_job limits done (run_job job s)

  unfoldable pub turn : Limits → ℕ → ℕ → S → Turn S
  turn limits done failures s =
      if w.should_quit s
      then stop (exited 0 done)
      else after_reserve limits done failures (w.reserve s)

  unfoldable pub and_then : (ℕ → ℕ → S → RunEnd) → Turn S → RunEnd
  and_then rest (stop end) = end
  and_then rest (again done failures s) = rest done failures s

  -- `while True`, for a number of turns
  unfoldable pub run_from : ℕ → Limits → ℕ → ℕ → S → RunEnd
  run_from zero limits done failures s = running
  run_from (suc fuel) limits done failures s =
      and_then (run_from fuel limits) (turn limits done failures s)

  unfoldable pub run : ℕ → Limits → S → RunEnd
  run fuel limits s = run_from fuel limits 0 0 s
