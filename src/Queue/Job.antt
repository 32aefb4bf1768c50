-- ===== src/Queue/Job.antt =====
-- src/py_app_runner/queue/job.py: the job as a handler sees it.
use py_app_runner.Prelude.{ℕ, String, Bool, true, false, Option, none, some, leb}
use py_app_runner.Prelude.Int.{ℤ, at_least}

-- `_release_delay` is `release_request` here: none until the handler calls `release`.
pub record Job (Payload : Type 0) : Type 0 where
  pub id : ℕ
  pub queue : String
  pub name : String
  pub payload : Payload
  pub payload_json : String
  pub attempts : ℕ
  pub max_attempts : ℕ
  pub handle : String
  pub reserved_by : String
  pub release_request : Option ℕ

module _ {Payload : Type 0} where
  unfoldable pub release : Job Payload → ℤ → Job Payload
  release job delay = record job { release_request = some (at_least 0 delay) }

  unfoldable pub was_released : Job Payload → Bool
  was_released job = elim job.release_request [ none ↦ false | some _ ↦ true ]

  unfoldable pub release_delay : Job Payload → ℕ
  release_delay job = elim job.release_request [ none ↦ 0 | some delay ↦ delay ]

  unfoldable pub is_last_attempt : Job Payload → Bool
  is_last_attempt job = leb job.max_attempts job.attempts
