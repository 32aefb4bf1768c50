-- ===== src/Cron/Tests.antt =====
-- Two ticks of the scheduler that meet, and the theorem at them.
use py_app_runner.Prelude.{ℕ, String, ◌≡◌, refl, true, false, none, some, List, [], ◌∷◌, ◌==◌}
use py_app_runner.Prelude.Int.{pos}
use py_app_runner.Cron.Execute.{
  ok_run, skipped_run, timeout_run, is_held, acquire, release, ended, Os, on_lock, spawned,
  outcome_of, advance, at_run, take_step, take_steps, all_waiting,
}
use py_app_runner.Cron.Commands.{Job, is_bad, exit_code, cmd_run}
use py_app_runner.Cron.Overlap.{IsExclusive, take_steps-IsExclusive}

abbrev good : Os
good = record { starts = true; outlasts = false; returncode = pos 0 }

abbrev reports : ℕ → String
reports i = "report"

-- The second run meets the first, which then ends.
abbrev meeting : List (ℕ × Os)
meeting = (0, good) ∷ (0, good) ∷ (1, good) ∷ (0, good) ∷ (0, good) ∷ []

steps_meet :
    ((take_steps reports meeting all_waiting).held ≡ [])
    × ((take_steps reports meeting all_waiting).phase 0
        ≡ ended (record { job = "report"; status = ok_run; returncode = some (pos 0) }))
    × ((take_steps reports meeting all_waiting).phase 1
        ≡ ended (record { job = "report"; status = skipped_run; returncode = none }))
unfolding take_steps take_step advance on_lock acquire is_held release spawned outcome_of at_run
steps_meet = (refl, refl, refl)

take_steps-IsExclusive_example : IsExclusive reports (take_steps reports meeting all_waiting)
take_steps-IsExclusive_example = take_steps-IsExclusive reports meeting

abbrev job_named : String → Job
job_named name = record { name = name; is_due = λ minute. minute == 5 }

-- A run that is skipped is no failure, and one that is killed is.
codes :
    (cmd_run
        (job_named "report" ∷ [])
        (λ jobs. record { job = "report"; status = skipped_run; returncode = none } ∷ [])
        false
      ≡ 0)
    × (cmd_run
          (job_named "report" ∷ [])
          (λ jobs. record { job = "report"; status = timeout_run; returncode = none } ∷ [])
          false
        ≡ 1)
unfolding cmd_run exit_code is_bad
codes = (refl, refl)
