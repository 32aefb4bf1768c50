-- ===== src/Cron/Commands.antt =====
-- cron/commands.py: `select_due` and the exit code of `cmd_run`.
use py_app_runner.Prelude.{
  ℕ, String, Bool, true, false, Option, none, some, List, [], ◌∷◌, str_eq, if◌then◌else◌, filter,
  any,
}
use py_app_runner.Cron.Execute.{Status, ok_run, failed_run, timeout_run, skipped_run, Outcome}

-- `is_due` is the answer of the cron expression for the minute.
pub record Job : Type 0 where
  pub name : String
  pub is_due : ℕ → Bool

unfoldable pub select_due : List Job → ℕ → Option String → List Job
select_due jobs minute (some only) = filter (λ job. str_eq job.name only) jobs
select_due jobs minute none = filter (λ job. job.is_due minute) jobs

-- o.status in ("failed", "timeout")
unfoldable pub is_bad : Status → Bool
is_bad ok_run = false
is_bad failed_run = true
is_bad timeout_run = true
is_bad skipped_run = false

unfoldable pub exit_code : List Outcome → ℕ
unfolding is_bad
exit_code outcomes = if any (λ o. is_bad o.status) outcomes then 1 else 0

-- `outcomes` are what the executor answers for the jobs.
unfoldable pub cmd_run : List Job → (List Job → List Outcome) → Bool → ℕ
unfolding exit_code
cmd_run [] run dry_run = 0
cmd_run (job ∷ jobs) run dry_run = if dry_run then 0 else exit_code (run (job ∷ jobs))
