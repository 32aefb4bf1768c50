-- ===== src/Queue/Redis/Completion.antt =====
-- `_HELD`, `_COMPLETE`, `_RELEASE`, `_FAIL`, and `delete`, `release`, `fail` and `_fail_raw`. The Boolean
-- is the script's answer: where it is false the claim was stale, and the method only logs that.
use py_app_runner.Prelude.{
  ℕ, ◌+◌, String, Bool, true, false, ◌&&◌, Option, none, some, str_eq, ◌==◌, if◌then◌else◌,
}
use py_app_runner.Prelude.Int.{ℤ, at_least}
use py_app_runner.Queue.Job.{Job}
use py_app_runner.Queue.Errors.{fit_error}
use py_app_runner.Queue.Redis.Store.{
  JobHash, Store, Redis, hset, set_unique, zadd_delayed, drop_entry, zadd_failed,
}

unfoldable pub holds : String → ℕ → JobHash → Bool
holds reserved_by attempts hash = str_eq hash.reserved_by reserved_by && hash.attempts == attempts

-- The opening of the scripts: the hash, where it is held by that worker for that attempt.
unfoldable pub held : String → ℕ → Option JobHash → Option JobHash
held reserved_by attempts none = none
held reserved_by attempts (some hash) = if holds reserved_by attempts hash then some hash else none

-- DEL of the unique key that the hash names
unfoldable pub freed_key : JobHash → Store → Store
unfolding set_unique
freed_key hash s = if str_eq hash.unique_key "" then s else set_unique hash.unique_key none s

abbrev pub buried_hash : JobHash → String → String → JobHash
buried_hash hash error failed_at = record hash {
  unique_key = "";
  error = error;
  failed_at = failed_at;
  reserved_until = 0;
  reserved_by = "";
  entry = "";
}

-- The hash kept, with its error, among the failed jobs.
unfoldable pub buried : Redis → ℕ → JobHash → String → ℕ → String → Store → Store
unfolding freed_key hset zadd_failed
buried r id hash error now failed_at s =
    zadd_failed r now id (hset id (some (buried_hash hash error failed_at)) (freed_key hash s))

unfoldable pub complete_held : Redis → String → ℕ → String → Option JobHash → Store → Bool × Store
unfolding drop_entry freed_key hset
complete_held r queue id entry none s = (false, s)
complete_held r queue id entry (some hash) s =
    (true, hset id none (freed_key hash (drop_entry r queue hash.priority entry s)))

abbrev pub released_hash : JobHash → ℕ → String → JobHash
released_hash hash available_at error = record hash {
  available_at = available_at;
  reserved_until = 0;
  reserved_by = "";
  last_error = error;
  entry = "";
}

unfoldable pub release_held :
    Redis → String → ℕ → String → ℕ → String → Option JobHash → Store → Bool × Store
unfolding zadd_delayed hset drop_entry
release_held r queue id entry available_at error none s = (false, s)
release_held r queue id entry available_at error (some hash) s = (
  true,
  drop_entry r queue hash.priority entry (
      hset id (some (released_hash hash available_at error))
        (zadd_delayed r queue available_at id s)),
)

unfoldable pub fail_held :
    Redis → String → ℕ → String → String → ℕ → String → Option JobHash → Store → Bool × Store
unfolding drop_entry buried
fail_held r queue id entry error now failed_at none s = (false, s)
fail_held r queue id entry error now failed_at (some hash) s =
    (true, buried r id hash error now failed_at (drop_entry r queue hash.priority entry s))

unfoldable pub fail_raw :
    Redis → ℕ → String → String → String → ℕ → String → ℕ → String → Store → Bool × Store
unfolding held fail_held fit_error
fail_raw r id queue entry reserved_by attempts error now failed_at s =
    fail_held r queue id entry (fit_error error) now failed_at
      (held reserved_by attempts (s.jobs id)) s

module _ {Payload : Type 0} (r : Redis) where
  unfoldable pub delete : Job Payload → Store → Bool × Store
  unfolding held complete_held
  delete job s =
      complete_held r job.queue job.id job.handle
        (held job.reserved_by job.attempts (s.jobs job.id)) s

  unfoldable pub release : ℕ → Job Payload → ℤ → String → Store → Bool × Store
  unfolding held release_held fit_error
  release now job delay error s =
      release_held r job.queue job.id job.handle (now + at_least 0 delay) (fit_error error)
        (held job.reserved_by job.attempts (s.jobs job.id)) s

  unfoldable pub fail : ℕ → String → Job Payload → String → Store → Bool × Store
  unfolding fail_raw
  fail now failed_at job error s =
      fail_raw r job.id job.queue job.handle job.reserved_by job.attempts error now failed_at s
