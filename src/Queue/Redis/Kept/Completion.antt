-- ===== src/Queue/Redis/Kept/Completion.antt =====
-- `delete`, `release` and `fail` lose no job.
use py_app_runner.Prelude.{
  ℕ, ◌+◌, String, ◌≡◌, refl, inl, inr, true, Option, none, some, str_eq, if_both,
}
use py_app_runner.Prelude.Int.{ℤ, at_least}
use py_app_runner.Queue.Job.{Job}
use py_app_runner.Queue.Errors.{fit_error}
use py_app_runner.Queue.Redis.Store.{JobHash, Store, Redis, hset, zadd_delayed, drop_entry}
use py_app_runner.Queue.Redis.Completion.{
  buried_hash, released_hash, held, freed_key, buried, complete_held, release_held, fail_held,
  fail_raw, delete, release, fail,
}
use py_app_runner.Queue.Redis.Kept.Places.{has_place, IsHandle, IsRedis}
use py_app_runner.Queue.Redis.Kept.Commands.{
  zadd_failed-place, zadd_delayed_due, due_has_place, hset-jobs,
}
use py_app_runner.Queue.Redis.Kept.Moves.{
  Moves, Moves-trans, Moves-quiet, hset-Moves, set_unique-Moves, zadd_delayed-Moves,
  zadd_failed-Moves,
}
use py_app_runner.Queue.Redis.Kept.Streams.{drop_entry-Moves}
use py_app_runner.Queue.Redis.Kept.Push.{Keeping, Keeping-same, Moves-Keeping}

module _ (r : Redis) (law : IsRedis r) where
  pub freed_key-Moves : (id : ℕ) (hash : JobHash) (s : Store) → Moves r id s (freed_key hash s)
  unfolding freed_key
  freed_key-Moves id hash s =
      if_both (Moves r id s) (str_eq hash.unique_key "")
        (Moves-quiet r id refl refl refl (λ j h. h) refl)
        (set_unique-Moves r id hash.unique_key none s)

  pub buried-Moves :
      (id : ℕ) (hash : JobHash) (error : String) (now : ℕ) (failed_at : String) (s : Store)
      → Moves r id s (buried r id hash error now failed_at s)
  unfolding buried
  buried-Moves id hash error now failed_at s = Moves-trans r id (freed_key-Moves id hash s) (
      let hash' = some (buried_hash hash error failed_at) in
      let freed = freed_key hash s in
      Moves-trans r id (hset-Moves r id hash' freed)
        (zadd_failed-Moves r id now (hset id hash' freed)))

  pub buried-place :
      (id : ℕ) (hash : JobHash) (error : String) (now : ℕ) (failed_at : String) (s : Store)
      → has_place id (buried r id hash error now failed_at s) ≡ true
  unfolding buried
  buried-place id hash error now failed_at s =
      zadd_failed-place r now id
        (hset id (some (buried_hash hash error failed_at)) (freed_key hash s))

  complete_held-Keeping :
      (queue : String) (id : ℕ) (entry : String) (o : Option JobHash) (s : Store)
      → IsHandle r entry id s
      → Keeping r s (complete_held r queue id entry o s).1
  unfolding complete_held
  complete_held-Keeping queue id entry none s own = Keeping-same r law s
  complete_held-Keeping queue id entry (some hash) s own =
      let dropped = drop_entry r queue hash.priority entry s in
      let freed = freed_key hash dropped in
      Moves-Keeping r law id
        (Moves-trans r id (drop_entry-Moves r id queue hash.priority entry s own)
          (Moves-trans r id (freed_key-Moves id hash dropped) (hset-Moves r id none freed)))
        (inr (hset-jobs id none freed))

  release_held-Keeping :
      (queue : String) (id : ℕ) (entry : String) (available_at : ℕ) (error : String)
      (o : Option JobHash) (s : Store)
      → IsHandle r entry id s
      → Keeping r s (release_held r queue id entry available_at error o s).1
  unfolding release_held
  release_held-Keeping queue id entry available_at error none s own = Keeping-same r law s
  release_held-Keeping queue id entry available_at error (some hash) s own =
      let delayed = zadd_delayed r queue available_at id s in
      let hash' = some (released_hash hash available_at error) in
      Moves-Keeping r law id
        (Moves-trans r id (zadd_delayed-Moves r id queue available_at s) (
          Moves-trans r id (hset-Moves r id hash' delayed) (
            drop_entry-Moves r id queue hash.priority entry (hset id hash' delayed)
              (unfold zadd_delayed hset in own))))
        (inl (
          due_has_place id (drop_entry r queue hash.priority entry (hset id hash' delayed))
            (unfold drop_entry hset in zadd_delayed_due r queue available_at id s)))

  fail_held-Keeping :
      (queue : String) (id : ℕ) (entry error : String) (now : ℕ) (failed_at : String)
      (o : Option JobHash) (s : Store)
      → IsHandle r entry id s
      → Keeping r s (fail_held r queue id entry error now failed_at o s).1
  unfolding fail_held
  fail_held-Keeping queue id entry error now failed_at none s own = Keeping-same r law s
  fail_held-Keeping queue id entry error now failed_at (some hash) s own =
      Moves-Keeping r law id
        (Moves-trans r id (drop_entry-Moves r id queue hash.priority entry s own)
          (buried-Moves id hash error now failed_at (drop_entry r queue hash.priority entry s)))
        (inl (buried-place id hash error now failed_at (drop_entry r queue hash.priority entry s)))

  pub fail_raw-Keeping :
      (id : ℕ) (queue entry reserved_by : String) (attempts : ℕ) (error : String) (now : ℕ)
      (failed_at : String) (s : Store)
      → IsHandle r entry id s
      → Keeping r s (fail_raw r id queue entry reserved_by attempts error now failed_at s).1
  unfolding fail_raw
  fail_raw-Keeping id queue entry reserved_by attempts error now failed_at s own =
      fail_held-Keeping queue id entry (fit_error error) now failed_at
        (held reserved_by attempts (s.jobs id)) s own

  module _ {Payload : Type 0} (job : Job Payload) (s : Store)
      (own : IsHandle r job.handle job.id s) where
    pub delete-Keeping : Keeping r s (delete r job s).1
    unfolding delete
    delete-Keeping =
        complete_held-Keeping job.queue job.id job.handle
          (held job.reserved_by job.attempts (s.jobs job.id)) s own

    pub release-Keeping :
        (now : ℕ) (delay : ℤ) (error : String) → Keeping r s (release r now job delay error s).1
    unfolding release
    release-Keeping now delay error =
        release_held-Keeping job.queue job.id job.handle (now + at_least 0 delay) (fit_error error)
          (held job.reserved_by job.attempts (s.jobs job.id)) s own

    pub fail-Keeping :
        (now : ℕ) (failed_at error : String) → Keeping r s (fail r now failed_at job error s).1
    unfolding fail
    fail-Keeping now failed_at error =
        fail_raw-Keeping job.id job.queue job.handle job.reserved_by job.attempts error now
          failed_at s own
