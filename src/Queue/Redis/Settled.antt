-- ===== src/Queue/Redis/Settled.antt =====
-- The attempts that a hash counts, over `_COMPLETE`, `_RELEASE` and `_FAIL`.
use py_app_runner.Prelude.{
  ℕ, ◌≤◌, String, ◌≡◌, refl, sym, ap, ◌∙◌, subst, inl, inr, Option, none, some, Bool-cases,
}
use py_app_runner.Prelude.Int.{ℤ}
use py_app_runner.Queue.Job.{Job}
use py_app_runner.Queue.Redis.Store.{JobHash, Store, Redis, zadd_failed, zadd_delayed, drop_entry}
use py_app_runner.Queue.Redis.Completion.{
  freed_key, held, holds, buried, buried_hash, released_hash, complete_held, release_held,
  fail_held, fail_raw, delete, release,
}
use py_app_runner.Queue.Redis.Aged.{freed_key-jobs}
use py_app_runner.Queue.Redis.Attempts.{Counts, hset-Counts}

module _ (r : Redis) (n id : ℕ) where
  -- What the opening of a script finds is the hash itself.
  held-stored :
      (by : String) (attempts : ℕ) (o : Option JobHash) (hash : JobHash)
      → held by attempts o ≡ some hash
      → o ≡ some hash
  unfolding held
  held-stored by attempts none hash e = absurd (cc e)
  held-stored by attempts (some h) hash e = elim (Bool-cases (holds by attempts h)) [
    | inl q ↦ rw q at e
    | inr q ↦ absurd (cc (rw q at e))
  ]

  found-Counts :
      (j : ℕ) (hash : JobHash) (s : Store)
      → s.jobs j ≡ some hash
      → Counts n (s.jobs id)
      → j ≡ id
      → n ≤ hash.attempts
  found-Counts j hash s stood c same = subst (Counts n) (ap s.jobs (sym same) ∙ stood) c

  complete_held-Counts :
      (queue : String) (j : ℕ) (entry : String) (o : Option JobHash) (s : Store)
      → Counts n (s.jobs id)
      → Counts n ((complete_held r queue j entry o s).1.jobs id)
  unfolding complete_held
  complete_held-Counts queue j entry none s c = c
  complete_held-Counts queue j entry (some hash) s c =
      let dropped = drop_entry r queue hash.priority entry s in
      hset-Counts r n id j none (freed_key hash dropped) (λ e. tt)
        (subst (λ (f : ℕ → Option JobHash). Counts n (f id)) (sym (freed_key-jobs hash dropped))
          (unfold drop_entry in c))

  release_held-Counts :
      (queue : String) (j : ℕ) (entry : String) (available_at : ℕ) (error : String)
      (o : Option JobHash) (s : Store)
      → ((hash : JobHash) → o ≡ some hash → s.jobs j ≡ some hash)
      → Counts n (s.jobs id)
      → Counts n ((release_held r queue j entry available_at error o s).1.jobs id)
  unfolding release_held drop_entry
  release_held-Counts queue j entry available_at error none s k c = c
  release_held-Counts queue j entry available_at error (some hash) s k c =
      hset-Counts r n id j (some (released_hash hash available_at error))
        (zadd_delayed r queue available_at j s) (found-Counts j hash s (k hash refl) c)
        (unfold zadd_delayed in c)

  fail_held-Counts :
      (queue : String) (j : ℕ) (entry error : String) (now : ℕ) (failed_at : String)
      (o : Option JobHash) (s : Store)
      → ((hash : JobHash) → o ≡ some hash → s.jobs j ≡ some hash)
      → Counts n (s.jobs id)
      → Counts n ((fail_held r queue j entry error now failed_at o s).1.jobs id)
  unfolding fail_held buried zadd_failed
  fail_held-Counts queue j entry error now failed_at none s k c = c
  fail_held-Counts queue j entry error now failed_at (some hash) s k c =
      let dropped = drop_entry r queue hash.priority entry s in
      hset-Counts r n id j (some (buried_hash hash error failed_at)) (freed_key hash dropped)
        (found-Counts j hash s (k hash refl) c)
        (subst (λ (f : ℕ → Option JobHash). Counts n (f id)) (sym (freed_key-jobs hash dropped))
          (unfold drop_entry in c))

  pub delete-Counts :
      {Payload : Type 0} (job : Job Payload) (s : Store)
      → Counts n (s.jobs id)
      → Counts n ((delete r job s).1.jobs id)
  unfolding delete
  delete-Counts job s c = complete_held-Counts job.queue job.id job.handle _ s c

  pub release-Counts :
      {Payload : Type 0} (now : ℕ) (job : Job Payload) (delay : ℤ) (error : String) (s : Store)
      → Counts n (s.jobs id)
      → Counts n ((release r now job delay error s).1.jobs id)
  unfolding release
  release-Counts now job delay error s c =
      release_held-Counts job.queue job.id job.handle _ _ _ s
        (held-stored job.reserved_by job.attempts (s.jobs job.id)) c

  pub fail_raw-Counts :
      (j : ℕ) (queue entry by : String) (attempts : ℕ) (error : String) (now : ℕ)
      (failed_at : String) (s : Store)
      → Counts n (s.jobs id)
      → Counts n ((fail_raw r j queue entry by attempts error now failed_at s).1.jobs id)
  unfolding fail_raw
  fail_raw-Counts j queue entry by attempts error now failed_at s c =
      fail_held-Counts queue j entry _ now failed_at _ s (held-stored by attempts (s.jobs j)) c
