-- ===== src/Queue/Worker/MaxJobs.antt =====
-- `Worker.run`: the jobs that it takes, counted by themselves, and the limit on them.
use py_app_runner.Prelude.{
  ℕ, zero, suc, ◌+◌, ◌≤◌, ◌<◌, ◌≡◌, refl, false, arith, if◌then◌else◌, if_both,
}
use py_app_runner.Queue.Worker.Backoff.{Steps}
use py_app_runner.Queue.Worker.Loop.{
  World, Limits, Reserved, unreadable, interrupted, nothing, taken, Turn, stop, again, turn,
  limit_reached,
}
use py_app_runner.Queue.Worker.Outcome.{Outcome, failing, idle, worked, turn-Outcome}

module _ {S Payload : Type 0} (w : World S Payload) (steps : Steps) (limits : Limits) where
  -- The jobs that a reserve hands out.
  unfoldable pub handed_out : Reserved Payload × S → ℕ
  handed_out (taken job, s) = 1
  handed_out (nothing, s) = 0
  handed_out (unreadable, s) = 0
  handed_out (interrupted, s) = 0

  unfoldable pub after_turn : (ℕ → ℕ → S → ℕ) → Turn S → ℕ
  after_turn rest (stop end) = 0
  after_turn rest (again done failures s) = rest done failures s

  -- The jobs that the reserves of the loop hand out, for a number of turns. It does not read what the
  -- loop counts.
  unfoldable pub jobs_from : ℕ → ℕ → ℕ → S → ℕ
  unfolding handed_out after_turn
  jobs_from zero done failures s = 0
  jobs_from (suc fuel) done failures s =
      (if w.should_quit s then 0 else handed_out (w.reserve s))
      + after_turn (jobs_from fuel) (turn w steps limits done failures s)

  handed_out_le : (o : Reserved Payload × S) → handed_out o ≤ 1
  unfolding handed_out
  handed_out_le (taken job, s) = omega arith
  handed_out_le (nothing, s) = omega arith
  handed_out_le (unreadable, s) = omega arith
  handed_out_le (interrupted, s) = omega arith

  pub handed_le : (s : S) → (if w.should_quit s then 0 else handed_out (w.reserve s)) ≤ 1
  handed_le s = if_both (λ n. n ≤ 1) (w.should_quit s) (omega arith) (handed_out_le (w.reserve s))

  pub handed_none :
      (s : S)
      → handed_out (w.reserve s) ≡ 0
      → (if w.should_quit s then 0 else handed_out (w.reserve s)) ≡ 0
  handed_none s h = if_both (λ n. n ≡ 0) (w.should_quit s) refl h

  under_limit :
      (d : ℕ) (t : S)
      → 0 < limits.max_jobs
      → limit_reached w steps limits d t ≡ false
      → d < limits.max_jobs
  unfolding limit_reached
  under_limit d t h e = ground arith

  bound_on :
      (rest : ℕ → ℕ → S → ℕ) (d f here : ℕ) (s : S) (o : Turn S)
      → ((d f : ℕ) (u : S) → d < limits.max_jobs → rest d f u + d ≤ limits.max_jobs)
      → 0 < limits.max_jobs
      → here ≤ 1
      → (handed_out (w.reserve s) ≡ 0 → here ≡ 0)
      → Outcome w steps limits d f s o
      → d < limits.max_jobs
      → here + after_turn rest o + d ≤ limits.max_jobs
  unfolding after_turn handed_out
  bound_on rest d f here s (stop _) k p le nil o h = omega (arith, h, le)
  bound_on rest d f here s (again d' f' u') k p le nil (failing _ e _) h =
      omega (arith, nil (rw e refl), k d' f' u' h)
  bound_on rest d f here s (again d' f' u') k p le nil (idle e _) h =
      omega (arith, nil (rw e refl), k d' f' u' h)
  bound_on rest d f here s (again d' f' u') k p le nil (worked _ _ e) h =
      omega (arith, le, k d' f' u' (under_limit d' u' p e))

  jobs_from-bound :
      (fuel d f : ℕ) (s : S)
      → 0 < limits.max_jobs
      → d < limits.max_jobs
      → jobs_from fuel d f s + d ≤ limits.max_jobs
  unfolding jobs_from
  jobs_from-bound zero d f s p h = omega (arith, h)
  jobs_from-bound (suc fuel) d f s p h =
      bound_on (jobs_from fuel) d f _ s _ (λ d f s h. jobs_from-bound fuel d f s p h) p
        (handed_le s) (handed_none s) (turn-Outcome w steps limits d f s) h

  -- Where `max_jobs` is not 0, in any number of turns the loop takes at most that many jobs from the
  -- queue. The jobs are counted by what `reserve` hands out, and not by what the loop counts.
  pub run-max_jobs :
      (fuel : ℕ) (s : S) → 0 < limits.max_jobs → jobs_from fuel 0 0 s ≤ limits.max_jobs
  run-max_jobs fuel s p = omega (arith, jobs_from-bound fuel 0 0 s p p)
