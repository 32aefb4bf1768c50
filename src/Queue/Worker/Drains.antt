-- ===== src/Queue/Worker/Drains.antt =====
-- `Worker.run` with --stop-when-empty: the loop ends once the queue is drained.
use py_app_runner.Prelude.{
  ℕ, zero, suc, ◌+◌, ◌*◌, ◌≤◌, ◌<◌, ◌≡◌, refl, ap, subst, true, arith, if_both,
}
use py_app_runner.Queue.Job.{Job}
use py_app_runner.Queue.Worker.Backoff.{Steps}
use py_app_runner.Queue.Worker.Loop.{
  World, Limits, Reserved, unreadable, interrupted, nothing, taken, RunEnd, exited, left, running,
  Turn, stop, again, run_job, run_from, run, and_then,
}
use py_app_runner.Queue.Worker.Outcome.{
  Outcome, signalled, crashed, gave_up, failing, idle, empty, finished, worked, turn-Outcome,
}
use py_app_runner.Queue.Worker.MaxJobs.{handed_out, after_turn, jobs_from, handed_le, handed_none}

-- A queue with at most `tries` attempts left, which gains none while the loop runs: taking a job and
-- running it, whether that returns or raises, uses one up, and a reserve that raises adds none.
pub record IsDraining {S Payload : Type 0} (w : World S Payload) (steps : Steps) (tries : S → ℕ)
    : Type 0 where
  pub raised : (s v : S) → w.reserve s ≡ (unreadable, v) → tries (w.rest v) ≤ tries s
  pub ran :
      (s v : S) (job : Job Payload)
      → w.reserve s ≡ (taken job, v)
      → tries (run_job w steps job v).1 < tries s

-- The loop ended: with an exit code, or by an exception of a job's settling.
unfoldable pub IsEnded : RunEnd → Type 0
IsEnded (exited code done) = Unit
IsEnded (left done) = Unit
IsEnded running = ⊥

module _ {S Payload : Type 0} (w : World S Payload) (steps : Steps) (limits : Limits)
    (tries : S → ℕ) where
  ends_turn :
      (fuel d f : ℕ) (s : S) (o : Turn S)
      → IsDraining w steps tries
      → limits.stop_when_empty ≡ true
      → 5 * tries s + 5 < suc fuel + f
      → f < 5
      → ((d f : ℕ) (t : S)
          → 5 * tries t + 5 < fuel + f
          → f < 5
          → IsEnded (run_from w steps fuel limits d f t))
      → Outcome w steps limits d f s o
      → IsEnded (and_then w steps (run_from w steps fuel limits) o)
  unfolding and_then IsEnded
  ends_turn fuel d f s (stop _) draining stops h l k signalled = tt
  ends_turn fuel d f s (stop _) draining stops h l k crashed = tt
  ends_turn fuel d f s (stop _) draining stops h l k (gave_up _ _ _) = tt
  ends_turn fuel d f s (stop _) draining stops h l k (empty _) = tt
  ends_turn fuel d f s (stop _) draining stops h l k (finished _) = tt
  ends_turn fuel d f s (again d' f' t) draining stops h l k (idle e stays) =
      absurd (cc (stops, stays))
  ends_turn fuel d f s (again d' f' t) draining stops h l k (failing {v} q e m) =
      k d' f' t (omega (arith, draining.raised s v e, h)) m
  ends_turn fuel d f s (again d' f' t) draining stops h l k (worked {job} {v} e r m) =
      let fewer : tries t < tries s =
        subst (λ x. tries x < tries s) (ap (λ x. x.1) r) (draining.ran s v job e) in
      k d' 0 t (omega (arith, fewer, h, l)) (omega arith)

  ends_from :
      (fuel d f : ℕ) (s : S)
      → IsDraining w steps tries
      → limits.stop_when_empty ≡ true
      → 5 * tries s + 5 < fuel + f
      → f < 5
      → IsEnded (run_from w steps fuel limits d f s)
  unfolding run_from
  ends_from zero d f s draining stops h l = absurd (omega (arith, h, l))
  ends_from (suc fuel) d f s draining stops h l =
      ends_turn fuel d f s _ draining stops h l
        (λ d f t h l. ends_from fuel d f t draining stops h l) (turn-Outcome w steps limits d f s)

  handed_le_tries :
      (s : S) (o : Reserved Payload × S)
      → IsDraining w steps tries
      → w.reserve s ≡ o
      → handed_out w steps limits o ≤ tries s
  unfolding handed_out
  handed_le_tries s (unreadable, v) draining e = omega arith
  handed_le_tries s (interrupted, v) draining e = omega arith
  handed_le_tries s (nothing, v) draining e = omega arith
  handed_le_tries s (taken job, v) draining e = omega (arith, draining.ran s v job e)

  taken_turn :
      (rest : ℕ → ℕ → S → ℕ) (d f here : ℕ) (s : S) (o : Turn S)
      → IsDraining w steps tries
      → limits.stop_when_empty ≡ true
      → ((d f : ℕ) (t : S) → rest d f t ≤ tries t)
      → here ≤ 1
      → here ≤ tries s
      → (handed_out w steps limits (w.reserve s) ≡ 0 → here ≡ 0)
      → Outcome w steps limits d f s o
      → here + after_turn w steps limits rest o ≤ tries s
  unfolding after_turn handed_out
  taken_turn rest d f here s (stop _) draining stops k le le' nil o = omega (arith, le')
  taken_turn rest d f here s (again d' f' t) draining stops k le le' nil (idle e stays) =
      absurd (cc (stops, stays))
  taken_turn rest d f here s (again d' f' t) draining stops k le le' nil (failing {v} q e m) =
      omega (arith, nil (rw e refl), k d' f' t, draining.raised s v e)
  taken_turn rest d f here s (again d' f' t) draining stops k le le' nil (worked {job} {v} e r m) =
      let fewer : tries t < tries s =
        subst (λ x. tries x < tries s) (ap (λ x. x.1) r) (draining.ran s v job e) in
      omega (arith, fewer, le, k d' 0 t)

  taken_from :
      (fuel d f : ℕ) (s : S)
      → IsDraining w steps tries
      → limits.stop_when_empty ≡ true
      → jobs_from w steps limits fuel d f s ≤ tries s
  unfolding jobs_from
  taken_from zero d f s draining stops = omega arith
  taken_from (suc fuel) d f s draining stops =
      taken_turn (jobs_from w steps limits fuel) d f _ s _ draining stops
        (λ d f t. taken_from fuel d f t draining stops) (handed_le w steps limits s)
        (if_both (λ n. n ≤ tries s) (w.should_quit s) (omega arith)
          (handed_le_tries s (w.reserve s) draining refl))
        (handed_none w steps limits s) (turn-Outcome w steps limits d f s)

  -- With `stop_when_empty`, over a queue that gains no attempts while the loop runs, the loop ends,
  -- whatever the jobs, the reserves and the signals do: five turns for each attempt left and six more
  -- are enough. Within them the reserves hand out at most as many jobs as there were attempts left.
  pub run-IsEnded :
      (s : S)
      → IsDraining w steps tries
      → limits.stop_when_empty ≡ true
      → IsEnded (run w steps (5 * tries s + 6) limits s)
        × (jobs_from w steps limits (5 * tries s + 6) 0 0 s ≤ tries s)
  unfolding run
  run-IsEnded s draining stops = (
    ends_from (5 * tries s + 6) 0 0 s draining stops (omega arith) (omega arith),
    taken_from (5 * tries s + 6) 0 0 s draining stops,
  )
