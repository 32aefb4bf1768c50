-- ===== src/Queue/Worker/Outcome.antt =====
-- `Worker.run`: the ways in which a turn of the loop can go, with what it met on the way.
use py_app_runner.Prelude.{
  ℕ, ◌+◌, ◌≤◌, ◌<◌, ◌≡◌, refl, inl, inr, false, ◌||◌, arith, leb, leb→le, leb-false→lt, Bool-cases,
}
use py_app_runner.Queue.Job.{Job}
use py_app_runner.Queue.Worker.Backoff.{Steps}
use py_app_runner.Queue.Worker.Loop.{
  World, Limits, Reserved, unreadable, interrupted, nothing, taken, Ending, returns, raises, exited,
  left, Turn, stop, again, turn, after_reserve, after_job, run_job, limit_reached,
  max_consecutive_failures,
}

module _ {S Payload : Type 0} (w : World S Payload) (steps : Steps) (limits : Limits) where
  -- What a turn does, with what was found on the way.
  pub data Outcome (d f : ℕ) (s : S) : Turn S → Type 0 where
    signalled : Outcome d f s (stop (exited 0 d))
    crashed : Outcome d f s (stop (left d))
    gave_up :
        {v : S}
        → w.should_quit s ≡ false
        → w.reserve s ≡ (unreadable, v)
        → max_consecutive_failures ≤ f + 1
        → Outcome d f s (stop (exited 1 d))
    failing :
        {v : S}
        → w.should_quit s ≡ false
        → w.reserve s ≡ (unreadable, v)
        → f + 1 < max_consecutive_failures
        → Outcome d f s (again d (f + 1) (w.rest v))
    idle :
        {v : S}
        → w.reserve s ≡ (nothing, v)
        → limits.stop_when_empty ≡ false
        → Outcome d f s (again d 0 (w.rest v))
    empty : {v : S} → w.reserve s ≡ (nothing, v) → Outcome d f s (stop (exited 0 d))
    finished :
        {job : Job Payload} {v : S}
        → w.reserve s ≡ (taken job, v)
        → Outcome d f s (stop (exited 0 (d + 1)))
    worked :
        {job : Job Payload} {v t : S}
        → w.reserve s ≡ (taken job, v)
        → run_job w steps job v ≡ (returns, t)
        → limit_reached w steps limits (d + 1) t ≡ false
        → Outcome d f s (again (d + 1) 0 t)

  after_job-Outcome :
      (d f : ℕ) (s : S) {job : Job Payload} {v : S} (o : Ending × S)
      → w.reserve s ≡ (taken job, v)
      → run_job w steps job v ≡ o
      → Outcome d f s (after_job w steps limits d o)
  unfolding after_job
  after_job-Outcome d f s (raises, t) e e' = crashed
  after_job-Outcome d f s (returns, t) e e' =
      elim (Bool-cases (limit_reached w steps limits (d + 1) t)) [
        | inl h ↦ rw h (finished e)
        | inr h ↦ rw h (worked e e' h)
      ]

  after_reserve-Outcome :
      (d f : ℕ) (s : S) (o : Reserved Payload × S)
      → w.should_quit s ≡ false
      → w.reserve s ≡ o
      → Outcome d f s (after_reserve w steps limits d f o)
  unfolding after_reserve
  after_reserve-Outcome d f s (unreadable, v) q e =
      elim (Bool-cases (leb max_consecutive_failures (f + 1))) [
        | inl h ↦ rw h (gave_up q e (leb→le max_consecutive_failures (f + 1) h))
        | inr h ↦ rw h (failing q e (leb-false→lt max_consecutive_failures (f + 1) h))
      ]
  after_reserve-Outcome d f s (interrupted, v) q e = crashed
  after_reserve-Outcome d f s (nothing, v) q e =
      elim (Bool-cases (limits.stop_when_empty || limit_reached w steps limits d v)) [
        | inl h ↦ rw h (empty e)
        | inr h ↦ rw h (idle e (ground arith))
      ]
  after_reserve-Outcome d f s (taken job, v) q e =
      after_job-Outcome d f s (run_job w steps job v) e refl

  pub turn-Outcome : (d f : ℕ) (s : S) → Outcome d f s (turn w steps limits d f s)
  unfolding turn
  turn-Outcome d f s = elim (Bool-cases (w.should_quit s)) [
    | inl h ↦ rw h signalled
    | inr h ↦ rw h (after_reserve-Outcome d f s (w.reserve s) h refl)
  ]
