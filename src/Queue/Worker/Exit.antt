-- ===== src/Queue/Worker/Exit.antt =====
-- `Worker.run`: when the loop ends with exit code 1.
use py_app_runner.Prelude.{ℕ, zero, suc, ◌+◌, ◌-◌, ◌<◌, ◌≡◌, refl, subst, false, arith}
use py_app_runner.Queue.Worker.Backoff.{Steps}
use py_app_runner.Queue.Worker.Loop.{
  World, Limits, unreadable, RunEnd, exited, Turn, stop, again, turn, run_from, run, and_then,
  max_consecutive_failures,
}
use py_app_runner.Queue.Worker.Outcome.{Outcome, gave_up, failing, idle, worked, turn-Outcome}

module _ {S Payload : Type 0} (w : World S Payload) (steps : Steps) (limits : Limits) where
  -- Turns of the loop, from one configuration (jobs done, failures in a row, state) to another.
  pub data Reaches (s : S) : ℕ → ℕ → S → Type 0 where
    start : Reaches s 0 0 s
    next :
        {d f d' f' : ℕ} {t t' : S}
        → Reaches s d f t
        → turn w steps limits d f t ≡ again d' f' t'
        → Reaches s d' f' t'

  -- n reserves in a row that raised, each with the rest after it, and no signal in between.
  pub data Failing (s : S) : ℕ → S → Type 0 where
    none_yet : Failing s 0 s
    one_more :
        {n : ℕ} {t t' : S}
        → Failing s n t
        → w.should_quit t ≡ false
        → w.reserve t ≡ (unreadable, t')
        → Failing s (n + 1) (w.rest t')

  -- A configuration that the loop comes to, after f failed reserves in a row.
  record Trail (s : S) (d f : ℕ) (u : S) : Type 0 where
    from : S
    at_from : Reaches s d 0 from
    since : Failing from f u
    few : f < max_consecutive_failures

  pub record GaveUp (s : S) (d : ℕ) : Type 0 where
    from : S
    last : S
    after : S
    at_from : Reaches s d 0 from
    failures : Failing from (max_consecutive_failures - 1) last
    still_running : w.should_quit last ≡ false
    one_more_failure : w.reserve last ≡ (unreadable, after)

  -- the trail after a turn that goes on
  Trail-Outcome :
      {s : S} {d f d' f' : ℕ} {u u' : S}
      → Trail s d f u
      → Reaches s d' f' u'
      → Outcome w steps limits d f u (again d' f' u')
      → Trail s d' f' u'
  Trail-Outcome t r (failing q h few) = record {
    from = t.from;
    at_from = t.at_from;
    since = Failing.one_more t.since q h;
    few = few;
  }
  Trail-Outcome t r (idle h _) = record {
    from = _;
    at_from = r;
    since = Failing.none_yet;
    few = omega arith;
  }
  Trail-Outcome t r (worked h h' h'') = record {
    from = _;
    at_from = r;
    since = Failing.none_yet;
    few = omega arith;
  }

  Trail-GaveUp :
      {s : S} {d f d' : ℕ} {u : S}
      → Trail s d f u
      → Outcome w steps limits d f u (stop (exited 1 d'))
      → GaveUp s d'
  Trail-GaveUp {u = u} t (gave_up q h many) = record {
    from = t.from;
    last = u;
    after = _;
    at_from = t.at_from;
    failures = subst (λ n. Failing t.from n u) (omega (arith, many, t.few)) t.since;
    still_running = q;
    one_more_failure = h;
  }

  -- one turn, where the rest of the loop is known to leave a trail
  after_turn :
      {s : S} {d f : ℕ} {u : S} {d' : ℕ} (rest : ℕ → ℕ → S → RunEnd) (o : Turn S)
      → ((d f : ℕ) (u : S)
          → Trail s d f u
          → Reaches s d f u
          → rest d f u ≡ exited 1 d'
          → GaveUp s d')
      → turn w steps limits d f u ≡ o
      → Outcome w steps limits d f u o
      → Trail s d f u
      → Reaches s d f u
      → and_then w steps rest o ≡ exited 1 d'
      → GaveUp s d'
  unfolding and_then
  after_turn {d = d} {f = f} {u = u} rest (stop end) k e o t r h =
      Trail-GaveUp t (subst (λ x. Outcome w steps limits d f u (stop x)) h o)
  after_turn rest (again d' f' u') k e o t r h =
      k _ _ _ (Trail-Outcome t (Reaches.next r e) o) (Reaches.next r e) h

  run_from-Trail :
      (fuel : ℕ) {s : S} {d f : ℕ} {u : S} {d' : ℕ}
      → Trail s d f u
      → Reaches s d f u
      → run_from w steps fuel limits d f u ≡ exited 1 d'
      → GaveUp s d'
  unfolding run_from
  run_from-Trail zero t r e = cc
  run_from-Trail (suc fuel) t r e =
      after_turn (run_from w steps fuel limits) _
        (λ d f u. run_from-Trail fuel {d = d} {f = f} {u = u}) refl
        (turn-Outcome w steps limits _ _ _) t r e

  -- The worker exits with code 1 only when it has met five reserves in a row that raised, each
  -- but the last followed by its rest, with no signal to stop and no readable reserve between them,
  -- starting from a configuration that its turns have come to with the same number of jobs done.
  pub run-GaveUp :
      (fuel : ℕ) (s : S) (done : ℕ) → run w steps fuel limits s ≡ exited 1 done → GaveUp s done
  unfolding run
  run-GaveUp fuel s done e =
      run_from-Trail fuel
        (record { from = s; at_from = Reaches.start; since = Failing.none_yet; few = omega arith })
        Reaches.start e
