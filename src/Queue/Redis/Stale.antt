-- ===== src/Queue/Redis/Stale.antt =====
-- The claims of workers that were overtaken.
use mathlib.Core.Option
use py_app_runner.Prelude.{
  ℕ, ◌+◌, ◌≤◌, ◌<◌, String, ◌≡◌, refl, sym, ap, ◌∙◌, subst, ◌≢◌, false, ◌&&◌, Option, none, some,
  arith, str_eq, ◌==◌, ==_iff,
}
use py_app_runner.Prelude.Int.{ℤ}
use py_app_runner.Queue.Job.{Job}
use py_app_runner.Queue.Pg.Push.{PushArgs}
use py_app_runner.Queue.Redis.Store.{JobHash, Store, Redis}
use py_app_runner.Queue.Redis.Push.{push}
use py_app_runner.Queue.Redis.Completion.{
  held, holds, complete_held, release_held, fail_held, fail_raw, delete, release, fail,
}
use py_app_runner.Queue.Redis.Reserve.{Call, reserve_script, reserve_from}
use py_app_runner.Queue.Redis.Reports.{requeue, forget}
use py_app_runner.Queue.Redis.Handed.{reserve_from-IsHandedOut}
use py_app_runner.Queue.Redis.Attempts.{
  Counts, push_encoded-Counts, reserve_script-Counts, requeue-Counts, forget-Counts,
}
use py_app_runner.Queue.Redis.Settled.{delete-Counts, release-Counts, fail_raw-Counts}

-- A hash that counts other attempts is not held.
held-fewer :
    (by : String) (attempts n : ℕ) (o : Option JobHash)
    → attempts < n
    → Counts n o
    → held by attempts o ≡ none
unfolding held holds
held-fewer by attempts n none l c = refl
held-fewer by attempts n (some hash) l c =
    let let_go : (str_eq hash.reserved_by by && hash.attempts == attempts) ≡ false =
      ground (arith, l, c, ==_iff hash.attempts attempts) in
    rw let_go refl

module _ {Payload : Type 0} (empty : Payload) (dumps : Payload → Option String)
    (loads : String → Option Payload) (r : Redis) where
  -- Any number of single scripts, of any workers and with any arguments, but for two: a retry of the job,
  -- and a push that is given the job's id, which INCR does not give twice.
  pub data Onwards (id : ℕ) (s : Store) : Store → Type 0 where
    here : Onwards id s s
    pushed :
        {t : Store}
        → Onwards id s t
        → (now : ℕ) (created_at : String) (args : PushArgs Payload) → t.seq + 1 ≢ id
        → Onwards id s (push empty dumps r now created_at args t).1
    reserved :
        {t : Store} → Onwards id s t → (call : Call) → Onwards id s (reserve_script r call t).1
    deleted : {t : Store} → Onwards id s t → (job : Job Payload) → Onwards id s (delete r job t).1
    released :
        {t : Store}
        → Onwards id s t
        → (now : ℕ) (job : Job Payload) (delay : ℤ) (error : String)
        → Onwards id s (release r now job delay error t).1
    failed :
        {t : Store}
        → Onwards id s t
        → (j : ℕ) (queue entry by : String) (attempts : ℕ) (error : String) (now : ℕ)
          (failed_at : String)
        → Onwards id s (fail_raw r j queue entry by attempts error now failed_at t).1
    requeued :
        {t : Store}
        → Onwards id s t
        → (j max_attempts now : ℕ) → j ≢ id
        → Onwards id s (requeue r j max_attempts now t).1
    forgotten : {t : Store} → Onwards id s t → (j : ℕ) → Onwards id s (forget j t).1

  Onwards-Counts :
      (n id : ℕ) {s t : Store} → Onwards id s t → Counts n (s.jobs id) → Counts n (t.jobs id)
  unfolding push
  Onwards-Counts n id here c = c
  Onwards-Counts n id (pushed {t} run now created_at args new) c =
      push_encoded-Counts r n id now created_at args (dumps (Option.get_or args.payload empty)) t
        new (Onwards-Counts n id run c)
  Onwards-Counts n id (reserved {t} run call) c =
      reserve_script-Counts r n id call t (Onwards-Counts n id run c)
  Onwards-Counts n id (deleted {t} run job) c =
      delete-Counts r n id job t (Onwards-Counts n id run c)
  Onwards-Counts n id (released {t} run now job delay error) c =
      release-Counts r n id now job delay error t (Onwards-Counts n id run c)
  Onwards-Counts n id (failed {t} run j queue entry by attempts error now failed_at) c =
      fail_raw-Counts r n id j queue entry by attempts error now failed_at t
        (Onwards-Counts n id run c)
  Onwards-Counts n id (requeued {t} run j max_attempts now other) c =
      requeue-Counts r n id j max_attempts now t other (Onwards-Counts n id run c)
  Onwards-Counts n id (forgotten {t} run j) c = forget-Counts r n id j t (Onwards-Counts n id run c)

  -- A job that was handed out, and then, after any scripts but a retry of it, handed out once more: its
  -- hash counts more attempts than the first claim ever after.
  outlived :
      (call call' : Call) (others others' : Store → Store) (s s' t t' u : Store)
      (old job : Job Payload)
      → reserve_from loads r call others s ≡ (some old, s')
      → Onwards old.id s' t
      → reserve_from loads r call' others' t ≡ (some job, t')
      → job.id ≡ old.id
      → Onwards old.id t' u
      → Counts (old.attempts + 1) (u.jobs old.id)
  outlived call call' others others' s s' t t' u old job first run again same run' =
      let h = reserve_from-IsHandedOut loads r call others s old s' first in
      let h' = reserve_from-IsHandedOut loads r call' others' t job t' again in
      let older : old.attempts ≤ h'.before.attempts =
        subst (Counts old.attempts) (ap t.jobs (sym same) ∙ h'.stood) (
          Onwards-Counts old.attempts old.id run
            (subst (Counts old.attempts) (sym h.stored) (omega (arith, h.same_attempts)))) in
      Onwards-Counts (old.attempts + 1) old.id run' (
        subst (Counts (old.attempts + 1)) (sym (ap t'.jobs (sym same) ∙ h'.stored))
          (omega (arith, h'.counted, older)))

  -- Where a job was handed out, then any scripts ran, then it was handed out again, to any worker, the
  -- same one included, and then any scripts ran: the delete, the release and the fail of the first claim
  -- answer false and change nothing. Among those scripts there is no retry of the job, which starts its
  -- attempts anew, and no push that INCR gives the job's id.
  pub stale_claims :
      (call call' : Call) (others others' : Store → Store) (s s' t t' u : Store)
      (old job : Job Payload) (now : ℕ) (delay : ℤ) (failed_at error : String)
      → reserve_from loads r call others s ≡ (some old, s')
      → Onwards old.id s' t
      → reserve_from loads r call' others' t ≡ (some job, t')
      → job.id ≡ old.id
      → Onwards old.id t' u
      → (delete r old u ≡ (false, u))
        × (release r now old delay error u ≡ (false, u))
        × (fail r now failed_at old error u ≡ (false, u))
  unfolding delete release fail fail_raw
  stale_claims call call' others others' s s' t t' u old job now delay failed_at error first run
        again same run' =
      let gone : held old.reserved_by old.attempts (u.jobs old.id) ≡ none =
        held-fewer old.reserved_by old.attempts (old.attempts + 1) (u.jobs old.id) (omega arith)
          (outlived call call' others others' s s' t t' u old job first run again same run') in
      (
        rw gone (unfold complete_held in refl),
        rw gone (unfold release_held in refl),
        rw gone (unfold fail_held in refl),
      )
