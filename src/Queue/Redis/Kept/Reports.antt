-- ===== src/Queue/Redis/Kept/Reports.antt =====
-- `_REQUEUE` and `_FORGET` lose no job but those that are forgotten.
use py_app_runner.Prelude.{
  ℕ, String, ◌≡◌, refl, inl, inr, Bool, true, Option, none, some, arith, str_eq, if_both, any,
}
use py_app_runner.Queue.Pg.Push.{queue_of}
use py_app_runner.Queue.Redis.Store.{JobHash, Store, Redis, sadd_queue, zrem_failed, add_ready}
use py_app_runner.Queue.Redis.Reports.{fresh_again, requeue_hash, requeue, forget, is_failed}
use py_app_runner.Queue.Redis.Kept.Places.{has_place, IsRedis}
use py_app_runner.Queue.Redis.Kept.Commands.{add_ready-place, hset-jobs}
use py_app_runner.Queue.Redis.Kept.Moves.{
  Moves-trans, hset-Moves, zrem_failed-Moves, sadd_queue-Moves,
}
use py_app_runner.Queue.Redis.Kept.Streams.{add_ready-Moves}
use py_app_runner.Queue.Redis.Kept.Push.{Keeping, Keeping-same, Moves-Keeping}

module _ (r : Redis) (law : IsRedis r) where
  pub Keeping-trans : {s t u : Store} → Keeping r s t → Keeping r t u → Keeping r s u
  Keeping-trans (w, f) (w', f') = (
    λ h. w' (w h),
    record {
      sound = λ h. f'.sound (f.sound h);
      grows = omega (arith, f.grows, f'.grows);
      handles = λ k i l h. f'.handles k i (omega (arith, l, f.grows)) (f.handles k i l h);
    },
  )

  sadd_queue-place :
      (queue : String) (id : ℕ) (s : Store)
      → has_place id s ≡ true
      → has_place id (sadd_queue queue s) ≡ true
  unfolding sadd_queue has_place
  sadd_queue-place queue id s h =
      if_both (λ t. has_place id t ≡ true) (any (str_eq queue) s.queues) h h

  requeued :
      (id max_attempts now : ℕ) (o : Option JobHash) (s : Store)
      → s.jobs id ≡ o
      → Keeping r s (requeue_hash r id max_attempts now o (zrem_failed id s)).1
  unfolding requeue_hash
  requeued id max_attempts now none s e =
      Moves-Keeping r law id (zrem_failed-Moves r id s) (inr (unfold zrem_failed in e))
  requeued id max_attempts now (some hash) s e =
      let queue = queue_of hash.queue in
      let fresh = fresh_again max_attempts now hash in
      let freed = zrem_failed id s in
      let ready = add_ready r queue id fresh freed in
      Moves-Keeping r law id
        (Moves-trans r id (zrem_failed-Moves r id s) (
          Moves-trans r id (add_ready-Moves r id queue fresh freed law)
            (sadd_queue-Moves r id queue ready)))
        (inl (sadd_queue-place queue id ready (add_ready-place r queue id fresh freed)))

  pub requeue-Keeping :
      (id max_attempts now : ℕ) (s : Store) → Keeping r s (requeue r id max_attempts now s).1
  unfolding requeue
  requeue-Keeping id max_attempts now s =
      if_both (λ (o : Bool × Store). Keeping r s o.1) (is_failed id s)
        (requeued id max_attempts now (s.jobs id) s refl) (Keeping-same r law s)

  pub forget-Keeping : (id : ℕ) (s : Store) → Keeping r s (forget id s).1
  unfolding forget
  forget-Keeping id s =
      if_both (λ (o : Bool × Store). Keeping r s o.1) (is_failed id s)
        (Moves-Keeping r law id
          (Moves-trans r id (zrem_failed-Moves r id s) (hset-Moves r id none (zrem_failed id s)))
          (inr (hset-jobs id none (zrem_failed id s))))
        (Keeping-same r law s)
