-- ===== src/Queue/Redis/Attempts.antt =====
-- The attempts that a hash counts, over the scripts: but for a retry of its job they never go down.
use py_app_runner.Prelude.{
  ℕ, ◌+◌, ◌≤◌, String, ◌≡◌, sym, ap, ◌∙◌, subst, ◌≢◌, inl, inr, Bool, Option, none, some, arith,
  str_eq, ltb, ◌==◌, ==_iff, Bool-cases, if_both, any,
}
use py_app_runner.Queue.Pg.Push.{PushArgs, queue_of}
use py_app_runner.Queue.Redis.Store.{
  JobHash, Store, Redis, hset, sadd_queue, xadd, zadd_level, add_ready, zrem_failed, zadd_delayed,
  set_unique,
}
use py_app_runner.Queue.Redis.Push.{
  take_key, enqueue, store_job, unless_held, push_script, push_encoded,
}
use py_app_runner.Queue.Redis.Reserve.{Call, Handed, reserve_script}
use py_app_runner.Queue.Redis.Reports.{fresh_again, requeue_hash, requeue, forget, is_failed}
use py_app_runner.Queue.Redis.Aged.{AgesAt}
use py_app_runner.Queue.Redis.Handed.{IsTakenBy, script-IsTakenBy}
use py_app_runner.Queue.Redis.Kept.Moves.{hset_others}
use py_app_runner.Queue.Redis.Kept.Commands.{hset-jobs}

-- A hash that is gone, or counts at least so many attempts.
abbrev pub Counts : ℕ → Option JobHash → Type 0
Counts n none = Unit
Counts n (some hash) = n ≤ hash.attempts

AgesAt-Counts : (n : ℕ) (o o' : Option JobHash) → AgesAt o o' → Counts n o → Counts n o'
AgesAt-Counts n none none a c = tt
AgesAt-Counts n none (some hash') a c = elim a [ ]
AgesAt-Counts n (some hash) none a c = elim a [ ]
AgesAt-Counts n (some hash) (some hash') a c = omega (arith, a.attempts, c)

module _ (r : Redis) (n id : ℕ) where
  -- HSET or DEL of a job's hash
  pub hset-Counts :
      (j : ℕ) (o : Option JobHash) (s : Store)
      → (j ≡ id → Counts n o)
      → Counts n (s.jobs id)
      → Counts n ((hset j o s).jobs id)
  hset-Counts j o s new c = elim (Bool-cases (id == j)) [
    | inl e ↦
        let same : id ≡ j = (==_iff id j).0 e in
        subst (λ k. Counts n ((hset j o s).jobs k)) (sym same)
          (subst (Counts n) (sym (hset-jobs j o s)) (new (sym same)))
    | inr e ↦
        let other : id ≢ j = λ same. absurd (cc (e, (==_iff id j).1 same)) in
        subst (Counts n) (sym (hset_others r j o s id other)) c
  ]

  add_ready-Counts :
      (queue : String) (j : ℕ) (hash : JobHash) (s : Store)
      → (j ≡ id → n ≤ hash.attempts)
      → Counts n (s.jobs id)
      → Counts n ((add_ready r queue j hash s).jobs id)
  unfolding add_ready xadd zadd_level
  add_ready-Counts queue j hash s new c =
      unfold hset in hset-Counts j (some (record hash { entry = r.entry_id s.added })) s new c

  sadd_queue-Counts :
      (queue : String) (s : Store) → Counts n (s.jobs id) → Counts n ((sadd_queue queue s).jobs id)
  unfolding sadd_queue
  sadd_queue-Counts queue s c =
      if_both (λ (t : Store). Counts n (t.jobs id)) (any (str_eq queue) s.queues) c c

  store_job-Counts :
      (now : ℕ) (hash : JobHash) (s : Store)
      → s.seq + 1 ≢ id
      → Counts n (s.jobs id)
      → Counts n ((store_job r now hash s).1.jobs id)
  unfolding store_job enqueue
  store_job-Counts now hash s new c =
      let number = s.seq + 1 in
      let stored = hset number (some hash) (record s { seq = number }) in
      let listed = sadd_queue hash.queue (take_key hash.unique_key number stored) in
      let before : Counts n (listed.jobs id) =
        sadd_queue-Counts hash.queue (take_key hash.unique_key number stored) (
          keyed stored
            (hset-Counts number (some hash) (record s { seq = number }) (λ e. absurd (new e)) c)) in
      if_both (λ (t : Store). Counts n (t.jobs id)) (ltb now hash.available_at)
        (unfold zadd_delayed in before)
        (add_ready-Counts hash.queue number hash listed (λ e. absurd (new e)) before)
    where
      keyed :
          (t : Store)
          → Counts n (t.jobs id)
          → Counts n ((take_key hash.unique_key (s.seq + 1) t).jobs id)
      keyed t d =
          unfold take_key set_unique in
          if_both (λ (u : Store). Counts n (u.jobs id)) (str_eq hash.unique_key "") d d

  unless_held-Counts :
      (now : ℕ) (hash : JobHash) (o : Option ℕ) (s : Store)
      → s.seq + 1 ≢ id
      → Counts n (s.jobs id)
      → Counts n ((unless_held r now hash o s).1.jobs id)
  unfolding unless_held
  unless_held-Counts now hash none s new c = store_job-Counts now hash s new c
  unless_held-Counts now hash (some k) s new c = c

  pub push_encoded-Counts :
      {Payload : Type 0} (now : ℕ) (created_at : String) (args : PushArgs Payload)
      (o : Option String) (s : Store)
      → s.seq + 1 ≢ id
      → Counts n (s.jobs id)
      → Counts n ((push_encoded r now created_at args o s).1.jobs id)
  unfolding push_encoded push_script
  push_encoded-Counts now created_at args none s new c = c
  push_encoded-Counts now created_at args (some text) s new c = unless_held-Counts now _ _ s new c

  taken-Counts :
      (call : Call) (s : Store) (x : Option Handed × Store)
      → IsTakenBy call s x
      → Counts n (s.jobs id)
      → Counts n (x.1.jobs id)
  taken-Counts call s (none, t) aged c = AgesAt-Counts n (s.jobs id) (t.jobs id) (aged id) c
  taken-Counts call s ((some (j, entry, hash)), t) taken c = elim (Bool-cases (id == j)) [
    | inl e ↦
        let same : id ≡ j = (==_iff id j).0 e in
        let older : n ≤ taken.before.attempts = subst (Counts n) (ap s.jobs same ∙ taken.stood) c in
        subst (Counts n) (sym (ap t.jobs same ∙ taken.stored)) (omega (arith, taken.counted, older))
    | inr e ↦
        let other : id ≢ j = λ same. absurd (cc (e, (==_iff id j).1 same)) in
        AgesAt-Counts n (s.jobs id) (t.jobs id) (taken.others id other) c
  ]

  pub reserve_script-Counts :
      (call : Call) (s : Store)
      → Counts n (s.jobs id)
      → Counts n ((reserve_script r call s).1.jobs id)
  reserve_script-Counts call s c =
      taken-Counts call s (reserve_script r call s) (script-IsTakenBy r call s) c

  requeue_hash-Counts :
      (j max_attempts now : ℕ) (o : Option JobHash) (s : Store)
      → j ≢ id
      → Counts n (s.jobs id)
      → Counts n ((requeue_hash r j max_attempts now o s).1.jobs id)
  unfolding requeue_hash
  requeue_hash-Counts j max_attempts now none s other c = c
  requeue_hash-Counts j max_attempts now (some hash) s other c =
      sadd_queue-Counts (queue_of hash.queue)
        (add_ready r (queue_of hash.queue) j (fresh_again max_attempts now hash) s)
        (add_ready-Counts (queue_of hash.queue) j (fresh_again max_attempts now hash) s
          (λ e. absurd (other e)) c)

  pub requeue-Counts :
      (j max_attempts now : ℕ) (s : Store)
      → j ≢ id
      → Counts n (s.jobs id)
      → Counts n ((requeue r j max_attempts now s).1.jobs id)
  unfolding requeue
  requeue-Counts j max_attempts now s other c =
      if_both (λ (x : Bool × Store). Counts n (x.1.jobs id)) (is_failed j s)
        (requeue_hash-Counts j max_attempts now (s.jobs j) (zrem_failed j s) other
          (unfold zrem_failed in c))
        c

  pub forget-Counts : (j : ℕ) (s : Store) → Counts n (s.jobs id) → Counts n ((forget j s).1.jobs id)
  unfolding forget
  forget-Counts j s c =
      if_both (λ (x : Bool × Store). Counts n (x.1.jobs id)) (is_failed j s)
        (hset-Counts j none (zrem_failed j s) (λ e. tt) (unfold zrem_failed in c)) c
