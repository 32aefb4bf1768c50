-- ===== src/Queue/Redis/Kept/Push.antt =====
-- `push` loses no job, the new one included.
use py_app_runner.Prelude.{
  ℕ, ◌+◌, String, ◌≡◌, refl, ◌⊎◌, inl, true, Option, none, some, str_eq, ltb, if_both,
}
use py_app_runner.Queue.Pg.Push.{PushArgs}
use py_app_runner.Queue.Redis.Store.{JobHash, Store, Redis, hset, sadd_queue}
use py_app_runner.Queue.Redis.Push.{
  take_key, enqueue, store_job, unless_held, push_script, push_encoded, push,
}
use py_app_runner.Queue.Redis.Kept.Places.{has_place, IsWhole, IsRedis}
use py_app_runner.Queue.Redis.Kept.Commands.{zadd_delayed-place, add_ready-place}
use py_app_runner.Queue.Redis.Kept.Moves.{
  Refits, Moves, Moves-trans, Moves-IsWhole, Moves-quiet, hset-Moves, set_unique-Moves,
  zadd_delayed-Moves, sadd_queue-Moves,
}
use py_app_runner.Queue.Redis.Kept.Streams.{add_ready-Moves}

-- What a script keeps that loses nothing.
abbrev pub Keeping : Redis → Store → Store → Type 0
Keeping r s s' = (IsWhole s → IsWhole s') × Refits r s s'

module _ (r : Redis) (law : IsRedis r) where
  pub Keeping-same : (s : Store) → Keeping r s s
  Keeping-same s = (λ w. w, (Moves-quiet r 0 refl refl refl (λ j h. h) refl).refits)

  pub Moves-Keeping :
      (id : ℕ) {s s' : Store}
      → Moves r id s s'
      → (has_place id s' ≡ true) ⊎ (s'.jobs id ≡ none)
      → Keeping r s s'
  Moves-Keeping id m end = (Moves-IsWhole r id m end, m.refits)

  take_key-Moves : (key : String) (id : ℕ) (s : Store) → Moves r id s (take_key key id s)
  unfolding take_key
  take_key-Moves key id s =
      if_both (Moves r id s) (str_eq key "") (Moves-quiet r id refl refl refl (λ j h. h) refl)
        (set_unique-Moves r id key (some id) s)

  enqueue-Moves : (now id : ℕ) (hash : JobHash) (s : Store) → Moves r id s (enqueue r now id hash s)
  unfolding enqueue
  enqueue-Moves now id hash s =
      if_both (Moves r id s) (ltb now hash.available_at)
        (zadd_delayed-Moves r id hash.queue hash.available_at s)
        (add_ready-Moves r id hash.queue hash s law)

  enqueue-place :
      (now id : ℕ) (hash : JobHash) (s : Store) → has_place id (enqueue r now id hash s) ≡ true
  unfolding enqueue
  enqueue-place now id hash s =
      if_both (λ t. has_place id t ≡ true) (ltb now hash.available_at)
        (zadd_delayed-place r hash.queue hash.available_at id s)
        (add_ready-place r hash.queue id hash s)

  store_job-Keeping :
      (now : ℕ) (hash : JobHash) (s : Store) → Keeping r s (store_job r now hash s).1
  unfolding store_job
  store_job-Keeping now hash s =
      let id = s.seq + 1 in
      let numbered : Store = record s { seq = id } in
      let stored = hset id (some hash) numbered in
      let keyed = take_key hash.unique_key id stored in
      let listed = sadd_queue hash.queue keyed in
      Moves-Keeping id
        (Moves-trans r id (numbering s id) (
          Moves-trans r id (hset-Moves r id (some hash) numbered) (
            Moves-trans r id (take_key-Moves hash.unique_key id stored) (
              Moves-trans r id (sadd_queue-Moves r id hash.queue keyed)
                (enqueue-Moves now id hash listed)))))
        (inl (enqueue-place now id hash listed))
    where
      numbering : (s : Store) (id : ℕ) → Moves r id s (record s { seq = id })
      numbering s id = Moves-quiet r id refl refl refl (λ j h. unfold has_place in h) refl

  unless_held-Keeping :
      (now : ℕ) (hash : JobHash) (o : Option ℕ) (s : Store)
      → Keeping r s (unless_held r now hash o s).1
  unfolding unless_held
  unless_held-Keeping now hash (some id) s = Keeping-same s
  unless_held-Keeping now hash none s = store_job-Keeping now hash s

  pub push-Keeping :
      {Payload : Type 0} (empty : Payload) (dumps : Payload → Option String) (now : ℕ)
      (created_at : String) (args : PushArgs Payload) (s : Store)
      → Keeping r s (push empty dumps r now created_at args s).1
  unfolding push push_script
  push-Keeping empty dumps now created_at args s = encoded _
    where
      encoded : (o : Option String) → Keeping r s (push_encoded r now created_at args o s).1
      encoded none = Keeping-same s
      encoded (some payload) = unless_held-Keeping now _ _ s
