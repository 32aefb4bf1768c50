-- ===== src/Queue/Redis/Unique.antt =====
-- The unique key of a push.
use mathlib.Core.Option
use py_app_runner.Prelude.{
  ℕ, ◌+◌, String, ◌≡◌, refl, sym, ap, ◌∙◌, subst, inl, inr, false, Option, none, some, str_eq,
  eq_iff, ltb, Bool-cases, if_both, any,
}
use py_app_runner.Queue.Pg.Push.{PushArgs, key_of}
use py_app_runner.Queue.Redis.Store.{
  JobHash, Store, Redis, hset, set_unique, zadd_delayed, sadd_queue, xadd, zadd_level, add_ready,
}
use py_app_runner.Queue.Redis.Kept.Commands.{hset-jobs}
use py_app_runner.Queue.Redis.Push.{
  text_of, holder, holder_alive, hash_at, new_hash, take_key, enqueue, store_job, unless_held,
  push_script, push_encoded, push,
}

IsLive : String → ℕ → Store → Type 0
IsLive key id s = (s.unique key ≡ some id) × ((hash : JobHash) × (s.jobs id ≡ some hash))

live_holder :
    (key : String) (id : ℕ) (s : Store)
    → str_eq key "" ≡ false
    → IsLive key id s
    → holder key s ≡ some id
unfolding IsLive holder holder_alive hash_at
live_holder key id s e (u, (hash, j)) = rw (e, u, j) refl

alive :
    (o : Option ℕ) (hash : Option JobHash) (id : ℕ)
    → holder_alive o hash ≡ some id
    → (o ≡ some id) × ((h : JobHash) × (hash ≡ some h))
unfolding holder_alive
alive none hash id e = absurd (cc e)
alive (some k) none id e = absurd (cc e)
alive (some k) (some h) id e = (e, (h, refl))

hash_at_of : (o : Option ℕ) (id : ℕ) (s : Store) → o ≡ some id → hash_at o s ≡ s.jobs id
unfolding hash_at
hash_at_of none id s e = absurd (cc e)
hash_at_of (some k) id s e = let same : k ≡ id = cc in ap s.jobs same

holder-IsLive :
    (key : String) (id : ℕ) (s : Store)
    → str_eq key "" ≡ false
    → holder key s ≡ some id
    → IsLive key id s
unfolding IsLive holder
holder-IsLive key id s e h =
    let (u, (hash, j)) = alive (s.unique key) (hash_at (s.unique key) s) id (rw e at h) in
    (u, (hash, sym (hash_at_of (s.unique key) id s u) ∙ j))

enqueue-IsLive :
    (r : Redis) (now id : ℕ) (hash : JobHash) (key : String) (s : Store)
    → IsLive key id s
    → IsLive key id (enqueue r now id hash s)
unfolding IsLive enqueue
enqueue-IsLive r now id hash key s h =
    if_both (λ (t : Store). IsLive key id t) (ltb now hash.available_at) (unfold zadd_delayed in h)
      (unfold add_ready zadd_level hset xadd in
        (
          h.0,
          (
            record hash { entry = r.entry_id s.added },
            hset-jobs id (some (record hash { entry = r.entry_id s.added })) s,
          ),
        ))

store_job-IsLive :
    (r : Redis) (now : ℕ) (hash : JobHash) (s : Store)
    → str_eq hash.unique_key "" ≡ false
    → IsLive hash.unique_key (store_job r now hash s).0 (store_job r now hash s).1
unfolding store_job
store_job-IsLive r now hash s e =
    let id = s.seq + 1 in
    let stored = hset id (some hash) (record s { seq = id }) in
    enqueue-IsLive r now id hash hash.unique_key
      (sadd_queue hash.queue (take_key hash.unique_key id stored))
      (listed (take_key hash.unique_key id stored) id (taken id))
  where
    listed :
        (t : Store) (id : ℕ)
        → IsLive hash.unique_key id t
        → IsLive hash.unique_key id (sadd_queue hash.queue t)
    listed t id h =
        unfold sadd_queue IsLive in
        if_both (λ (t : Store). IsLive hash.unique_key id t) (any (str_eq hash.queue) t.queues) h h

    taken :
        (id : ℕ)
        → IsLive hash.unique_key id
            (take_key hash.unique_key id (hset id (some hash) (record s { seq = id })))
    taken id =
        unfold IsLive take_key set_unique in
        rw (e, (eq_iff hash.unique_key hash.unique_key).1 refl)
          (refl, (hash, hset-jobs id (some hash) (record s { seq = id })))

-- The id that a push answers holds its key.
unless_held-IsLive :
    (r : Redis) (now : ℕ) (hash : JobHash) (s : Store) (o : Option ℕ)
    → str_eq hash.unique_key "" ≡ false
    → holder hash.unique_key s ≡ o
    → IsLive hash.unique_key (unless_held r now hash o s).0 (unless_held r now hash o s).1
unfolding unless_held
unless_held-IsLive r now hash s (some id) e h = holder-IsLive hash.unique_key id s e h
unless_held-IsLive r now hash s none e h = store_job-IsLive r now hash s e

key_is_some :
    (unique : Option String) (key : String) → key_of unique ≡ some key → str_eq key "" ≡ false
unfolding key_of
key_is_some none key e = absurd (cc e)
key_is_some (some k) key e = elim (Bool-cases (str_eq k "")) [
  | inl q ↦ absurd (cc (rw q at e))
  | inr q ↦ let same : some k ≡ some key = rw q at e in let met : k ≡ key = cc in rw (sym met) q
]

module _ {Payload : Type 0} where
  new_hash-unique_key :
      (now : ℕ) (created_at text : String) (args : PushArgs Payload) (key : String)
      → key_of args.unique ≡ some key
      → (new_hash now created_at text args).unique_key ≡ key
  unfolding new_hash text_of
  new_hash-unique_key now created_at text args key k = rw k refl

  pushed-IsLive :
      (r : Redis) (now : ℕ) (created_at key : String) (args : PushArgs Payload) (o : Option String)
      (s s' : Store) (id : ℕ)
      → key_of args.unique ≡ some key
      → push_encoded r now created_at args o s ≡ (some id, s')
      → IsLive key id s'
  unfolding push_encoded push_script
  pushed-IsLive r now created_at key args none s s' id k e = absurd (cc e)
  pushed-IsLive r now created_at key args (some text) s s' id k e =
      let hash = new_hash now created_at text args in
      let named : hash.unique_key ≡ key = new_hash-unique_key now created_at text args key k in
      let answer = unless_held r now hash (holder hash.unique_key s) s in
      let live : IsLive hash.unique_key answer.0 answer.1 =
        unless_held-IsLive r now hash s (holder hash.unique_key s)
          (rw named (key_is_some args.unique key k)) refl in
      let same : answer.0 ≡ id = cc in
      let stores : answer.1 ≡ s' = cc in
      subst (λ t. IsLive key id t) stores
        (subst (λ n. IsLive key n answer.1) same
          (subst (λ t. IsLive t answer.0 answer.1) named live))

-- Where a push under a key was answered with an id, a second push under that key that follows it with no
-- other script between them, whatever else it asks for and at whatever moments the two are made, answers
-- the same id and changes nothing, where its payload can be encoded.
pub second_push :
    {Payload : Type 0} (empty : Payload) (dumps : Payload → Option String) (r : Redis)
    (now now' : ℕ) (created_at created_at' : String) (args args' : PushArgs Payload)
    (key text : String) (s s' : Store) (id : ℕ)
    → key_of args.unique ≡ some key
    → key_of args'.unique ≡ some key
    → push empty dumps r now created_at args s ≡ (some id, s')
    → dumps (Option.get_or args'.payload empty) ≡ some text
    → push empty dumps r now' created_at' args' s' ≡ (some id, s')
unfolding push push_encoded push_script
second_push empty dumps r now now' created_at created_at' args args' key text s s' id k k' e d =
    let live =
      pushed-IsLive r now created_at key args (dumps (Option.get_or args.payload empty)) s s' id k
        e in
    let h = live_holder key id s' (key_is_some args.unique key k) live in
    rw (d, new_hash-unique_key now' created_at' text args' key k', h) (unfold unless_held in refl)
