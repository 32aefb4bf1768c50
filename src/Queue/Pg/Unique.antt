-- ===== src/Queue/Pg/Unique.antt =====
-- A unique key names one job: what `push` answers under a key.
use text.Mathlib.TextPositions.{eq_refl}
use py_app_runner.Prelude.{
  ℕ, String, ◌≡◌, refl, subst, inl, inr, Bool, true, false, Option, none, some, List, [], ◌∷◌, ◌++◌,
  arith, Bool-cases, any, find,
}
use py_app_runner.Queue.Pg.Rows.{any-false}
use py_app_runner.Queue.Pg.Tables.{Row, Db, has_key}
use py_app_runner.Queue.Pg.Push.{
  PushArgs, PushEnv, PushResult, queued, key_of, id_for_unique, violates, new_row, insert_job,
  refused, settled, insert_encoded, unless_existing, existing, push,
}

-- The id that a result names.
abbrev id_in : PushResult → Option ℕ
id_in (queued id) = some id
id_in _ = none

find-append-none :
    (p : Row → Bool) (xs : List Row) (r : Row)
    → any p xs ≡ false
    → p r ≡ true
    → find p (xs ++ r ∷ []) ≡ some r
find-append-none p [] r h e = rw e
find-append-none p (x ∷ xs) r h e =
    let (miss, rest) = any-false p (x ∷ xs) h in rw miss (find-append-none p xs r (ground arith) e)

has_key_self : (r : Row) (key : String) → r.unique_key ≡ some key → has_key key r ≡ true
unfolding has_key
has_key_self r key e = rw (e, has_key) (eq_refl key)

not-violates :
    (db : Db) (o : Option String) (key : String)
    → o ≡ some key
    → violates db o ≡ false
    → any (has_key key) db.jobs ≡ false
unfolding violates
not-violates db none key e h = absurd (cc e)
not-violates db (some k) key e h = let same : k ≡ key = cc in rw same at h

insert_job-finds :
    {Payload : Type 0} (moment : ℕ) (payload : String) (args : PushArgs Payload) (db : Db)
    (key : String) (id : ℕ)
    → key_of args.unique ≡ some key
    → (insert_job moment payload args db).0 ≡ some id
    → id_for_unique (insert_job moment payload args db).1 key ≡ some id
unfolding insert_job id_for_unique
insert_job-finds moment payload args db key id e h =
    elim (Bool-cases (violates db (key_of args.unique))) [
      | inl v ↦ absurd (cc (rw v at h))
      | inr v ↦
          let row = new_row db.next_id moment payload args in
          let found =
            find-append-none (has_key key) db.jobs row (not-violates db _ key e v)
              (has_key_self row key e) in
          rw (v, found) (rw v at h)
    ]

refused-finds :
    (env : PushEnv) (key : String) (db : Db) {id : ℕ} {after : Db}
    → refused env (some key) db ≡ (queued id, after)
    → id_for_unique after key ≡ some id
unfolding refused
refused-finds env key db {id} {after} h = ground arith

settled-finds :
    (env : PushEnv) (key : String) (k : Option String) (o : Option ℕ × Db) {id : ℕ} {after : Db}
    → k ≡ some key
    → ((n : ℕ) → o.0 ≡ some n → id_for_unique o.1 key ≡ some n)
    → settled env k o ≡ (queued id, after)
    → id_for_unique after key ≡ some id
unfolding settled
settled-finds env key none (none, db) e there h = absurd (cc e)
settled-finds env key (some k) (none, db) e there h =
    let same : k ≡ key = cc in refused-finds env key db (rw same at h)
settled-finds env key k (some n, db) {id} {after} e there h =
    subst (λ (p : PushResult × Db). id_for_unique p.1 key ≡ id_in p.0) h (there n refl)

module _ {Payload : Type 0} (env : PushEnv) (args : PushArgs Payload) (key : String)
    (e : key_of args.unique ≡ some key) where
  unless_existing-finds :
      (payload : Option String) (o : Option ℕ) (db : Db) {id : ℕ} {after : Db}
      → ((n : ℕ) → o ≡ some n → id_for_unique db key ≡ some n)
      → unless_existing env args payload o db ≡ (queued id, after)
      → id_for_unique after key ≡ some id
  unfolding unless_existing insert_encoded
  unless_existing-finds payload (some n) db {id} {after} there h =
      subst (λ (p : PushResult × Db). id_for_unique p.1 key ≡ id_in p.0) h (there n refl)
  unless_existing-finds none none db there h = absurd (cc h)
  unless_existing-finds (some payload) none db there h =
      settled-finds env key (key_of args.unique)
        (insert_job env.moment payload args (env.before_insert db)) e
        (λ n. insert_job-finds env.moment payload args (env.before_insert db) key n e) h

existing-finds :
    (o : Option String) (key : String) (db : Db) (n : ℕ)
    → o ≡ some key
    → existing o db ≡ some n
    → id_for_unique db key ≡ some n
unfolding existing
existing-finds none key db n e h = absurd (cc e)
existing-finds (some k) key db n e h = let same : k ≡ key = cc in rw same at h

-- When a push under a unique key answers with an id, the key names that id in the table it leaves,
-- whether the job was inserted, was there before, or was inserted by somebody else meanwhile.
push-id_for_unique :
    {Payload : Type 0} (empty : Payload) (dumps : Payload → Option String) (env : PushEnv)
    (args : PushArgs Payload) (key : String) (db after : Db) (id : ℕ)
    → key_of args.unique ≡ some key
    → push empty dumps env args db ≡ (queued id, after)
    → id_for_unique after key ≡ some id
unfolding push
push-id_for_unique empty dumps env args key db after id e h =
    unless_existing-finds env args key e _ (existing (key_of args.unique) db) db
      (λ n. existing-finds (key_of args.unique) key db n e) h

-- A second push under the key of an answered push returns the same id and changes nothing.
pub push_again :
    {Payload : Type 0} (empty : Payload) (dumps : Payload → Option String) (env env' : PushEnv)
    (args args' : PushArgs Payload) (key : String) (db after : Db) (id : ℕ)
    → key_of args.unique ≡ some key
    → key_of args'.unique ≡ some key
    → push empty dumps env args db ≡ (queued id, after)
    → push empty dumps env' args' after ≡ (queued id, after)
unfolding push existing unless_existing
push_again empty dumps env env' args args' key db after id e e' h =
    rw (e', existing, push-id_for_unique empty dumps env args key db after id e h) refl
