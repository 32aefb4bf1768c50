-- ===== src/Queue/Pg/WellFormed/Push.antt =====
-- A push keeps the tables well formed.
use py_app_runner.Prelude.{
  ℕ, ◌+◌, String, ◌≡◌, refl, ◌≢◌, inl, inr, false, Option, none, some, List, arith, eq_iff,
  Bool-cases, All, All-append, All-map, All-zip, AllPairs-snoc,
}
use py_app_runner.Queue.Pg.Rows.{any-false}
use py_app_runner.Queue.Pg.Tables.{Row, Db, has_key}
use py_app_runner.Queue.Pg.Push.{
  PushArgs, PushEnv, key_of, violates, insert_job, refused, unless_existing, existing, settled,
  push,
}
use py_app_runner.Queue.Pg.WellFormed.{IsSound, Apart, IsWellFormed, Unshared}

IsSound-later : (n : ℕ) (rows : List Row) → All (IsSound n) rows → All (IsSound (n + 1)) rows
IsSound-later n rows h =
    All-map (IsSound n) (IsSound (n + 1)) rows
      (λ r s. record {
        numbered = omega arith;
        within_budget = s.within_budget;
        has_budget = s.has_budget;
        claim = s.claim;
      })
      h

Unshared-none : (k : Option String) → Unshared k none
Unshared-none none = tt
Unshared-none (some k) = tt

without_key :
    (k : Option String) (key : String) (r : Row)
    → r.unique_key ≡ k
    → has_key key r ≡ false
    → Unshared k (some key)
unfolding has_key
without_key none key r e h = tt
without_key (some k) key r e h = ground (arith, eq_iff k key)

new_row-Apart :
    (key : Option String) (db : Db)
    → IsWellFormed db
    → violates db key ≡ false
    → All (λ r. (r.id ≢ db.next_id) × Unshared r.unique_key key) db.jobs
unfolding violates
new_row-Apart none db wf h =
    All-map (IsSound db.next_id) _ db.jobs (λ r s. (omega arith, Unshared-none r.unique_key))
      wf.sound
new_row-Apart (some key) db wf h =
    All-zip (IsSound db.next_id) (λ r. has_key key r ≡ false) _ db.jobs
      (λ r s e. (omega arith, without_key r.unique_key key r refl e)) wf.sound
      (any-false (has_key key) db.jobs h)

module _ {Payload : Type 0} where
  insert_job-IsWellFormed :
      (moment : ℕ) (payload : String) (args : PushArgs Payload) (db : Db)
      → IsWellFormed db
      → IsWellFormed (insert_job moment payload args db).1
  unfolding insert_job
  insert_job-IsWellFormed moment payload args db wf =
      elim (Bool-cases (violates db (key_of args.unique))) [
        | inl e ↦ rw e (record {
          sound = IsSound-later db.next_id db.jobs wf.sound;
          apart = wf.apart;
          failed_numbered = wf.failed_numbered;
          failed_apart = wf.failed_apart;
        })
        | inr e ↦ rw e (record {
          sound =
              All-append (IsSound (db.next_id + 1)) db.jobs _
                (IsSound-later db.next_id db.jobs wf.sound)
                (
                  record {
                    numbered = omega arith;
                    within_budget = omega arith;
                    has_budget = omega arith;
                    claim = tt;
                  },
                  tt,
                );
          apart = AllPairs-snoc Apart db.jobs _ wf.apart (
              All-map _ _ db.jobs (λ r a. record { ids = a.0; keys = a.1 })
                (new_row-Apart (key_of args.unique) db wf e));
          failed_numbered = wf.failed_numbered;
          failed_apart = wf.failed_apart;
        })
      ]

-- Other connections keep the tables well formed too.
pub record KeepsTables (env : PushEnv) : Type 0 where
  pub before_insert : (db : Db) → IsWellFormed db → IsWellFormed (env.before_insert db)
  pub after_refusal : (db : Db) → IsWellFormed db → IsWellFormed (env.after_refusal db)

refused-IsWellFormed :
    (env : PushEnv) (key : Option String) (db : Db)
    → KeepsTables env
    → IsWellFormed db
    → IsWellFormed (refused env key db).1
unfolding refused
refused-IsWellFormed env none db keep wf = wf
refused-IsWellFormed env (some key) db keep wf = ground (arith, keep.after_refusal db wf)

settled-IsWellFormed :
    (env : PushEnv) (key : Option String) (o : Option ℕ × Db)
    → KeepsTables env
    → IsWellFormed o.1
    → IsWellFormed (settled env key o).1
unfolding settled
settled-IsWellFormed env key (some id, db) keep wf = wf
settled-IsWellFormed env key (none, db) keep wf = refused-IsWellFormed env key db keep wf

module _ {Payload : Type 0} (env : PushEnv) (args : PushArgs Payload) where
  unless_existing-IsWellFormed :
      (payload : Option String) (id : Option ℕ) (db : Db)
      → KeepsTables env
      → IsWellFormed db
      → IsWellFormed (unless_existing env args payload id db).1
  unfolding unless_existing
  unless_existing-IsWellFormed payload (some id) db keep wf = wf
  unless_existing-IsWellFormed none none db keep wf = wf
  unless_existing-IsWellFormed (some payload) none db keep wf =
      settled-IsWellFormed env (key_of args.unique) _ keep (
        insert_job-IsWellFormed env.moment payload args (env.before_insert db)
          (keep.before_insert db wf))

-- A push leaves the tables well formed, whether it queues the job, finds its unique key taken or
-- raises, if other connections keep them well formed between its statements.
pub push-IsWellFormed :
    {Payload : Type 0} (empty : Payload) (dumps : Payload → Option String) (env : PushEnv)
    (args : PushArgs Payload) (db : Db)
    → KeepsTables env
    → IsWellFormed db
    → IsWellFormed (push empty dumps env args db).1
unfolding push
push-IsWellFormed empty dumps env args db keep wf =
    unless_existing-IsWellFormed env args _ (existing (key_of args.unique) db) db keep wf
