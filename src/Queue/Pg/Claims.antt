-- ===== src/Queue/Pg/Claims.antt =====
-- A claim is exclusive until its deadline: the guard of the UPDATE in `_claim`, and the `_OWNED`
-- guard of the statements that end a claim.
use py_app_runner.Prelude.{
  ℕ, ◌+◌, ◌<◌, String, ◌≡◌, refl, sym, ◌∙◌, inl, inr, Bool, true, false, not, ◌&&◌, Option, some,
  List, [], ◌∷◌, ◌++◌, arith, eq_iff, ◌==◌, ==_iff, Bool-cases, Option-cases, filter, any, find,
  All, All-append, All-intro, All-map, All-filter,
}
use py_app_runner.Prelude.Int.{ℤ}
use py_app_runner.Queue.Job.{Job}
use py_app_runner.Queue.Pg.Rows.{All-update_where}
use py_app_runner.Queue.Pg.Tables.{Row, FailedRow, Db, claimable, owned, exhausted, update_where}
use py_app_runner.Queue.Pg.Push.{PushArgs, violates, key_of, insert_job}
use py_app_runner.Queue.Pg.Completion.{move_to_failed, holds, delete, freed, release, fail}
use py_app_runner.Queue.Pg.Reserve.{claimed_row, claim}
use py_app_runner.Queue.Pg.Reports.{requeue, forget_failed}

-- What names one claim: the job, the worker and the attempt, and the deadline it was given.
pub record Claim : Type 0 where
  pub id : ℕ
  pub worker : String
  pub attempts : ℕ
  pub until : ℕ

pub record IsRowOf (c : Claim) (r : Row) : Type 0 where
  pub deadline : r.reserved_until ≡ some c.until
  pub holder : r.reserved_by ≡ some c.worker
  pub attempt : r.attempts ≡ c.attempts

-- The job of the claim is in the table, and every row of its id is held by the claim.
pub record IsHeld (c : Claim) (db : Db) : Type 0 where
  pub known : c.id < db.next_id
  pub present : any (λ r. r.id == c.id) db.jobs ≡ true
  pub rows : All (λ r. r.id ≡ c.id → IsRowOf c r) db.jobs

-- The job is handed to `delete`, `release` or `fail` by the holder of this claim.
abbrev pub IsHolder : {Payload : Type 0} → Claim → Job Payload → Type 0
IsHolder c job = (job.id ≡ c.id) × (job.reserved_by ≡ c.worker) × (job.attempts ≡ c.attempts)

-- One statement of some connection before the deadline. Whoever ends a claim ends another one.
pub data Step (Payload : Type 0) (c : Claim) : Db → Db → Type 0 where
  inserted :
      (moment : ℕ) (payload : String) (args : PushArgs Payload) (db : Db)
      → Step Payload c db (insert_job moment payload args db).1
  claimed :
      (id until : ℕ) (worker : String) (moment : ℕ) (db : Db)
      → moment < c.until
      → Step Payload c db (claim id until worker moment db).1
  swept :
      (moment id : ℕ) (error : String) (now : ℕ) (db : Db)
      → moment < c.until
      → Step Payload c db (move_to_failed (exhausted moment) id error now db).1
  deleted : (job : Job Payload) (db : Db) → ¬ IsHolder c job → Step Payload c db (delete job db).1
  released :
      (now : ℕ) (job : Job Payload) (delay : ℤ) (error : String) (db : Db)
      → ¬ IsHolder c job
      → Step Payload c db (release now job delay error db).1
  failed :
      (now : ℕ) (job : Job Payload) (error : String) (db : Db)
      → ¬ IsHolder c job
      → Step Payload c db (fail now job error db).1
  retried :
      (moment : ℕ) (max_attempts : ℤ) (f : FailedRow) (db : Db)
      → Step Payload c db (requeue moment max_attempts f db)
  forgot :
      (job_id before : Option ℕ) (db : Db) → Step Payload c db (forget_failed job_id before db).1

pub data Steps (Payload : Type 0) (c : Claim) (db : Db) : Db → Type 0 where
  here : Steps Payload c db db
  next :
      {db' db'' : Db} → Steps Payload c db db' → Step Payload c db' db'' → Steps Payload c db db''

-- A row that the claim holds is not claimable before the deadline.
pub not-claimable :
    (c : Claim) (r : Row) (moment : ℕ) → IsRowOf c r → moment < c.until → claimable moment r ≡ false
unfolding claimable
not-claimable c r moment h before = rw h.deadline (ground arith)

-- The statements of another claim pass the row by.
pub not-holds :
    {Payload : Type 0} (c : Claim) (job : Job Payload) (r : Row)
    → ¬ IsHolder c job
    → r.id ≡ c.id
    → IsRowOf c r
    → holds job r ≡ false
unfolding holds
not-holds c job r other named h =
    ground (arith, h.holder, h.attempt, eq_iff c.worker job.reserved_by)

pub not-owned :
    {Payload : Type 0} (c : Claim) (job : Job Payload) (r : Row)
    → ¬ IsHolder c job
    → r.id ≡ c.id
    → IsRowOf c r
    → (r.id == job.id && owned job.reserved_by job.attempts r) ≡ false
unfolding holds
not-owned c job r other named h = not-holds c job r other named h

not-exhausted :
    (c : Claim) (moment id : ℕ) (r : Row)
    → moment < c.until
    → IsRowOf c r
    → (r.id == id && exhausted moment r) ≡ false
unfolding exhausted claimable
not-exhausted c moment id r before h = rw h.deadline (ground arith)

any-filter :
    (q p : Row → Bool) (xs : List Row)
    → All (λ r. q r ≡ true → p r ≡ true) xs
    → any q xs ≡ true
    → any q (filter p xs) ≡ true
any-filter q p [] keep h = h
any-filter q p (x ∷ xs) keep h = ground (arith, any-filter q p xs keep.1, keep.0)

pub any-update_where :
    (q p : Row → Bool) (f : Row → Row) (xs : List Row)
    → ((r : Row) → q (f r) ≡ q r)
    → any q (update_where p f xs) ≡ any q xs
unfolding update_where
any-update_where q p f [] same = refl
any-update_where q p f (x ∷ xs) same = ground (arith, any-update_where q p f xs same, same x)

any-append : (q : Row → Bool) (xs ys : List Row) → any q xs ≡ true → any q (xs ++ ys) ≡ true
any-append q [] ys h = absurd (cc h)
any-append q (x ∷ xs) ys h = ground (arith, any-append q xs ys)

IsHeld-filter :
    (c : Claim) (p : Row → Bool) (db : Db)
    → ((r : Row) → r.id ≡ c.id → IsRowOf c r → p r ≡ false)
    → IsHeld c db
    → IsHeld c (record db { jobs = filter (λ r. not (p r)) db.jobs })
IsHeld-filter c p db never h = record {
  known = h.known;
  present =
      any-filter _ _ db.jobs
        (All-map _ _ db.jobs
          (λ r held e.
            let named : r.id ≡ c.id = (==_iff r.id c.id).0 e in rw (never r named (held named)))
          h.rows)
        h.present;
  rows = All-filter _ _ db.jobs h.rows;
}

IsHeld-update_where :
    (c : Claim) (p : Row → Bool) (f : Row → Row) (db : Db)
    → ((r : Row) → (f r).id ≡ r.id)
    → ((r : Row) → r.id ≡ c.id → IsRowOf c r → p r ≡ false)
    → IsHeld c db
    → IsHeld c (record db { jobs = update_where p f db.jobs })
IsHeld-update_where c p f db same never h = record {
  known = h.known;
  present = any-update_where _ p f db.jobs (λ r. rw (same r)) ∙ h.present;
  rows =
      All-update_where _ p f db.jobs
        (All-intro _ db.jobs (λ r held hit named.
          let here : r.id ≡ c.id = sym (same r) ∙ named in
          absurd (cc (never r here (held here), hit))))
        h.rows;
}

IsHeld-append :
    (c : Claim) (r : Row) (db : Db) (kept : List FailedRow)
    → r.id ≡ db.next_id
    → IsHeld c db
    → IsHeld c (record db { jobs = db.jobs ++ r ∷ []; failed = kept; next_id = db.next_id + 1 })
IsHeld-append c r db kept e h = record {
  known = omega (arith, h.known);
  present = any-append _ db.jobs (r ∷ []) h.present;
  rows = All-append _ db.jobs (r ∷ []) h.rows ((λ named. absurd (omega (arith, h.known))), tt);
}

IsHeld-move_to_failed :
    (c : Claim) (guard : Row → Bool) (id : ℕ) (error : String) (now : ℕ) (db : Db)
    → ((r : Row) → r.id ≡ c.id → IsRowOf c r → (r.id == id && guard r) ≡ false)
    → IsHeld c db
    → IsHeld c (move_to_failed guard id error now db).1
unfolding move_to_failed
IsHeld-move_to_failed c guard id error now db never h =
    elim (Option-cases (find (λ (r : Row). r.id == id && guard r) db.jobs)) [
      | inl e ↦ rw (e, move_to_failed) h
      | inr (r, e) ↦
          let kept = IsHeld-filter c (λ (r : Row). r.id == id && guard r) db never h in
          rw (e, move_to_failed)
            (record { known = h.known; present = kept.present; rows = kept.rows })
    ]

module _ {Payload : Type 0} (c : Claim) where
  Step-IsHeld : {db db' : Db} → Step Payload c db db' → IsHeld c db → IsHeld c db'
  unfolding claim claimed_row delete release freed fail requeue forget_failed insert_job
  Step-IsHeld (inserted moment payload args db) h =
      elim (Bool-cases (violates db (key_of args.unique))) [
        | inl e ↦
            rw e (record { known = omega (arith, h.known); present = h.present; rows = h.rows })
        | inr e ↦ rw e (IsHeld-append c _ db db.failed refl h)
      ]
  Step-IsHeld (claimed id until worker moment db before) h =
      IsHeld-update_where c _ _ db (λ r. refl)
        (λ r named held. rw (not-claimable c r moment held before) (ground arith)) h
  Step-IsHeld (swept moment id error now db before) h =
      IsHeld-move_to_failed c _ id error now db
        (λ r named held. not-exhausted c moment id r before held) h
  Step-IsHeld (deleted job db other) h =
      IsHeld-filter c (holds job) db (λ r. not-holds c job r other) h
  Step-IsHeld (released now job delay error db other) h =
      IsHeld-update_where c _ _ db (λ r. refl) (λ r. not-holds c job r other) h
  Step-IsHeld (failed now job error db other) h =
      IsHeld-move_to_failed c _ job.id error now db (λ r. not-owned c job r other) h
  Step-IsHeld (retried moment max_attempts f db) h = IsHeld-append c _ db _ refl h
  Step-IsHeld (forgot job_id before db) h = record {
    known = h.known;
    present = h.present;
    rows = h.rows;
  }

  pub Steps-IsHeld : {db db' : Db} → Steps Payload c db db' → IsHeld c db → IsHeld c db'
  Steps-IsHeld here h = h
  Steps-IsHeld (next earlier step) h = Step-IsHeld step (Steps-IsHeld earlier h)
