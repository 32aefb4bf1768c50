-- ===== src/Queue/Pg/Handed.antt =====
-- What a round that hands out a job has done.
use mathlib.Core.Option
use py_app_runner.Prelude.{
  ℕ, ◌+◌, ◌≤◌, String, ◌≡◌, refl, sym, ◌∙◌, subst, inl, inr, Bool, true, false, ◌&&◌, Option, none,
  some, arith, ◌==◌, leb-false→lt, ==_iff, Bool-cases, count, All, All-intro, All-map,
}
use py_app_runner.Prelude.Int.{ℤ, at_least}
use py_app_runner.Queue.Job.{Job}
use py_app_runner.Queue.Pg.Rows.{find-update_where, All-of-filter, count-none, find-All}
use py_app_runner.Queue.Pg.Search.{find_only}
use py_app_runner.Queue.Pg.Order.{first_by-least}
use py_app_runner.Queue.Pg.Tables.{Row, Db, claimable, precedes}
use py_app_runner.Queue.Pg.Reserve.{
  Round, Outcome, eligible, candidate, claimed_row, claim, read, job_of, to_job, on_decoded,
  on_read, on_claim, on_candidate, attempt, take_chars,
}
use py_app_runner.Queue.Pg.WellFormed.{IsWellFormed}
use py_app_runner.Queue.Pg.WellFormed.Reserve.{IsFair, IsCandidate, candidate-IsCandidate}
use py_app_runner.Queue.Pg.Claims.{IsHeld}
use py_app_runner.Queue.Pg.Exclusive.{claim_of, claim-IsHeld}

-- The job is the first eligible row of the queue, in the order of the SELECT, with one attempt more,
-- its payload decoded, and held by the worker until the deadline.
pub record IsHandedOut {Payload : Type 0} (loads : String → Option Payload) (env : Round)
    (queue : String) (timeout : ℤ) (worker : String) (db after : Db) (job : Job Payload)
    : Type 0 where
  pub row : Row
  pub found : read job.id db ≡ some row
  pub fits : eligible queue env.moment env.locked row ≡ true
  pub first :
      All (λ s. eligible queue env.moment env.locked s ≡ true → precedes s row ≡ false) db.jobs
  pub attempt : job.attempts ≡ row.attempts + 1
  pub budget : job.attempts ≤ job.max_attempts
  pub decoded : loads row.payload ≡ some job.payload
  pub holder : job.reserved_by ≡ take_chars 64 worker
  pub held : IsHeld (claim_of job.id (env.moment + at_least 1 timeout) worker row) after

-- A claim that reports success met a claimable row.
claim-true :
    (id until : ℕ) (worker : String) (moment : ℕ) (db : Db) (r : Row)
    → IsWellFormed db
    → read id db ≡ some r
    → (claim id until worker moment db).0 ≡ true
    → claimable moment r ≡ true
unfolding claim read
claim-true id until worker moment db r wf found won = elim (Bool-cases (claimable moment r)) [
  | inl e ↦ e
  | inr e ↦
      let free = λ (s : Row). s.id == id && claimable moment s in
      let none : All (λ s. free s ≡ false) db.jobs =
        All-map _ _ db.jobs
          (λ s only. elim (Bool-cases (s.id == id)) [
            | inl here ↦ rw (here, only ((==_iff s.id id).0 here)) e
            | inr other ↦ rw other refl
          ])
          (find_only db.jobs id wf.apart found) in
      let none_met : count free db.jobs ≡ 0 = count-none free db.jobs none in
      absurd (cc (rw none_met at won))
]

on_decoded-claimed :
    {Payload : Type 0} (env : Round) (worker : String) (r : Row) (o : Option (Job Payload))
    (db : Db) {job : Job Payload} {after : Db}
    → on_decoded env worker r o db ≡ (Outcome.claimed job, after)
    → (o ≡ some job) × (after ≡ db)
unfolding on_decoded
on_decoded-claimed env worker r none db h = absurd (cc h)
on_decoded-claimed env worker r (some job) db h = (cc, cc)

-- What `_to_job` takes from the row.
record IsJobOf {Payload : Type 0} (loads : String → Option Payload) (r : Row) (worker : String)
    (job : Job Payload) : Type 0 where
  id : job.id ≡ r.id
  attempts : job.attempts ≡ r.attempts
  max_attempts : job.max_attempts ≡ r.max_attempts
  decoded : loads r.payload ≡ some job.payload
  holder : job.reserved_by ≡ worker

map-some :
    {A B : Type 0} (f : A → B) (o : Option A) {b : B}
    → Option.map f o ≡ some b
    → (a : A) × (o ≡ some a) × (f a ≡ b)
map-some f none h = absurd (cc h)
map-some f (some a) h = (a, refl, cc)

module _ {Payload : Type 0} (loads : String → Option Payload) where
  to_job-IsJobOf :
      (r : Row) (worker : String) {job : Job Payload}
      → to_job loads r worker ≡ some job
      → IsJobOf loads r worker job
  unfolding to_job
  to_job-IsJobOf r worker h =
      let (p, decoded, same) = map-some (job_of r worker) (loads r.payload) h in
      subst (IsJobOf loads r worker) same (record {
        id = refl;
        attempts = refl;
        max_attempts = refl;
        decoded = decoded;
        holder = refl;
      })

  on_read-claimed :
      (env : Round) (worker : String) (o : Option Row) (db : Db) {job : Job Payload} {after : Db}
      → on_read loads env worker o db ≡ (Outcome.claimed job, after)
      → (r : Row) × (o ≡ some r) × IsJobOf loads r worker job × (after ≡ db)
  unfolding on_read
  on_read-claimed env worker none db h = absurd (cc h)
  on_read-claimed env worker (some r) db h =
      let (made, same) = on_decoded-claimed env worker r (to_job loads r worker) db h in
      (r, refl, to_job-IsJobOf r worker made, same)

  on_claim-claimed :
      (env : Round) (worker : String) (id : ℕ) (o : Bool × Db) {job : Job Payload} {after : Db}
      → on_claim loads env worker id o ≡ (Outcome.claimed job, after)
      → (o.0 ≡ true)
        × ((r : Row) × (read id o.1 ≡ some r)
            × IsJobOf loads r (take_chars 64 worker) job
            × (after ≡ o.1))
  unfolding on_claim
  on_claim-claimed env worker id (false, db) h = absurd (cc h)
  on_claim-claimed env worker id (true, db) h =
      (refl, on_read-claimed env (take_chars 64 worker) (read id db) db h)

-- The row of a claimed job as the claim leaves it.
read-claim :
    (id until : ℕ) (worker : String) (moment : ℕ) (db : Db) (r : Row)
    → IsWellFormed db
    → read id db ≡ some r
    → claimable moment r ≡ true
    → read id (claim id until worker moment db).1
      ≡ some (claimed_row until (take_chars 64 worker) r)
unfolding read claim
read-claim id until worker moment db r wf found free =
    let named : r.id ≡ id =
      (==_iff r.id id).0
        (find-All (λ s. Unit {0}) _ db.jobs found (All-intro _ db.jobs (λ s. tt))).1 in
    find-update_where (λ s. s.id == id) _ (claimed_row until (take_chars 64 worker)) db.jobs
      (λ s. unfold claimed_row in refl) found (ground (arith, free, named))

module _ {Payload : Type 0} (loads : String → Option Payload) where
  handed_claim :
      (env : Round) (queue : String) (timeout : ℤ) (worker : String) (id : ℕ) (db after : Db)
      (job : Job Payload) (c : IsCandidate queue env.moment env.locked db id false)
      → IsJobOf loads
          (claimed_row (env.moment + at_least 1 timeout) (take_chars 64 worker) c.row)
          (take_chars 64 worker)
          job
      → IsHeld (claim_of id (env.moment + at_least 1 timeout) worker c.row) after
      → IsHandedOut loads env queue timeout worker db after job
  unfolding claimed_row
  handed_claim env queue timeout worker id db after job c made held =
      let named : job.id ≡ id = made.id ∙ c.named in
      record {
        row = c.row;
        found = rw named c.found;
        fits = c.fits;
        first = All-of-filter _ _ db.jobs (first_by-least _ c.first);
        attempt = made.attempts;
        budget = omega (arith, made.attempts, made.max_attempts, leb-false→lt _ _ c.budget);
        decoded = made.decoded;
        holder = made.holder;
        held =
            subst (λ v. IsHeld (claim_of v (env.moment + at_least 1 timeout) worker c.row) after)
              (sym named) held;
      }

  candidate_handed :
      (env : Round) (queue : String) (timeout : ℤ) (worker : String) (o : Option (ℕ × Bool))
      (db : Db) {after : Db} {job : Job Payload}
      → candidate queue env.moment env.locked db ≡ o
      → IsFair queue env
      → IsWellFormed db
      → on_candidate loads env timeout worker o db ≡ (Outcome.claimed job, after)
      → IsHandedOut loads env queue timeout worker db after job
  unfolding on_candidate
  candidate_handed env queue timeout worker none db e fair wf h = absurd (cc h)
  candidate_handed env queue timeout worker (some (id, true)) db e fair wf h = absurd (cc h)
  candidate_handed env queue timeout worker (some (id, false)) db {after} {job} e fair wf h =
      let until = env.moment + at_least 1 timeout in
      let c = candidate-IsCandidate queue env.moment env.locked db id false wf e in
      let there = fair.keeps_locked db id false e ∙ c.found in
      let wf' = fair.meanwhile db wf in
      let (won, rest) =
        on_claim-claimed loads env worker id (claim id until worker env.moment (env.meanwhile db))
          h in
      let (r, found, made, same) = rest in
      let free = claim-true id until worker env.moment (env.meanwhile db) c.row wf' there won in
      let left = read-claim id until worker env.moment (env.meanwhile db) c.row wf' there free in
      let row : r ≡ claimed_row until (take_chars 64 worker) c.row = cc (found, left) in
      let job_of_row = subst (λ v. IsJobOf loads v (take_chars 64 worker) job) row made in
      handed_claim env queue timeout worker id db after job c job_of_row (
        subst (IsHeld (claim_of id until worker c.row)) (sym same)
          (claim-IsHeld id until worker env.moment (env.meanwhile db) c.row wf' there free))

  -- A fair round that hands out a job hands out the first eligible row of its queue in the order
  -- priority DESC, available_at, id; the job has that row's payload decoded and one attempt more
  -- than it, within its budget, and is held by the worker until the moment plus the timeout.
  pub attempt-IsHandedOut :
      (env : Round) (queue : String) (timeout : ℤ) (worker : String) (db after : Db)
      (job : Job Payload)
      → IsFair queue env
      → IsWellFormed db
      → attempt loads env queue timeout worker db ≡ (Outcome.claimed job, after)
      → IsHandedOut loads env queue timeout worker (env.before db) after job
  unfolding attempt
  attempt-IsHandedOut env queue timeout worker db after job fair wf h =
      candidate_handed env queue timeout worker _ (env.before db) refl fair (fair.before db wf) h
