-- ===== src/Queue/Pg/Exclusive.antt =====
-- What a successful `_claim` is worth: nobody else claims the job before the deadline, and a worker
-- whose claim was taken over can no longer end it.
use py_app_runner.Prelude.{
  ℕ, ◌+◌, ◌≤◌, ◌<◌, String, ◌≡◌, refl, ◌∙◌, inl, inr, true, false, ◌&&◌, some, arith, ◌==◌, ==_iff,
  Bool-cases, All, All-map,
}
use py_app_runner.Prelude.Int.{ℤ}
use py_app_runner.Queue.Job.{Job}
use py_app_runner.Queue.Pg.Rows.{
  All-updated, update_where-none, count-none, filter-none, find-none, find-any, find-All,
}
use py_app_runner.Queue.Pg.Search.{find_only}
use py_app_runner.Queue.Pg.Tables.{Row, Db, claimable}
use py_app_runner.Queue.Pg.Completion.{move_to_failed, holds, delete, release, fail}
use py_app_runner.Queue.Pg.Reserve.{claimed_row, claim, read, take_chars}
use py_app_runner.Queue.Pg.WellFormed.{IsSound, IsWellFormed}
use py_app_runner.Queue.Pg.Claims.{
  Claim, IsHeld, IsHolder, Steps, Steps-IsHeld, not-claimable, not-holds, any-update_where,
}

-- The claim that `_claim` makes on a row.
abbrev pub claim_of : ℕ → ℕ → String → Row → Claim
claim_of id until worker r = record {
  id = id;
  worker = take_chars 64 worker;
  attempts = r.attempts + 1;
  until = until;
}

taken :
    (id moment : ℕ) (r s : Row)
    → s ≡ r
    → r.id ≡ id
    → claimable moment r ≡ true
    → (s.id == id && claimable moment s) ≡ false
    → ⊥
taken id moment r s same named free miss =
    let missed : (r.id == id && claimable moment r) ≡ false = rw same at miss in ground arith

module _ (id until : ℕ) (worker : String) (moment : ℕ) (db : Db) (r : Row) (wf : IsWellFormed db)
    (found : read id db ≡ some r) where
  pub claim-IsHeld :
      claimable moment r ≡ true
      → IsHeld (claim_of id until worker r) (claim id until worker moment db).1
  unfolding claim claimed_row read
  claim-IsHeld free =
      let only = find_only db.jobs id wf.apart found in
      let (sound, named) = find-All (IsSound db.next_id) _ db.jobs found wf.sound in
      record {
        known = rw (← (==_iff r.id id).0 named) sound.numbered;
        present = any-update_where _ _ _ db.jobs (λ s. refl) ∙ find-any _ db.jobs found;
        rows =
            All-updated _ _ _ db.jobs
              (All-map _ _ db.jobs
                (λ s same hit here. record {
                  deadline = refl;
                  holder = refl;
                  attempt = rw (same here);
                })
                only)
              (All-map _ _ db.jobs
                (λ s same miss here.
                  absurd (taken id moment r s (same here) ((==_iff r.id id).0 named) free miss))
                only);
      }

none_free :
    (c : Claim) (moment : ℕ) (db : Db)
    → IsHeld c db
    → moment < c.until
    → All (λ r. (r.id == c.id && claimable moment r) ≡ false) db.jobs
none_free c moment db h before =
    All-map _ _ db.jobs
      (λ r held. elim (Bool-cases (r.id == c.id)) [
        | inl e ↦ rw e (not-claimable c r moment (held ((==_iff r.id c.id).0 e)) before)
        | inr e ↦ rw e refl
      ])
      h.rows

-- No statement claims the job while it is held and its deadline lies ahead.
pub claim-IsHeld_fails :
    (c : Claim) (until : ℕ) (worker : String) (moment : ℕ) (db : Db)
    → IsHeld c db
    → moment < c.until
    → claim c.id until worker moment db ≡ (false, db)
unfolding claim
claim-IsHeld_fails c until worker moment db h before =
    let none = none_free c moment db h before in
    rw (
      count-none _ db.jobs none,
      update_where-none _ (claimed_row until (take_chars 64 worker)) db.jobs none,
    )

module _ {Payload : Type 0} (c : Claim) (db : Db) (h : IsHeld c db) (job : Job Payload)
    (other : ¬ IsHolder c job) (named : job.id ≡ c.id) where
  none_held : All (λ r. holds job r ≡ false) db.jobs
  unfolding holds
  none_held =
      All-map _ _ db.jobs
        (λ r held. elim (Bool-cases (r.id == job.id)) [
          | inl e ↦
              let here : r.id ≡ c.id = (==_iff r.id job.id).0 e ∙ named in
              not-holds c job r other here (held here)
          | inr e ↦ rw e refl
        ])
        h.rows

  stale-delete : delete job db ≡ (false, db)
  unfolding delete
  stale-delete = rw (count-none _ db.jobs none_held, filter-none _ db.jobs none_held)

  stale-release :
      (now : ℕ) (delay : ℤ) (error : String) → release now job delay error db ≡ (false, db)
  unfolding release
  stale-release now delay error =
      rw (count-none _ db.jobs none_held, update_where-none _ _ db.jobs none_held)

  stale-fail : (now : ℕ) (error : String) → fail now job error db ≡ (false, db)
  unfolding fail holds
  stale-fail now error = rw (find-none _ db.jobs none_held, move_to_failed)

module _ {Payload : Type 0} (id until : ℕ) (worker : String) (moment : ℕ) (db : Db) (r : Row)
    (wf : IsWellFormed db) (found : read id db ≡ some r) (free : claimable moment r ≡ true)
    (db' : Db)
    (between : Steps Payload
      (claim_of id until worker r)
      (claim id until worker moment db).1
      db') where
  held_since : IsHeld (claim_of id until worker r) db'
  held_since = Steps-IsHeld _ between (claim-IsHeld id until worker moment db r wf found free)

  -- After a claim of a claimable row, and whatever statements other connections send before its
  -- deadline, a further claim of the same job before the deadline fails and changes nothing.
  pub claim_exclusive :
      (until' : ℕ) (worker' : String) (moment' : ℕ)
      → moment' < until
      → claim id until' worker' moment' db' ≡ (false, db')
  claim_exclusive until' worker' moment' before =
      claim-IsHeld_fails (claim_of id until worker r) until' worker' moment' db' held_since before

  -- A worker that was handed the job in an earlier attempt can neither delete, release nor fail it
  -- once another worker has claimed it: each call reports that it met no row, and changes nothing.
  pub taken_over :
      (job : Job Payload)
      → job.id ≡ id
      → job.attempts ≤ r.attempts
      → (delete job db' ≡ (false, db'))
        × ((now : ℕ) (delay : ℤ) (error : String) → release now job delay error db' ≡ (false, db'))
        × ((now : ℕ) (error : String) → fail now job error db' ≡ (false, db'))
  taken_over job named earlier =
      let c = claim_of id until worker r in
      let other : ¬ IsHolder c job = λ mine. absurd (omega (arith, mine.2)) in
      (
        stale-delete c db' held_since job other named,
        stale-release c db' held_since job other named,
        stale-fail c db' held_since job other named,
      )
