-- ===== src/Queue/Pg/WellFormed/Completion.antt =====
-- `delete`, `release`, `fail` and `_move_to_failed` keep the tables well formed.
use py_app_runner.Prelude.{
  ℕ, ◌+◌, String, ◌≡◌, refl, inl, inr, Bool, true, ◌&&◌, [], ◌∷◌, ◌++◌, arith, ◌==◌, Option-cases,
  filter, find, All, All-append, All-intro, All-map, All-filter, AllPairs-filter, AllPairs-snoc,
}
use py_app_runner.Prelude.Int.{ℤ}
use py_app_runner.Queue.Job.{Job}
use py_app_runner.Queue.Pg.Rows.{All-update_where, AllPairs-update_where}
use py_app_runner.Queue.Pg.Tables.{Row, FailedRow, Db, update_where}
use py_app_runner.Queue.Pg.Completion.{move_to_failed, delete, release, fail}
use py_app_runner.Queue.Pg.WellFormed.{IsSound, Apart, IsWellFormed}

IsWellFormed-filter :
    (p : Row → Bool) (db : Db)
    → IsWellFormed db
    → IsWellFormed (record db { jobs = filter p db.jobs })
IsWellFormed-filter p db wf = record {
  sound = All-filter _ p db.jobs wf.sound;
  apart = AllPairs-filter Apart p db.jobs wf.apart;
  failed_numbered = wf.failed_numbered;
  failed_apart = wf.failed_apart;
}

-- An update that leaves ids and keys alone.
pub record KeepsKeys (f : Row → Row) : Type 0 where
  pub id : (r : Row) → (f r).id ≡ r.id
  pub key : (r : Row) → (f r).unique_key ≡ r.unique_key

pub IsWellFormed-update_where :
    (p : Row → Bool) (f : Row → Row) (db : Db)
    → KeepsKeys f
    → All (λ r. IsSound db.next_id r → p r ≡ true → IsSound db.next_id (f r)) db.jobs
    → IsWellFormed db
    → IsWellFormed (record db { jobs = update_where p f db.jobs })
IsWellFormed-update_where p f db same keep wf = record {
  sound = All-update_where _ p f db.jobs keep wf.sound;
  apart =
      AllPairs-update_where Apart p f
        (λ r s a. record { ids = rw (same.id r) a.ids; keys = rw (same.key r) a.keys })
        (λ r s a. record { ids = rw (same.id s) a.ids; keys = rw (same.key s) a.keys }) db.jobs
        wf.apart;
  failed_numbered = wf.failed_numbered;
  failed_apart = wf.failed_apart;
}

moved-IsWellFormed :
    (p : Row → Bool) (f : FailedRow) (db : Db)
    → f.id ≡ db.next_failed_id
    → IsWellFormed db
    → IsWellFormed (record db {
      jobs = filter p db.jobs;
      failed = db.failed ++ f ∷ [];
      next_failed_id = db.next_failed_id + 1;
    })
moved-IsWellFormed p f db e wf = record {
  sound = All-filter _ p db.jobs wf.sound;
  apart = AllPairs-filter Apart p db.jobs wf.apart;
  failed_numbered =
      All-append _ db.failed (f ∷ [])
        (All-map _ _ db.failed (λ g h. omega arith) wf.failed_numbered) (omega arith, tt);
  failed_apart =
      AllPairs-snoc _ db.failed f wf.failed_apart
        (All-map _ _ db.failed (λ g h. omega arith) wf.failed_numbered);
}

pub move_to_failed-IsWellFormed :
    (guard : Row → Bool) (id : ℕ) (error : String) (now : ℕ) (db : Db)
    → IsWellFormed db
    → IsWellFormed (move_to_failed guard id error now db).1
unfolding move_to_failed
move_to_failed-IsWellFormed guard id error now db wf =
    elim (Option-cases (find (λ (r : Row). r.id == id && guard r) db.jobs)) [
      | inl e ↦ rw (e, move_to_failed) wf
      | inr (r, e) ↦ rw (e, move_to_failed) (moved-IsWellFormed _ _ db refl wf)
    ]

module _ {Payload : Type 0} (job : Job Payload) (db : Db) where
  -- Deleting a job leaves the tables well formed.
  pub delete-IsWellFormed : IsWellFormed db → IsWellFormed (delete job db).1
  unfolding delete
  delete-IsWellFormed wf = IsWellFormed-filter _ db wf

  -- Releasing a job leaves the tables well formed: its claim and its holder go together.
  pub release-IsWellFormed :
      (now : ℕ) (delay : ℤ) (error : String)
      → IsWellFormed db
      → IsWellFormed (release now job delay error db).1
  unfolding release
  release-IsWellFormed now delay error wf =
      IsWellFormed-update_where _ _ db (record { id = λ r. refl; key = λ r. refl })
        (All-intro _ db.jobs (λ r s _. record {
          numbered = s.numbered;
          within_budget = s.within_budget;
          has_budget = s.has_budget;
          claim = tt;
        }))
        wf

  pub fail-IsWellFormed :
      (now : ℕ) (error : String) → IsWellFormed db → IsWellFormed (fail now job error db).1
  unfolding fail
  fail-IsWellFormed now error wf = move_to_failed-IsWellFormed _ job.id error now db wf
