-- ===== src/Queue/Pg/Conserved.antt =====
-- `fail` and `_move_to_failed`: no job is lost on its way to the failed table.
use py_app_runner.Prelude.{
  ℕ, String, ◌≡◌, refl, sym, ap, ◌∙◌, subst, ◌⊎◌, inl, inr, Bool, true, false, not, ◌&&◌, none,
  some, List, [], ◌∷◌, ◌++◌, str_eq, eq_iff, ◌==◌, ==_iff, Bool-cases, Option-cases, &&_true,
  filter, find, All, All-map, AllPairs,
}
use py_app_runner.Queue.Job.{Job}
use py_app_runner.Queue.Errors.{fit_error}
use py_app_runner.Queue.Pg.Tables.{Row, FailedRow, Db, owned}
use py_app_runner.Queue.Pg.Completion.{fail, holds, move_to_failed, failed_row}
use py_app_runner.Queue.Pg.Rows.{filter-none}
use py_app_runner.Queue.Pg.WellFormed.{IsWellFormed, Apart}

module _ (guard : Row → Bool) (id : ℕ) where
  abbrev met : Row → Bool
  met r = r.id == id && guard r

  met-id : (r : Row) → met r ≡ true → r.id ≡ id
  met-id r h = (==_iff r.id id).0 ((&&_true (r.id == id) (guard r) h).0)

  met-Apart :
      (r : Row) (rows : List Row)
      → met r ≡ true
      → All (Apart r) rows
      → All (λ s. met s ≡ false) rows
  met-Apart r rows h apart =
      All-map (Apart r) (λ s. met s ≡ false) rows
        (λ s a. elim (Bool-cases (met s)) [
          | inl e ↦ absurd (a.ids (met-id r h ∙ sym (met-id s e)))
          | inr e ↦ e
        ])
        apart

  -- The row that is found stands between the rows that are kept.
  abbrev Between : List Row → Row → Type 0
  Between rows r =
      (front : List Row) × (back : List Row) × (rows ≡ front ++ r ∷ back)
      × (filter (λ s. not (met s)) rows ≡ front ++ back)
      × (met r ≡ true)

  found-Between :
      (rows : List Row) {r : Row} → AllPairs Apart rows → find met rows ≡ some r → Between rows r
  found-Between [] apart h = absurd (cc h)
  found-Between (x ∷ rows) {r} apart h = elim (Bool-cases (met x)) [
    | inl e ↦
        let same : x ≡ r = cc (rw e at h) in
        (
          [],
          rows,
          ap (λ y. y ∷ rows) same,
          rw e (filter-none met rows (met-Apart x rows e apart.0)),
          subst (λ y. met y ≡ true) same e,
        )
    | inr e ↦
        let (front, back, whole, left, m) = found-Between rows apart.1 (rw e at h) in
        (x ∷ front, back, ap (λ rs. x ∷ rs) whole, rw e (ap (λ rs. x ∷ rs) left), m)
  ]

-- A job of the jobs table became a row of the failed table, and nothing else changed.
pub record IsMoved (worker : String) (attempts id now : ℕ) (error : String) (db db' : Db)
    : Type 0 where
  pub front : List Row
  pub back : List Row
  pub row : Row
  pub entry : FailedRow
  pub stood : db.jobs ≡ front ++ row ∷ back
  pub left : db'.jobs ≡ front ++ back
  pub entered : db'.failed ≡ db.failed ++ entry ∷ []
  pub same_id : row.id ≡ id
  pub claimed_by : row.reserved_by ≡ some worker
  pub same_attempts : row.attempts ≡ attempts
  pub new_id : entry.id ≡ db.next_failed_id
  pub queue : entry.queue ≡ row.queue
  pub name : entry.name ≡ row.name
  pub payload : entry.payload ≡ row.payload
  pub attempted : entry.attempts ≡ row.attempts
  pub error_text : entry.error ≡ fit_error error
  pub failed_at : entry.failed_at ≡ now

owned_by :
    (worker : String) (attempts : ℕ) (r : Row)
    → owned worker attempts r ≡ true
    → (r.reserved_by ≡ some worker) × (r.attempts ≡ attempts)
unfolding owned
owned_by worker attempts r h = elim (Option-cases r.reserved_by) [
  | inl e ↦ absurd (cc (rw e at h))
  | inr (by, e) ↦
      let both = &&_true (str_eq by worker) (r.attempts == attempts) (rw e at h) in
      (e ∙ ap some ((eq_iff by worker).0 both.0), (==_iff r.attempts attempts).0 both.1)
]

move_to_failed-Moves :
    (worker : String) (attempts id : ℕ) (error : String) (now : ℕ) (db : Db)
    → AllPairs Apart db.jobs
    → ((move_to_failed (owned worker attempts) id error now db ≡ (false, db))
        × (find (met (owned worker attempts) id) db.jobs ≡ none))
      ⊎ (((move_to_failed (owned worker attempts) id error now db).0 ≡ true)
          × IsMoved worker attempts id now error db
              (move_to_failed (owned worker attempts) id error now db).1)
unfolding move_to_failed failed_row
move_to_failed-Moves worker attempts id error now db apart =
    let guard = owned worker attempts in
    elim (Option-cases (find (met guard id) db.jobs)) [
      | inl e ↦ rw (e, move_to_failed) (inl (refl, refl))
      | inr (r, e) ↦
          let (front, back, whole, left, m) = found-Between guard id db.jobs apart e in
          let both = &&_true (r.id == id) (guard r) m in
          let (by, tried) = owned_by worker attempts r both.1 in
          rw (e, move_to_failed)
            (inr (
              refl,
              record {
                front = front;
                back = back;
                row = r;
                entry = failed_row db.next_failed_id now error r;
                stood = whole;
                left = left;
                entered = refl;
                same_id = (==_iff r.id id).0 both.0;
                claimed_by = by;
                same_attempts = tried;
                new_id = refl;
                queue = refl;
                name = refl;
                payload = refl;
                attempted = refl;
                error_text = refl;
                failed_at = refl;
              },
            ))
    ]

-- Over well-formed tables `fail` loses no job and moves no other: either no row has the job's id and
-- the job's claim, the answer is false and nothing changes; or the answer is true, one row with the
-- job's id, worker and attempt leaves the jobs, all others staying as they are, and one row enters the
-- failed jobs at their end, with the queue, name, payload and attempts of the row that left, the error
-- cut to its limit and the moment of the call.
pub fail-conserved :
    {Payload : Type 0} (now : ℕ) (job : Job Payload) (error : String) (db : Db)
    → IsWellFormed db
    → ((fail now job error db ≡ (false, db)) × (find (holds job) db.jobs ≡ none))
      ⊎ (((fail now job error db).0 ≡ true)
          × IsMoved job.reserved_by job.attempts job.id now error db (fail now job error db).1)
unfolding fail holds
fail-conserved now job error db wf =
    move_to_failed-Moves job.reserved_by job.attempts job.id error now db wf.apart
