-- ===== src/Migrations/Stamped.antt =====
-- `cmd_baseline`: nothing runs, and the rows are written all together or not at all; and `cmd_repair`.
use py_app_runner.Prelude.{
  ℕ, String, ◌≡◌, refl, sym, ap, ◌∙◌, Bool, true, false, Option, none, some, List, [], ◌∷◌, ◌++◌,
  map, append-nil, append_assoc, if_both,
}
use py_app_runner.Migrations.Discovery.{MigrationFile}
use py_app_runner.Migrations.States.{AppliedRow, MigrationState}
use py_app_runner.Migrations.Tracker.{Db, Env, row_for, Recorded, record_row-Recorded}
use py_app_runner.Migrations.Apply.{load_states, select}
use py_app_runner.Migrations.Baseline.{
  Answer, choose, stamp, unless_raised, in_transaction, written, on_chosen, on_candidates,
  on_loaded, cmd_baseline,
}

abbrev stamp_of : String → MigrationFile → AppliedRow
stamp_of applied_by file = row_for file 0 applied_by

module _ {S : Type 0} (env : Env S) (prompt : MigrationFile → Answer) (applied_by : String) where
  -- Nothing changed, or the rows of the files that the answers chose were added, in one piece.
  pub data Stamped (assume_yes : Bool) (to : Option String) (db : Db S) : ℕ × Db S → Type 0 where
    kept : (code : ℕ) → Stamped assume_yes to db (code, db)
    stamped :
        {states : List MigrationState} {candidates chosen : List MigrationFile} {after : Db S}
        → load_states env db ≡ some states
        → select env to states ≡ some candidates
        → choose assume_yes prompt candidates ≡ some chosen
        → after.schema ≡ db.schema
        → after.rows ≡ db.rows ++ map (stamp_of applied_by) chosen
        → Stamped assume_yes to db (0, after)

  -- What the loop wrote where it came to its end.
  Stamps : List MigrationFile → Db S → Bool × Db S → Type 0
  Stamps files db (false, after) = Unit
  Stamps files db (true, after) =
      (after.schema ≡ db.schema) × (after.rows ≡ db.rows ++ map (stamp_of applied_by) files)

  later-Stamps :
      (file : MigrationFile) (files : List MigrationFile) (db mid : Db S) (o : Bool × Db S)
      → mid ≡ record db { rows = db.rows ++ stamp_of applied_by file ∷ [] }
      → Stamps files mid o
      → Stamps (file ∷ files) db o
  unfolding Stamps
  later-Stamps file files db mid (false, after) e h = tt
  later-Stamps file files db mid (true, after) e (schema, rows) = (
    schema ∙ ap (λ d. d.schema) e,
    rows
        ∙ ap (λ d. d.rows ++ map (stamp_of applied_by) files) e
        ∙ append_assoc db.rows (stamp_of applied_by file ∷ []) (map (stamp_of applied_by) files),
  )

  raised_or_Stamps :
      (file : MigrationFile) (files : List MigrationFile) (db : Db S) (next : Db S → Bool × Db S)
      (o : Option (Db S))
      → ((mid : Db S) → Stamps files mid (next mid))
      → Recorded (stamp_of applied_by file) db o
      → Stamps (file ∷ files) db (unless_raised env next db o)
  unfolding unless_raised Recorded Stamps
  raised_or_Stamps file files db next none k r = tt
  raised_or_Stamps file files db next (some mid) k r = later-Stamps file files db mid _ r (k mid)

  stamp-Stamps :
      (files : List MigrationFile) (db : Db S) → Stamps files db (stamp env files applied_by db)
  unfolding stamp Stamps
  stamp-Stamps [] db = (refl, sym (append-nil db.rows))
  stamp-Stamps (file ∷ files) db =
      raised_or_Stamps file files db _ _ (stamp-Stamps files) (record_row-Recorded _ _ db)

  written-Stamped :
      (assume_yes : Bool) (to : Option String) (db : Db S) (states : List MigrationState)
      (candidates chosen : List MigrationFile) (o : Bool × Db S)
      → load_states env db ≡ some states
      → select env to states ≡ some candidates
      → choose assume_yes prompt candidates ≡ some chosen
      → Stamps chosen db o
      → Stamped assume_yes to db (written env (in_transaction env db o))
  unfolding written in_transaction Stamps
  written-Stamped assume_yes to db states candidates chosen (false, after) l e c h = kept 1
  written-Stamped assume_yes to db states candidates chosen (true, after) l e c (schema, rows) =
      stamped l e c schema rows

  on_chosen-Stamped :
      (assume_yes : Bool) (to : Option String) (db : Db S) (states : List MigrationState)
      (candidates : List MigrationFile) (o : Option (List MigrationFile))
      → load_states env db ≡ some states
      → select env to states ≡ some candidates
      → choose assume_yes prompt candidates ≡ o
      → Stamped assume_yes to db (on_chosen env applied_by db o)
  unfolding on_chosen
  on_chosen-Stamped assume_yes to db states candidates none l e c = kept 1
  on_chosen-Stamped assume_yes to db states candidates (some chosen) l e c =
      written-Stamped assume_yes to db states candidates chosen _ l e c (stamp-Stamps chosen db)

  on_candidates-Stamped :
      (assume_yes : Bool) (to : Option String) (db : Db S) (states : List MigrationState)
      (o : Option (List MigrationFile))
      → load_states env db ≡ some states
      → select env to states ≡ o
      → Stamped assume_yes to db (on_candidates env assume_yes prompt applied_by db o)
  unfolding on_candidates
  on_candidates-Stamped assume_yes to db states none l e = kept 1
  on_candidates-Stamped assume_yes to db states (some []) l e = kept 0
  on_candidates-Stamped assume_yes to db states (some (file ∷ files)) l e =
      on_chosen-Stamped assume_yes to db states (file ∷ files) _ l e refl

  on_loaded-Stamped :
      (assume_yes : Bool) (to : Option String) (db : Db S) (o : Option (List MigrationState))
      → load_states env db ≡ o
      → Stamped assume_yes to db (on_loaded env to assume_yes prompt applied_by db o)
  unfolding on_loaded
  on_loaded-Stamped assume_yes to db none l = kept 1
  on_loaded-Stamped assume_yes to db (some states) l =
      on_candidates-Stamped assume_yes to db states _ l refl

  -- `cmd_baseline` runs nothing, and is all or nothing: the database is as it was, or the answers
  -- chose files among the candidates, none of them with `q`, and the rows of exactly those files
  -- follow the old rows, with the schema untouched and exit code 0.
  pub cmd_baseline-Stamped :
      (assume_yes : Bool) (to : Option String) (db : Db S)
      → Stamped assume_yes to db (cmd_baseline env to assume_yes prompt applied_by db)
  unfolding cmd_baseline
  cmd_baseline-Stamped assume_yes to db =
      if_both (Stamped assume_yes to db) env.autocommit (on_loaded-Stamped assume_yes to db _ refl)
        (kept 1)
