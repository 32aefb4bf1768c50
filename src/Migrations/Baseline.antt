-- ===== src/Migrations/Baseline.antt =====
-- `cmd_status` and `cmd_baseline` of commands.py, without what they print.
use py_app_runner.Prelude.{
  ℕ, String, Bool, true, false, ◌&&◌, ◌||◌, Option, none, some, List, [], ◌∷◌, ltb, if◌then◌else◌,
  length,
}
use py_app_runner.Migrations.Discovery.{MigrationFile}
use py_app_runner.Migrations.States.{MigrationState, pending, blocking}
use py_app_runner.Migrations.Tracker.{Db, Env, row_for, record_row}
use py_app_runner.Migrations.Apply.{load_states, select}

-- An answer to the prompt, stripped and in lower case.
pub data Answer : Type 0 where
  yes all_of_them quit other : Answer

abbrev chosen_first : MigrationFile → Option (List MigrationFile) → Option (List MigrationFile)
chosen_first file none = none
chosen_first file (some files) = some (file ∷ files)

-- The files that the answers choose; none where one of them is `q`. The prompt answers for a file.
unfoldable pub choose :
    Bool → (MigrationFile → Answer) → List MigrationFile → Option (List MigrationFile)
choose stamp_rest prompt [] = some []
choose true prompt (file ∷ files) = chosen_first file (choose true prompt files)
choose false prompt (file ∷ files) =
    let others = choose false prompt files in
    let everything = choose true prompt files in
    elim (prompt file) [
      | quit ↦ none
      | all_of_them ↦ chosen_first file everything
      | yes ↦ chosen_first file others
      | other ↦ others
    ]

module _ {S : Type 0} (env : Env S) where
  unfoldable pub unless_raised : (Db S → Bool × Db S) → Db S → Option (Db S) → Bool × Db S
  unless_raised next before none = (false, before)
  unless_raised next before (some after) = next after

  -- The loop of `tracker.record`: whether it came to its end, and what it wrote until then.
  unfoldable pub stamp : List MigrationFile → String → Db S → Bool × Db S
  stamp [] applied_by db = (true, db)
  stamp (file ∷ files) applied_by db =
      unless_raised (stamp files applied_by) db
        (record_row env.insert_raises (row_for file 0 applied_by) db)

  -- conn.transaction(): what was written before an exception is rolled back
  unfoldable pub in_transaction : Db S → Bool × Db S → Bool × Db S
  in_transaction before (true, after) = (true, after)
  in_transaction before (false, partial) = (false, before)

  unfoldable pub written : Bool × Db S → ℕ × Db S
  written (true, after) = (0, after)
  written (false, after) = (1, after)

  unfoldable pub on_chosen : String → Db S → Option (List MigrationFile) → ℕ × Db S
  on_chosen applied_by db none = (1, db)
  on_chosen applied_by db (some files) = written (in_transaction db (stamp files applied_by db))

  unfoldable pub on_candidates :
      Bool → (MigrationFile → Answer) → String → Db S → Option (List MigrationFile) → ℕ × Db S
  on_candidates assume_yes prompt applied_by db none = (1, db)
  on_candidates assume_yes prompt applied_by db (some []) = (0, db)
  on_candidates assume_yes prompt applied_by db (some (file ∷ files)) =
      on_chosen applied_by db (choose assume_yes prompt (file ∷ files))

  unfoldable pub on_loaded :
      Option String
      → Bool
      → (MigrationFile → Answer)
      → String
      → Db S
      → Option (List MigrationState)
      → ℕ × Db S
  on_loaded to assume_yes prompt applied_by db none = (1, db)
  on_loaded to assume_yes prompt applied_by db (some states) =
      on_candidates assume_yes prompt applied_by db (select env to states)

  unfoldable pub cmd_baseline :
      Option String → Bool → (MigrationFile → Answer) → String → Db S → ℕ × Db S
  cmd_baseline to assume_yes prompt applied_by db =
      if env.autocommit
      then on_loaded to assume_yes prompt applied_by db (load_states env db)
      else (1, db)

  -- the exit code; `check` asks for 1 where anything is left to do
  unfoldable pub status_code : Bool → Option (List MigrationState) → ℕ
  status_code check none = 1
  status_code check (some states) =
      if check && (ltb 0 (length (pending states)) || ltb 0 (length (blocking states)))
      then 1
      else 0

  unfoldable pub cmd_status : Bool → Db S → ℕ
  cmd_status check db = status_code check (load_states env db)
