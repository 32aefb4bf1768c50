-- ===== src/Migrations/Apply.antt =====
-- `_load_states`, `cmd_apply` and `cmd_repair` of commands.py, without what they print.
use py_app_runner.Prelude.{
  ℕ, String, Bool, true, false, not, ◌&&◌, ◌||◌, Option, none, some, List, [], ◌∷◌, str_eq, ltb,
  if◌then◌else◌, length, filter, any,
}
use Prim.Native.String.{compare as compare_text}
use text.Mathlib.Text.{is_le}
use py_app_runner.Migrations.Text.{find_meta_commands, count_statements}
use py_app_runner.Migrations.Discovery.{MigrationFile, discover}
use py_app_runner.Migrations.States.{MigrationState, compute_states, pending, blocking}
use py_app_runner.Migrations.Tracker.{Db, Env, row_for, record_row, update_checksum}

module _ {S : Type 0} (env : Env S) where
  -- none where it raises MigrationError
  unfoldable pub load_states : Db S → Option (List MigrationState)
  load_states db =
      if env.table_usable
      then elim (discover env.is_dir env.loads) [
        | none ↦ none
        | some files ↦ some (compute_states files db.rows)
      ]
      else none

  -- the files of the states; the assertion that a pending state has one never fails
  unfoldable pub files_of : List MigrationState → List MigrationFile
  files_of [] = []
  files_of (s ∷ states) = elim s.file [
    | none ↦ files_of states
    | some file ↦ file ∷ files_of states
  ]

  -- The pending files up to the prefix `to`; none where no state's file has that prefix.
  unfoldable pub select : Option String → List MigrationState → Option (List MigrationFile)
  select none states = some (files_of (pending states))
  select (some to) states =
      if any (λ file. str_eq file.prefix to) (files_of states)
      then some (filter (λ file. is_le (compare_text file.prefix to)) (files_of (pending states)))
      else none

  -- what the first loop over the queue returns 1 for
  unfoldable pub refuses : MigrationFile → Bool
  refuses file =
      ltb 0 (length (find_meta_commands file.sql))
      || file.no_transaction && ltb 1 (count_statements file.sql)
      || file.foreign_keys_off && not env.is_sqlite

  unfoldable pub enforced : MigrationFile → Bool
  enforced file = not (file.foreign_keys_off && env.is_sqlite)

  -- the commit of a transaction, or its rollback
  unfoldable pub settled_or : Db S → Option (Db S) → Bool × Db S
  settled_or before none = (false, before)
  settled_or before (some after) = (true, after)

  -- without a transaction, or as the end of one: what ran, what holds and what was recorded
  unfoldable pub concluded : Bool → Bool → Bool → Db S → Db S → Option (Db S) → Bool × Db S
  concluded true false holds before after recorded = (false, after)
  concluded true true holds before after recorded = settled_or after recorded
  concluded false false holds before after recorded = (false, before)
  concluded false true false before after recorded = (false, before)
  concluded false true true before after recorded = settled_or before recorded

  -- `_check_foreign_keys`, where the file asks for it
  unfoldable pub keys_hold : MigrationFile → S → Bool
  keys_hold file schema =
      not file.foreign_keys_off || not env.is_sqlite || env.foreign_keys_hold schema

  unfoldable pub after_execute : MigrationFile → String → Bool × S → Db S → Bool × Db S
  after_execute file applied_by (ok, schema) db =
      let after = record db { schema = schema } in
      concluded file.no_transaction ok (keys_hold file schema) db after
        (record_row env.insert_raises (row_for file (env.duration_ms file) applied_by) after)

  -- one turn of the second loop: whether it went on, and the database after it
  unfoldable pub apply_file : MigrationFile → String → Db S → Bool × Db S
  apply_file file applied_by db =
      after_execute file applied_by
        (env.execute (if file.no_transaction then true else enforced file) file.sql db.schema) db

  unfoldable pub apply_all : List MigrationFile → String → Db S → ℕ × Db S
  apply_all [] applied_by db = (0, db)
  apply_all (file ∷ files) applied_by db =
      let (ok, after) = apply_file file applied_by db in
      let rest = apply_all files applied_by after in if ok then rest else (1, after)

  unfoldable pub on_queue : Bool → String → Db S → Option (List MigrationFile) → ℕ × Db S
  on_queue dry_run applied_by db none = (1, db)
  on_queue dry_run applied_by db (some queue) =
      if any refuses queue
      then (1, db)
      else if dry_run
      then (0, db)
      else apply_all queue applied_by db

  unfoldable pub on_states :
      Bool → Option String → String → Db S → Option (List MigrationState) → ℕ × Db S
  on_states dry_run to applied_by db none = (1, db)
  on_states dry_run to applied_by db (some states) =
      if ltb 0 (length (blocking states))
      then (1, db)
      else on_queue dry_run applied_by db (select to states)

  -- the exit code and the database; the lock is held throughout
  unfoldable pub cmd_apply : Bool → Option String → String → Db S → ℕ × Db S
  cmd_apply dry_run to applied_by db =
      if env.autocommit then on_states dry_run to applied_by db (load_states db) else (1, db)

  -- the end of `cmd_repair`, where the file has been found and loaded
  unfoldable pub repair_loaded : MigrationFile → Db S → ℕ × Db S
  repair_loaded file db =
      let (found, after) = update_checksum file.name file.checksum db in
      (if found then 0 else 1, after)

  -- `is_plain` says that the name is a bare file name, and `loaded` what `load_migration` gives for
  -- the file of that name, with none where there is no such file or it raises.
  unfoldable pub cmd_repair : Bool → Option MigrationFile → Db S → ℕ × Db S
  cmd_repair is_plain none db = (1, db)
  cmd_repair is_plain (some file) db =
      if env.autocommit && is_plain && env.table_usable then repair_loaded file db else (1, db)
