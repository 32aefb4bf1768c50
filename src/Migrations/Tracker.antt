-- ===== src/Migrations/Tracker.antt =====
-- tracker.py and tracker_sqlite.py: the tracking table, and the database around it.
use py_app_runner.Prelude.{
  ℕ, String, ◌≡◌, refl, Bool, ◌||◌, Option, none, some, List, [], ◌∷◌, ◌++◌, map, str_eq, ◌==◌,
  if◌then◌else◌, if_both, any, count,
}
use py_app_runner.Migrations.Discovery.{MigrationFile}
use py_app_runner.Migrations.States.{AppliedRow}

-- `schema` is everything but the tracking rows.
pub record Db (S : Type 0) : Type 0 where
  pub schema : S
  pub rows : List AppliedRow

-- The connection, the directory and the clock. `execute` runs a text with the foreign keys enforced
-- or not, and says whether it raised; a statement that raised may have changed the schema. An insert
-- into the tracking table may raise for a reason of its own, such as a connection that is lost.
pub record Env (S : Type 0) : Type 0 where
  pub autocommit : Bool
  pub is_sqlite : Bool
  pub table_usable : Bool
  pub is_dir : Bool
  pub loads : List (Option MigrationFile)
  pub execute : Bool → List ℕ → S → Bool × S
  pub insert_raises : AppliedRow → Bool
  pub foreign_keys_hold : S → Bool
  pub duration_ms : MigrationFile → ℕ

abbrev pub row_for : MigrationFile → ℕ → String → AppliedRow
row_for file duration applied_by = record {
  name = file.name;
  checksum = file.checksum;
  duration_ms = duration;
  applied_by = applied_by;
}

module _ {S : Type 0} where
  -- INSERT, which UNIQUE refuses where the name has a row, and which may raise otherwise
  unfoldable pub record_row : (AppliedRow → Bool) → AppliedRow → Db S → Option (Db S)
  record_row raises row db =
      if raises row || any (λ r. str_eq r.name row.name) db.rows
      then none
      else some (record db { rows = db.rows ++ row ∷ [] })

  -- UPDATE ... SET checksum, with rowcount == 1
  unfoldable pub update_checksum : String → String → Db S → Bool × Db S
  update_checksum name checksum db = (
    count (λ r. str_eq r.name name) db.rows == 1,
    record db {
      rows = map (λ r. if str_eq r.name name then record r { checksum = checksum } else r) db.rows;
    },
  )

  -- What an insert leaves where it succeeds: the row at the end, and nothing else changed.
  unfoldable pub Recorded : AppliedRow → Db S → Option (Db S) → Type 0
  Recorded row db none = Unit
  Recorded row db (some after) = after ≡ record db { rows = db.rows ++ row ∷ [] }

  pub record_row-Recorded :
      (raises : AppliedRow → Bool) (row : AppliedRow) (db : Db S)
      → Recorded row db (record_row raises row db)
  unfolding record_row Recorded
  record_row-Recorded raises row db =
      if_both (Recorded row db) (raises row || any (λ r. str_eq r.name row.name) db.rows) tt refl
