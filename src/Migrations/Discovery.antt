-- ===== src/Migrations/Discovery.antt =====
-- `MigrationFile` and `discover` of discovery.py.
use py_app_runner.Prelude.{
  ℕ, String, Bool, true, false, ◌||◌, Option, none, some, List, [], ◌∷◌, str_eq, if◌then◌else◌, any,
}

-- `sql` is the file's text, as code points. `path` is not kept.
pub record MigrationFile : Type 0 where
  pub name : String
  pub prefix : String
  pub sql : List ℕ
  pub checksum : String
  pub no_transaction : Bool
  pub foreign_keys_off : Bool

-- [load_migration(path) for path in ...], where each load gives a file or raises
unfoldable pub all_loaded : List (Option MigrationFile) → Option (List MigrationFile)
all_loaded [] = some []
all_loaded (none ∷ files) = none
all_loaded (some file ∷ files) = elim (all_loaded files) [
  | none ↦ none
  | some rest ↦ some (file ∷ rest)
]

-- a prefix that the loop has seen before
unfoldable pub repeats : List String → List MigrationFile → Bool
repeats seen [] = false
repeats seen (file ∷ files) =
    let later = repeats (file.prefix ∷ seen) files in any (str_eq file.prefix) seen || later

-- the loop over what was loaded
unfoldable pub without_repeats : Option (List MigrationFile) → Option (List MigrationFile)
without_repeats none = none
without_repeats (some files) = if repeats [] files then none else some files

-- none where it raises MigrationError
unfoldable pub discover : Bool → List (Option MigrationFile) → Option (List MigrationFile)
discover false loads = none
discover true loads = without_repeats (all_loaded loads)
