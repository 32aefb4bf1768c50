-- ===== src/Migrations/States.antt =====
-- states.py: the union of the files and the tracking rows, and the states that matter.
use py_app_runner.Prelude.{
  ℕ, String, Bool, true, false, Option, none, some, List, [], ◌∷◌, ◌++◌, map, str_eq, if◌then◌else◌,
  filter,
}
use Prim.Native.String.{compare as compare_text}
use text.Mathlib.Text.{is_lt}
use py_app_runner.Migrations.Discovery.{MigrationFile}

pub record AppliedRow : Type 0 where
  pub name : String
  pub checksum : String
  pub duration_ms : ℕ
  pub applied_by : String

pub data State : Type 0 where
  applied pending_state drift missing : State

pub record MigrationState : Type 0 where
  pub name : String
  pub state : State
  pub file : Option MigrationFile
  pub row : Option AppliedRow

-- sorted(set(names)), one name at a time
unfoldable pub insert_name : String → List String → List String
insert_name name [] = name ∷ []
insert_name name (other ∷ others) =
    let rest = insert_name name others in
    if str_eq name other
    then other ∷ others
    else if is_lt (compare_text name other)
    then name ∷ other ∷ others
    else other ∷ rest

unfoldable pub sorted_names : List String → List String
sorted_names [] = []
sorted_names (name ∷ names) = insert_name name (sorted_names names)

-- the first, and the second where there is no first
unfoldable pub or_else : {A : Type 0} → Option A → Option A → Option A
or_else (some x) other = some x
or_else none other = other

-- the value that a dict built from the list keeps: the last one
unfoldable pub find_last : {A : Type 0} → (A → Bool) → List A → Option A
find_last p [] = none
find_last p (x ∷ xs) = or_else (find_last p xs) (if p x then some x else none)

unfoldable pub file_named : List MigrationFile → String → Option MigrationFile
file_named files name = find_last (λ file. str_eq file.name name) files

unfoldable pub row_named : List AppliedRow → String → Option AppliedRow
row_named rows name = find_last (λ row. str_eq row.name name) rows

unfoldable pub state_of : Option MigrationFile → Option AppliedRow → State
state_of none row = missing
state_of (some file) none = pending_state
state_of (some file) (some row) = if str_eq row.checksum file.checksum then applied else drift

unfoldable pub entry : List MigrationFile → List AppliedRow → String → MigrationState
entry files rows name = record {
  name = name;
  state = state_of (file_named files name) (row_named rows name);
  file = file_named files name;
  row = row_named rows name;
}

unfoldable pub compute_states : List MigrationFile → List AppliedRow → List MigrationState
compute_states files rows =
    map (entry files rows)
      (sorted_names (map (λ file. file.name) files ++ map (λ row. row.name) rows))

unfoldable pub is_pending : State → Bool
is_pending pending_state = true
is_pending _ = false

unfoldable pub is_blocking : State → Bool
is_blocking drift = true
is_blocking missing = true
is_blocking _ = false

unfoldable pub pending : List MigrationState → List MigrationState
pending states = filter (λ s. is_pending s.state) states

unfoldable pub blocking : List MigrationState → List MigrationState
blocking states = filter (λ s. is_blocking s.state) states
