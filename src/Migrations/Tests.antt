-- ===== src/Migrations/Tests.antt =====
-- The migration commands on a concrete directory and a database that counts what ran.
use py_app_runner.Prelude.{
  ℕ, ◌+◌, ◌≡◌, refl, Bool, true, false, none, some, List, [], ◌∷◌, map, str_eq, length, AllPairs,
}
use py_app_runner.Migrations.Text.{
  find_meta_commands, count_statements, split_on, onto_first, is_meta_command, meta_lines,
  without_comments,
}
use py_app_runner.Migrations.Discovery.{
  MigrationFile, discover, all_loaded, repeats, without_repeats,
}
use py_app_runner.Migrations.Distinct.{Apart, discover-distinct}
use py_app_runner.Migrations.States.{
  AppliedRow, compute_states, pending, blocking, entry, sorted_names, insert_name, file_named,
  row_named, find_last, or_else, state_of, is_pending, is_blocking,
}
use py_app_runner.Migrations.Tracker.{Db, Env, record_row}
use py_app_runner.Migrations.Apply.{
  cmd_apply, on_states, on_queue, apply_all, apply_file, after_execute, concluded, keys_hold,
  settled_or, enforced, refuses, select, files_of, load_states,
}
use py_app_runner.Migrations.Baseline.{
  yes, on_loaded, on_candidates, on_chosen, choose, stamp, unless_raised, in_transaction, written,
  cmd_baseline,
}
use py_app_runner.Migrations.Landed.{Applied, cmd_apply-Applied}
use py_app_runner.Migrations.Backed.{IsBacked, compute_states-IsBacked}
use py_app_runner.Migrations.Stamped.{Stamped, cmd_baseline-Stamped}

abbrev users : MigrationFile
users = record {
  name = "2024-01-01-000000-users.sql";
  prefix = "2024-01-01-000000";
  sql = 83 ∷ 59 ∷ [];
  checksum = "aa";
  no_transaction = false;
  foreign_keys_off = false;
}

-- a file that raises halfway
abbrev broken : MigrationFile
broken = record {
  name = "2024-02-01-000000-broken.sql";
  prefix = "2024-02-01-000000";
  sql = [];
  checksum = "bb";
  no_transaction = false;
  foreign_keys_off = false;
}

abbrev run_text : List ℕ → ℕ → Bool × ℕ
run_text [] schema = (false, schema + 1)
run_text (c ∷ cs) schema = (true, schema + length (c ∷ cs))

abbrev directory : Env ℕ
directory = record {
  autocommit = true;
  is_sqlite = false;
  table_usable = true;
  is_dir = true;
  loads = some users ∷ some broken ∷ [];
  execute = λ enforced sql schema. run_text sql schema;
  insert_raises = λ row. false;
  foreign_keys_hold = λ schema. true;
  duration_ms = λ file. 7;
}

abbrev fresh : Db ℕ
fresh = record { schema = 0; rows = [] }

abbrev users_row : ℕ → AppliedRow
users_row duration = record {
  name = users.name;
  checksum = "aa";
  duration_ms = duration;
  applied_by = "ops";
}

-- The first file lands, the second is rolled back and stops the run.
stops_at_broken :
    cmd_apply directory false none "ops" fresh ≡ (1, record { schema = 2; rows = users_row 7 ∷ [] })
unfolding cmd_apply on_states on_queue apply_all apply_file after_execute concluded keys_hold
    settled_or enforced refuses select files_of load_states record_row compute_states pending
    blocking entry sorted_names insert_name file_named row_named find_last or_else state_of
    is_pending is_blocking discover all_loaded repeats without_repeats find_meta_commands
    count_statements split_on onto_first is_meta_command meta_lines without_comments
stops_at_broken = refl

-- The second row cannot be written, and the first is rolled back.
baseline_rolled_back :
    cmd_baseline
      (record directory { insert_raises = λ row. str_eq row.name broken.name })
      none
      true
      (λ file. yes)
      "ops"
      fresh
    ≡ (1, fresh)
unfolding cmd_baseline on_loaded on_candidates on_chosen choose stamp unless_raised in_transaction
    written select files_of load_states record_row compute_states pending entry sorted_names
    insert_name file_named row_named find_last or_else state_of is_pending discover all_loaded
    repeats without_repeats
baseline_rolled_back = refl

two_statements : count_statements (83 ∷ 59 ∷ 45 ∷ 45 ∷ 59 ∷ 10 ∷ 84 ∷ []) ≡ 2
unfolding count_statements split_on onto_first without_comments
two_statements = refl

loads_two : discover true (some users ∷ some broken ∷ []) ≡ some (users ∷ broken ∷ [])
unfolding discover all_loaded repeats without_repeats
loads_two = refl

discover-distinct_example :
    ((some users ∷ some broken ∷ []) ≡ map some (users ∷ broken ∷ []))
    × AllPairs Apart (users ∷ broken ∷ [])
discover-distinct_example =
    discover-distinct true (some users ∷ some broken ∷ []) (users ∷ broken ∷ []) loads_two

cmd_apply-Applied_example :
    Applied directory "ops" none fresh (cmd_apply directory false none "ops" fresh)
cmd_apply-Applied_example = cmd_apply-Applied directory "ops" false none fresh

cmd_baseline-Stamped_example :
    Stamped directory
      (λ file. yes)
      "ops"
      false
      none
      fresh
      (cmd_baseline directory none false (λ file. yes) "ops" fresh)
cmd_baseline-Stamped_example = cmd_baseline-Stamped directory (λ file. yes) "ops" false none fresh

nothing_blocks : length (blocking (compute_states (users ∷ broken ∷ []) (users_row 7 ∷ []))) ≡ 0
unfolding compute_states blocking entry sorted_names insert_name file_named row_named find_last
    or_else state_of is_blocking
nothing_blocks = refl

compute_states-IsBacked_example :
    IsBacked (users ∷ broken ∷ []) (users_row 7 ∷ []) "2024-01-01-000000-users.sql"
compute_states-IsBacked_example =
    compute_states-IsBacked (users ∷ broken ∷ []) (users_row 7 ∷ []) "2024-01-01-000000-users.sql"
      nothing_blocks refl
