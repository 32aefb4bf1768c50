-- ===== src/Migrations/Landed.antt =====
-- `cmd_apply`: a file and its tracking row land together, and what stops a run leaves the rest out.
use py_app_runner.Prelude.{
  ℕ, String, ◌≡◌, refl, sym, ap, ◌∙◌, ◌⊎◌, inl, inr, Bool, true, false, Option, none, some, List,
  [], ◌∷◌, ◌++◌, arith, ltb, if◌then◌else◌, Bool-cases, if_both, length, any,
}
use py_app_runner.Migrations.Discovery.{MigrationFile}
use py_app_runner.Migrations.States.{AppliedRow, MigrationState, blocking}
use py_app_runner.Migrations.Tracker.{Db, Env, row_for, Recorded, record_row-Recorded}
use py_app_runner.Migrations.Apply.{
  load_states, select, refuses, settled_or, enforced, concluded, after_execute, apply_file,
  apply_all, on_queue, on_states, cmd_apply,
}

module _ {S : Type 0} (env : Env S) (applied_by : String) where
  abbrev pub recorded_as : MigrationFile → AppliedRow
  recorded_as file = row_for file (env.duration_ms file) applied_by

  abbrev pub run_of : MigrationFile → S → Bool × S
  run_of file schema =
      env.execute (if file.no_transaction then true else enforced env file) file.sql schema

  -- A file that landed: its SQL ran without raising, and its row is the one new row.
  pub record HasLanded (file : MigrationFile) (before after : Db S) : Type 0 where
    pub ran : (run_of file before.schema).0 ≡ true
    pub schema : after.schema ≡ (run_of file before.schema).1
    pub rows : after.rows ≡ before.rows ++ recorded_as file ∷ []

  -- A file that did not: no row, and no other trace unless the file opted out of its transaction.
  pub record HasFailed (file : MigrationFile) (before after : Db S) : Type 0 where
    pub rows : after.rows ≡ before.rows
    pub kept : (file.no_transaction ≡ true) ⊎ (after ≡ before)

  -- Files that land one after the other.
  pub data AllLanded : List MigrationFile → Db S → Db S → Type 0 where
    no_more : {db : Db S} → AllLanded [] db db
    one_more :
        {file : MigrationFile} {files : List MigrationFile} {before mid after : Db S}
        → HasLanded file before mid
        → AllLanded files mid after
        → AllLanded (file ∷ files) before after

  -- How a run over a queue ends: all of it landed, or what precedes the file that failed.
  pub data RunOf (queue : List MigrationFile) (before : Db S) : ℕ × Db S → Type 0 where
    complete : {after : Db S} → AllLanded queue before after → RunOf queue before (0, after)
    stopped :
        {landed : List MigrationFile} {file : MigrationFile} {mid after : Db S}
        (left : List MigrationFile)
        → queue ≡ landed ++ file ∷ left
        → AllLanded landed before mid
        → HasFailed file mid after
        → RunOf queue before (1, after)

  Landing : MigrationFile → Db S → Bool × Db S → Type 0
  Landing file before (true, after) = HasLanded file before after
  Landing file before (false, after) = HasFailed file before after

  recorded-HasLanded :
      (file : MigrationFile) (db : Db S) (schema : S) (after : Db S)
      → run_of file db.schema ≡ (true, schema)
      → after ≡ record { schema = schema; rows = db.rows ++ recorded_as file ∷ [] }
      → HasLanded file db after
  recorded-HasLanded file db schema after e h = record {
    ran = ap (λ p. p.0) e;
    schema = ap (λ d. d.schema) h ∙ sym (ap (λ p. p.1) e);
    rows = ap (λ d. d.rows) h;
  }

  concluded-Landing :
      (file : MigrationFile) (db : Db S) (schema : S) (alone ok holds : Bool)
      (recorded : Option (Db S))
      → file.no_transaction ≡ alone
      → run_of file db.schema ≡ (ok, schema)
      → Recorded (recorded_as file) (record db { schema = schema }) recorded
      → Landing file db (concluded env alone ok holds db (record db { schema = schema }) recorded)
  unfolding concluded settled_or Landing Recorded
  concluded-Landing file db schema true false holds recorded a e r = record {
    rows = refl;
    kept = inl a;
  }
  concluded-Landing file db schema true true holds none a e r = record { rows = refl; kept = inl a }
  concluded-Landing file db schema true true holds (some after) a e r =
      recorded-HasLanded file db schema after e r
  concluded-Landing file db schema false false holds recorded a e r = record {
    rows = refl;
    kept = inr refl;
  }
  concluded-Landing file db schema false true false recorded a e r = record {
    rows = refl;
    kept = inr refl;
  }
  concluded-Landing file db schema false true true none a e r = record {
    rows = refl;
    kept = inr refl;
  }
  concluded-Landing file db schema false true true (some after) a e r =
      recorded-HasLanded file db schema after e r

  -- Each turn of the loop lands its file whole, or fails it.
  apply_file-Landing :
      (file : MigrationFile) (db : Db S) → Landing file db (apply_file env file applied_by db)
  unfolding apply_file after_execute
  apply_file-Landing file db =
      concluded-Landing file db _ file.no_transaction _ _ _ refl refl (record_row-Recorded _ _ _)

  after_file-RunOf :
      (file : MigrationFile) (files : List MigrationFile) (db : Db S) (o : Bool × Db S)
      (rest : ℕ × Db S)
      → Landing file db o
      → RunOf files o.1 rest
      → RunOf (file ∷ files) db (if o.0 then rest else (1, o.1))
  unfolding Landing
  after_file-RunOf file files db (false, after) rest l r =
      RunOf.stopped files refl AllLanded.no_more l
  after_file-RunOf file files db (true, mid) rest l (complete all) =
      RunOf.complete (AllLanded.one_more l all)
  after_file-RunOf file files db (true, mid) rest l (stopped left e all f) =
      RunOf.stopped left (ap (λ fs. file ∷ fs) e) (AllLanded.one_more l all) f

  apply_all-RunOf :
      (files : List MigrationFile) (db : Db S) → RunOf files db (apply_all env files applied_by db)
  unfolding apply_all
  apply_all-RunOf [] db = RunOf.complete AllLanded.no_more
  apply_all-RunOf (file ∷ files) db =
      after_file-RunOf file files db _ _ (apply_file-Landing file db) (apply_all-RunOf files _)

  -- The queue that a run of `cmd_apply` may execute.
  pub record IsQueue (to : Option String) (db : Db S) (queue : List MigrationFile) : Type 0 where
    pub states : List MigrationState
    pub loaded : load_states env db ≡ some states
    pub unblocked : length (blocking states) ≡ 0
    pub selected : select env to states ≡ some queue
    pub accepted : any (refuses env) queue ≡ false

  pub Applied : Option String → Db S → ℕ × Db S → Type 0
  Applied to db o =
      (o.1 ≡ db) ⊎ ((queue : List MigrationFile) × IsQueue to db queue × RunOf queue db o)

  untouched : (to : Option String) (db : Db S) → Applied to db (1, db)
  unfolding Applied
  untouched to db = inl refl

  on_queue-Applied :
      (dry_run : Bool) (to : Option String) (db : Db S) (states : List MigrationState)
      (o : Option (List MigrationFile))
      → load_states env db ≡ some states
      → length (blocking states) ≡ 0
      → select env to states ≡ o
      → Applied to db (on_queue env dry_run applied_by db o)
  unfolding on_queue Applied
  on_queue-Applied dry_run to db states none l b e = inl refl
  on_queue-Applied dry_run to db states (some queue) l b e =
      elim (Bool-cases (any (refuses env) queue)) [
        | inl h ↦ rw h (inl refl)
        | inr h ↦ elim (Bool-cases dry_run) [
          | inl d ↦ rw (h, d) (inl refl)
          | inr d ↦
              rw (h, d)
                (inr (
                  queue,
                  record { states = states; loaded = l; unblocked = b; selected = e; accepted = h },
                  apply_all-RunOf queue db,
                ))
        ]
      ]

  on_states-Applied :
      (dry_run : Bool) (to : Option String) (db : Db S) (o : Option (List MigrationState))
      → load_states env db ≡ o
      → Applied to db (on_states env dry_run to applied_by db o)
  unfolding on_states Applied
  on_states-Applied dry_run to db none l = inl refl
  on_states-Applied dry_run to db (some states) l =
      elim (Bool-cases (ltb 0 (length (blocking states)))) [
        | inl h ↦ rw h (inl refl)
        | inr h ↦ rw h (on_queue-Applied dry_run to db states _ l (ground arith) refl)
      ]

  -- `cmd_apply` either leaves the database as it is, or the states are loaded, none of them blocks,
  -- no file of the queue is refused, and the run over the queue is one where every file lands with
  -- its row, or stops at the first that does not: the files before it have landed with their rows,
  -- and it leaves no row, and no other trace unless it is marked to run without a transaction.
  pub cmd_apply-Applied :
      (dry_run : Bool) (to : Option String) (db : Db S)
      → Applied to db (cmd_apply env dry_run to applied_by db)
  unfolding cmd_apply
  cmd_apply-Applied dry_run to db =
      if_both (Applied to db) env.autocommit (on_states-Applied dry_run to db _ refl)
        (untouched to db)
