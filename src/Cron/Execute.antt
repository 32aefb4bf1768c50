-- ===== src/Cron/Execute.antt =====
-- cron/execute.py: LocalLock, and `_run_one` with `_spawn` of an Executor, as steps between which other
-- runs may take theirs.
use py_app_runner.Prelude.{
  ℕ, String, Bool, true, false, not, Option, none, some, List, [], ◌∷◌, str_eq, ◌==◌, if◌then◌else◌,
  filter, any,
}
use py_app_runner.Prelude.Int.{ℤ, pos, eq_ℤ}

pub data Status : Type 0 where
  ok_run failed_run timeout_run skipped_run : Status

pub record Outcome : Type 0 where
  pub job : String
  pub status : Status
  pub returncode : Option ℤ

-- `_held`, without its order
unfoldable pub is_held : String → List String → Bool
is_held name held = any (str_eq name) held

unfoldable pub acquire : String → List String → Bool × List String
unfolding is_held
acquire name held = if is_held name held then (false, held) else (true, name ∷ held)

unfoldable pub release : String → List String → List String
release name held = filter (λ other. not (str_eq other name)) held

-- Where a run stands: before `acquire`, before the child is started, while it runs, with its outcome
-- before `release`, and after.
pub data Phase : Type 0 where
  waiting : Phase
  starting : Phase
  running : Phase
  leaving : Outcome → Phase
  ended : Outcome → Phase

-- What the operating system does: whether the child starts, whether it outlasts the timeout of its job,
-- and its return code, after it was killed where it did.
pub record Os : Type 0 where
  pub starts : Bool
  pub outlasts : Bool
  pub returncode : ℤ

unfoldable pub on_lock : String → Bool × List String → Phase × List String
on_lock name (true, held) = (starting, held)
on_lock name (false, held) =
    (ended (record { job = name; status = skipped_run; returncode = none }), held)

unfoldable pub spawned : String → Os → Phase
spawned name os =
    if os.starts
    then running
    else leaving (record { job = name; status = failed_run; returncode = none })

unfoldable pub outcome_of : String → Os → Outcome
outcome_of name os =
    if os.outlasts
    then record { job = name; status = timeout_run; returncode = some os.returncode }
    else if eq_ℤ os.returncode (pos 0)
    then record { job = name; status = ok_run; returncode = some (pos 0) }
    else record { job = name; status = failed_run; returncode = some os.returncode }

-- The next step of a run.
unfoldable pub advance : String → Os → Phase → List String → Phase × List String
unfolding on_lock acquire spawned outcome_of release
advance name os waiting held = on_lock name (acquire name held)
advance name os starting held = (spawned name os, held)
advance name os running held = (leaving (outcome_of name os), held)
advance name os (leaving o) held = (ended o, release name held)
advance name os (ended o) held = (ended o, held)

-- The lock, and every run of a job by its number.
pub record Runs : Type 0 where
  pub held : List String
  pub phase : ℕ → Phase

unfoldable pub at_run : ℕ → Phase → (ℕ → Phase) → ℕ → Phase
at_run i p phase k = if k == i then p else phase k

-- One run takes its next step; `names` are the names of the jobs of the runs.
unfoldable pub take_step : (ℕ → String) → ℕ → Os → Runs → Runs
unfolding advance at_run
take_step names i os s =
    let (p, held) = advance (names i) os (s.phase i) s.held in
    record { held = held; phase = at_run i p s.phase }

-- Steps of the runs in any order.
unfoldable pub take_steps : (ℕ → String) → List (ℕ × Os) → Runs → Runs
unfolding take_step
take_steps names [] s = s
take_steps names ((i, os) ∷ steps) s = take_steps names steps (take_step names i os s)

abbrev pub all_waiting : Runs
all_waiting = record { held = []; phase = λ i. waiting }
