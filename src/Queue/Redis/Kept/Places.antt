-- ===== src/Queue/Redis/Kept/Places.antt =====
-- Where a job can stand, and what holds of the keys between two scripts.
use py_app_runner.Prelude.{
  ℕ, ◌<◌, String, ◌≡◌, ◌≢◌, Bool, true, ◌||◌, some, List, ◌==◌, any, All, AllPairs,
}
use mathlib.Core.List.{Memᴰ}
use py_app_runner.Prelude.Int.{ℤ, eq_ℤ}
use py_app_runner.Queue.Redis.Store.{JobHash, Due, Entry, Failed, Store, Redis}

unfoldable pub has_place : ℕ → Store → Bool
has_place id s =
    any (λ (d : Due). d.id == id) s.delayed
    || any (λ (e : Entry). e.job == id) s.entries
    || any (λ (f : Failed). f.id == id) s.failed

-- The level of an entry is one that a reserve walks.
abbrev pub IsServed : (String → List ℤ) → Entry → Type 0
IsServed levels e = any (eq_ℤ e.level) (levels e.queue) ≡ true

abbrev pub Differ : Entry → Entry → Type 0
Differ e f = e.number ≢ f.number

pub record IsSound (s : Store) : Type 0 where
  pub served : All (IsServed s.levels) s.entries
  pub numbered : All (λ e. e.number < s.added) s.entries
  pub distinct : AllPairs Differ s.entries

-- Sound keys, and a place for every job.
pub record IsWhole (s : Store) : Type 0 where
  pub sound : IsSound s
  pub placed : (j : ℕ) (hash : JobHash) → s.jobs j ≡ some hash → has_place j s ≡ true

-- An entry's id names no entry of another job.
abbrev pub IsHandle : Redis → String → ℕ → Store → Type 0
IsHandle r entry id s = All (λ (e : Entry). r.entry_id e.number ≡ entry → e.job ≡ id) s.entries

-- What the model asks of the server: ids of entries are not used twice, and what XAUTOCLAIM hands
-- over is an entry of the stream.
pub record IsRedis (r : Redis) : Type 0 where
  pub entry_ids : (a b : ℕ) → r.entry_id a ≡ r.entry_id b → a ≡ b
  pub autoclaimed :
      (ms idle : ℕ) (stream : List Entry) (e : Entry)
      → r.autoclaim ms idle stream ≡ some e
      → Memᴰ e stream
