-- ===== src/Queue/Pg/WellFormed/Reserve.antt =====
-- `reserve` keeps the tables well formed.
use py_app_runner.Prelude.{
  ℕ, zero, suc, ◌+◌, ◌<◌, String, ◌≡◌, refl, ◌∙◌, inl, inr, Bool, true, false, Option, none, some,
  List, [], ◌∷◌, arith, leb, leb-false→lt, ==_iff, Option-cases, &&_true, filter, All, All-map,
  Memᴰ-filter,
}
use py_app_runner.Prelude.Int.{ℤ}
use py_app_runner.Queue.Job.{Job}
use py_app_runner.Queue.Pg.Search.{first_by-Memᴰ, find-Memᴰ, find_only}
use py_app_runner.Queue.Pg.Tables.{Row, Db, first_by, precedes}
use py_app_runner.Queue.Pg.Reserve.{
  Round, Outcome, eligible, candidate, claimed_row, claim, read, to_job, on_decoded, on_read,
  on_claim, on_candidate, attempt, on_outcome, or_next, rounds_from, reserve_from, reserve,
  claim_rounds,
}
use py_app_runner.Queue.Pg.WellFormed.{IsWellFormed}
use py_app_runner.Queue.Pg.WellFormed.Completion.{
  IsWellFormed-update_where, move_to_failed-IsWellFormed,
}

-- What other connections do around one round: they keep the tables well formed, and leave a row
-- alone while the round's transaction has it locked FOR UPDATE.
pub record IsFair (queue : String) (env : Round) : Type 0 where
  pub before : (db : Db) → IsWellFormed db → IsWellFormed (env.before db)
  pub meanwhile : (db : Db) → IsWellFormed db → IsWellFormed (env.meanwhile db)
  pub after : (db : Db) → IsWellFormed db → IsWellFormed (env.after db)
  pub keeps_locked :
      (db : Db) (id : ℕ) (spent : Bool)
      → candidate queue env.moment env.locked db ≡ some (id, spent)
      → read id (env.meanwhile db) ≡ read id db

-- The candidate is an eligible row, which its id finds.
pub record IsCandidate (queue : String) (moment : ℕ) (locked : ℕ → Bool) (db : Db) (id : ℕ)
    (spent : Bool) : Type 0 where
  pub row : Row
  pub named : row.id ≡ id
  pub found : read id db ≡ some row
  pub fits : eligible queue moment locked row ≡ true
  pub budget : leb row.max_attempts row.attempts ≡ spent
  pub first : first_by precedes (filter (eligible queue moment locked) db.jobs) ≡ some row

pub candidate-IsCandidate :
    (queue : String) (moment : ℕ) (locked : ℕ → Bool) (db : Db) (id : ℕ) (spent : Bool)
    → IsWellFormed db
    → candidate queue moment locked db ≡ some (id, spent)
    → IsCandidate queue moment locked db id spent
unfolding candidate read
candidate-IsCandidate queue moment locked db id spent wf h =
    elim (Option-cases (first_by precedes (filter (eligible queue moment locked) db.jobs))) [
      | inl e ↦ absurd (cc (rw e at h))
      | inr (r, e) ↦
          let found : some (r.id, leb r.max_attempts r.attempts) ≡ some (id, spent) = rw e at h in
          let named : r.id ≡ id = cc in
          let (member, fits) =
            Memᴰ-filter _ db.jobs
              (first_by-Memᴰ precedes (filter (eligible queue moment locked) db.jobs) e) in
          record {
            row = r;
            named = named;
            found = rw (← named) (find-Memᴰ db.jobs wf.apart member);
            fits = fits;
            budget = cc;
            first = e;
          }
    ]

-- A claim stays in the budget of its row.
pub claim-IsWellFormed :
    (id until : ℕ) (worker : String) (moment : ℕ) (db : Db)
    → All (λ r. r.id ≡ id → r.attempts < r.max_attempts) db.jobs
    → IsWellFormed db
    → IsWellFormed (claim id until worker moment db).1
unfolding claim claimed_row
claim-IsWellFormed id until worker moment db room wf =
    IsWellFormed-update_where _ _ db (record { id = λ r. refl; key = λ r. refl })
      (All-map _ _ db.jobs
        (λ r room s free. record {
          numbered = s.numbered;
          within_budget = omega (arith, room ((==_iff r.id id).0 (&&_true _ _ free).0));
          has_budget = s.has_budget;
          claim = tt;
        })
        room)
      wf

module _ {Payload : Type 0} (loads : String → Option Payload) where
  on_decoded-IsWellFormed :
      (queue : String) (env : Round) (worker : String) (r : Row) (o : Option (Job Payload))
      (db : Db)
      → IsFair queue env
      → IsWellFormed db
      → IsWellFormed (on_decoded env worker r o db).1
  unfolding on_decoded
  on_decoded-IsWellFormed queue env worker r (some job) db fair wf = wf
  on_decoded-IsWellFormed queue env worker r none db fair wf =
      move_to_failed-IsWellFormed _ r.id _ env.failed_at (env.after db) (fair.after db wf)

  on_read-IsWellFormed :
      (queue : String) (env : Round) (worker : String) (o : Option Row) (db : Db)
      → IsFair queue env
      → IsWellFormed db
      → IsWellFormed (on_read loads env worker o db).1
  unfolding on_read
  on_read-IsWellFormed queue env worker none db fair wf = wf
  on_read-IsWellFormed queue env worker (some r) db fair wf =
      on_decoded-IsWellFormed queue env worker r (to_job loads r worker) db fair wf

  on_claim-IsWellFormed :
      (queue : String) (env : Round) (worker : String) (id : ℕ) (o : Bool × Db)
      → IsFair queue env
      → IsWellFormed o.1
      → IsWellFormed (on_claim loads env worker id o).1
  unfolding on_claim
  on_claim-IsWellFormed queue env worker id (false, db) fair wf = wf
  on_claim-IsWellFormed queue env worker id (true, db) fair wf =
      on_read-IsWellFormed queue env _ (read id db) db fair wf

  -- In a fair round every row with the candidate's id still has an attempt left.
  room_left :
      (queue : String) (env : Round) (db : Db) (id : ℕ)
      → IsFair queue env
      → IsWellFormed db
      → candidate queue env.moment env.locked db ≡ some (id, false)
      → All (λ r. r.id ≡ id → r.attempts < r.max_attempts) (env.meanwhile db).jobs
  unfolding read
  room_left queue env db id fair wf h =
      let c = candidate-IsCandidate queue env.moment env.locked db id false wf h in
      let same =
        find_only (env.meanwhile db).jobs id (fair.meanwhile db wf).apart
          (fair.keeps_locked db id false h ∙ c.found) in
      All-map _ _ (env.meanwhile db).jobs (λ r only e. rw (only e) (leb-false→lt _ _ c.budget)) same

  on_candidate-IsWellFormed :
      (queue : String) (env : Round) (timeout : ℤ) (worker : String) (o : Option (ℕ × Bool))
      (db : Db)
      → candidate queue env.moment env.locked db ≡ o
      → IsFair queue env
      → IsWellFormed db
      → IsWellFormed (on_candidate loads env timeout worker o db).1
  unfolding on_candidate
  on_candidate-IsWellFormed queue env timeout worker none db h fair wf = wf
  on_candidate-IsWellFormed queue env timeout worker (some (id, true)) db h fair wf =
      move_to_failed-IsWellFormed _ id _ env.failed_at (env.meanwhile db) (fair.meanwhile db wf)
  on_candidate-IsWellFormed queue env timeout worker (some (id, false)) db h fair wf =
      on_claim-IsWellFormed queue env worker id _ fair (
        claim-IsWellFormed id _ worker env.moment (env.meanwhile db)
          (room_left queue env db id fair wf h) (fair.meanwhile db wf))

  pub attempt-IsWellFormed :
      (env : Round) (queue : String) (timeout : ℤ) (worker : String) (db : Db)
      → IsFair queue env
      → IsWellFormed db
      → IsWellFormed (attempt loads env queue timeout worker db).1
  unfolding attempt
  attempt-IsWellFormed env queue timeout worker db fair wf =
      on_candidate-IsWellFormed queue env timeout worker _ (env.before db) refl fair
        (fair.before db wf)

module _ {Payload : Type 0} where
  on_outcome-IsWellFormed :
      (o : Outcome Payload × Db) (rest : Db → Option (Job Payload) × Db)
      → IsWellFormed o.1
      → ((db : Db) → IsWellFormed db → IsWellFormed (rest db).1)
      → IsWellFormed (on_outcome o rest).1
  unfolding on_outcome
  on_outcome-IsWellFormed (Outcome.empty, db) rest wf more = wf
  on_outcome-IsWellFormed (Outcome.again, db) rest wf more = more db wf
  on_outcome-IsWellFormed (Outcome.claimed job, db) rest wf more = wf

  or_next-IsWellFormed :
      (o : Option (Job Payload) × Db) (rest : Db → Option (Job Payload) × Db)
      → IsWellFormed o.1
      → ((db : Db) → IsWellFormed db → IsWellFormed (rest db).1)
      → IsWellFormed (or_next o rest).1
  unfolding or_next
  or_next-IsWellFormed (none, db) rest wf more = more db wf
  or_next-IsWellFormed (some job, db) rest wf more = wf

module _ {Payload : Type 0} (loads : String → Option Payload) (timeout : ℤ) (worker : String) where
  rounds_from-IsWellFormed :
      (n i : ℕ) (env : ℕ → Round) (queue : String) (db : Db)
      → ((j : ℕ) → IsFair queue (env j))
      → IsWellFormed db
      → IsWellFormed (rounds_from loads n i env queue timeout worker db).1
  unfolding rounds_from
  rounds_from-IsWellFormed zero i env queue db fair wf = wf
  rounds_from-IsWellFormed (suc n) i env queue db fair wf =
      on_outcome-IsWellFormed _ _
        (attempt-IsWellFormed loads (env i) queue timeout worker db (fair i) wf)
        (λ db' wf'. rounds_from-IsWellFormed n (i + 1) env queue db' fair wf')

  -- Reserving from any list of queues leaves the tables well formed, also when it moves exhausted or
  -- undecodable jobs on the way, if the other connections are fair in every round.
  pub reserve-IsWellFormed :
      (env : ℕ → ℕ → Round) (queues : List String) (db : Db)
      → ((i j : ℕ) (queue : String) → IsFair queue (env i j))
      → IsWellFormed db
      → IsWellFormed (reserve loads env queues timeout worker db).1
  unfolding reserve reserve_from
  reserve-IsWellFormed env [] db fair wf = wf
  reserve-IsWellFormed env (queue ∷ queues) db fair wf =
      or_next-IsWellFormed _ _
        (rounds_from-IsWellFormed claim_rounds 0 (env 0) queue db (λ j. fair 0 j queue) wf)
        (λ db' wf'.
          reserve-IsWellFormed (λ i. env (i + 1)) queues db' (λ i j q. fair (i + 1) j q) wf')
