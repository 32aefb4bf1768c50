-- ===== src/Queue/Redis/Kept/Commands.antt =====
-- What each command of the scripts does to the places and to the soundness of the streams.
use py_app_runner.Prelude.{
  ℕ, String, ◌≡◌, refl, sym, ◌∙◌, ◌≢◌, inl, inr, true, false, not, ◌&&◌, Option, none, some, List,
  [], ◌∷◌, map, arith, str_eq, eq_iff, ◌==◌, if◌then◌else◌, ==_iff, Bool-cases, filter, any, All,
}
use py_app_runner.Prelude.Int.{ℤ}
use py_app_runner.Queue.Redis.Store.{
  JobHash, Due, Entry, Failed, Store, Redis, hset, is_due_for, zrem_delayed, zadd_delayed,
  in_stream, drop_entry, deliver, zrem_failed, zadd_failed, add_ready,
}
use py_app_runner.Queue.Redis.Kept.Places.{has_place, IsHandle}
use py_app_runner.Queue.Redis.Kept.Lists.{any-append, any-filter, any-insert_due, any-insert_failed}

-- Changes that leave every place to the jobs other than one.
abbrev pub Keeps : ℕ → Store → Store → Type 0
Keeps id s s' = (j : ℕ) → j ≢ id → has_place j s ≡ true → has_place j s' ≡ true

unequal : (a b : ℕ) → a ≢ b → (a == b) ≡ false
unequal a b h = ground (arith, ==_iff a b)

pub zrem_delayed-Keeps :
    (queue : String) (id : ℕ) (s : Store) → Keeps id s (zrem_delayed queue id s)
unfolding has_place zrem_delayed is_due_for
zrem_delayed-Keeps queue id s j ne h =
    rw
      (any-filter (λ (d : Due). d.id == j) (λ d. not (str_eq d.queue queue && d.id == id)) s.delayed
        (λ d e. ground (arith, ==_iff d.id j, ==_iff d.id id)))
      h

pub zadd_delayed-Keeps :
    (r : Redis) (queue : String) (score id : ℕ) (s : Store)
    → Keeps id s (zadd_delayed r queue score id s)
unfolding has_place zadd_delayed
zadd_delayed-Keeps r queue score id s j ne h =
    rw
      (any-insert_due r (λ (d : Due). d.id == j) (record { queue = queue; id = id; score = score })
        (zrem_delayed queue id s).delayed)
      (rw (unequal id j (λ e. ne (sym e)))
        (unfold has_place in zrem_delayed-Keeps queue id s j ne h))

pub zadd_delayed-place :
    (r : Redis) (queue : String) (score id : ℕ) (s : Store)
    → has_place id (zadd_delayed r queue score id s) ≡ true
unfolding has_place zadd_delayed
zadd_delayed-place r queue score id s =
    rw
      (any-insert_due r (λ (d : Due). d.id == id) (record { queue = queue; id = id; score = score })
        (zrem_delayed queue id s).delayed)
      (rw ((==_iff id id).1 refl) refl)

pub zrem_failed-Keeps : (id : ℕ) (s : Store) → Keeps id s (zrem_failed id s)
unfolding has_place zrem_failed
zrem_failed-Keeps id s j ne h =
    rw
      (any-filter (λ (f : Failed). f.id == j) (λ f. not (f.id == id)) s.failed
        (λ f e. ground (arith, ==_iff f.id j, ==_iff f.id id)))
      h

pub zadd_failed-Keeps :
    (r : Redis) (score id : ℕ) (s : Store) → Keeps id s (zadd_failed r score id s)
unfolding has_place zadd_failed
zadd_failed-Keeps r score id s j ne h =
    rw
      (any-insert_failed r (λ (f : Failed). f.id == j) (record { id = id; score = score })
        (zrem_failed id s).failed)
      (rw (unequal id j (λ e. ne (sym e))) (unfold has_place in zrem_failed-Keeps id s j ne h))

pub zadd_failed-place :
    (r : Redis) (score id : ℕ) (s : Store) → has_place id (zadd_failed r score id s) ≡ true
unfolding has_place zadd_failed
zadd_failed-place r score id s =
    rw
      (any-insert_failed r (λ (f : Failed). f.id == id) (record { id = id; score = score })
        (zrem_failed id s).failed)
      (rw ((==_iff id id).1 refl) (ground arith))

pub drop_entry-Keeps :
    (r : Redis) (queue : String) (level : ℤ) (entry : String) (id : ℕ) (s : Store)
    → IsHandle r entry id s
    → Keeps id s (drop_entry r queue level entry s)
unfolding has_place drop_entry
drop_entry-Keeps r queue level entry id s own j ne h = rw (others s.entries own) h
  where
    others :
        (es : List Entry)
        → All (λ (e : Entry). r.entry_id e.number ≡ entry → e.job ≡ id) es
        → any
            (λ (e : Entry). e.job == j)
            (filter (λ e. not (in_stream queue level e && str_eq (r.entry_id e.number) entry)) es)
          ≡ any (λ (e : Entry). e.job == j) es
    others [] own = refl
    others (e ∷ es) own =
        elim (Bool-cases (not (in_stream queue level e && str_eq (r.entry_id e.number) entry))) [
          | inl q ↦ rw (q, others es own.1) refl
          | inr q ↦
              let named : r.entry_id e.number ≡ entry =
                (eq_iff (r.entry_id e.number) entry).0 (ground arith) in
              let other : (e.job == j) ≡ false =
                unequal e.job j (λ same. ne (sym same ∙ own.0 named)) in
              rw (q, other, others es own.1) refl
        ]

pub deliver-Keeps :
    (ms number id : ℕ) (s : Store) → has_place id (deliver ms number s) ≡ has_place id s
unfolding has_place deliver
deliver-Keeps ms number id s = rw (jobs s.entries) refl
  where
    jobs :
        (es : List Entry)
        → any
            (λ (e : Entry). e.job == id)
            (map (λ e. if e.number == number then record e { delivered = some ms } else e) es)
          ≡ any (λ (e : Entry). e.job == id) es
    jobs [] = refl
    jobs (e ∷ es) = elim (Bool-cases (e.number == number)) [
      | inl q ↦ rw (q, jobs es) refl
      | inr q ↦ rw (q, jobs es) refl
    ]

pub add_ready-Keeps :
    (r : Redis) (queue : String) (id : ℕ) (hash : JobHash) (s : Store)
    → Keeps id s (add_ready r queue id hash s)
unfolding has_place add_ready
add_ready-Keeps r queue id hash s j ne h =
    rw
      (any-append (λ (e : Entry). e.job == j) s.entries
        (record {
          number = s.added;
          queue = queue;
          level = hash.priority;
          job = id;
          delivered = none;
        }
          ∷ []))
      (ground arith)

pub add_ready-place :
    (r : Redis) (queue : String) (id : ℕ) (hash : JobHash) (s : Store)
    → has_place id (add_ready r queue id hash s) ≡ true
unfolding has_place add_ready
add_ready-place r queue id hash s =
    rw
      (any-append (λ (e : Entry). e.job == id) s.entries
        (record {
          number = s.added;
          queue = queue;
          level = hash.priority;
          job = id;
          delivered = none;
        }
          ∷ []))
      (rw ((==_iff id id).1 refl) (ground arith))

-- A delayed job has a place, whatever becomes of its entry.
pub due_has_place :
    (id : ℕ) (s : Store) → any (λ (d : Due). d.id == id) s.delayed ≡ true → has_place id s ≡ true
unfolding has_place
due_has_place id s h = rw h refl

pub zadd_delayed_due :
    (r : Redis) (queue : String) (score id : ℕ) (s : Store)
    → any (λ (d : Due). d.id == id) (zadd_delayed r queue score id s).delayed ≡ true
unfolding zadd_delayed
zadd_delayed_due r queue score id s =
    rw
      (any-insert_due r (λ (d : Due). d.id == id) (record { queue = queue; id = id; score = score })
        (zrem_delayed queue id s).delayed)
      (rw ((==_iff id id).1 refl) refl)

pub hset-jobs : (id : ℕ) (hash : Option JobHash) (s : Store) → (hset id hash s).jobs id ≡ hash
unfolding hset
hset-jobs id hash s = rw ((==_iff id id).1 refl) refl
