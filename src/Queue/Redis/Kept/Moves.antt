-- ===== src/Queue/Redis/Kept/Moves.antt =====
-- Scripts as chains of commands that move one job: what they keep of the others.
use py_app_runner.Prelude.{
  ℕ, ◌≤◌, ◌<◌, String, ◌≡◌, refl, sym, ap, ◌∙◌, subst, ◌≢◌, ◌⊎◌, inl, inr, true, Option, none, some,
  arith, str_eq, ◌==◌, ==_iff, Bool-cases, if_both, any, All, AllPairs,
}
use py_app_runner.Queue.Redis.Store.{
  JobHash, Entry, Store, Redis, hset, set_unique, zrem_delayed, zadd_delayed, sadd_queue,
  zrem_failed, zadd_failed,
}
use py_app_runner.Queue.Redis.Kept.Places.{has_place, IsSound, IsServed, Differ, IsWhole, IsHandle}
use py_app_runner.Queue.Redis.Kept.Commands.{
  Keeps, zrem_delayed-Keeps, zadd_delayed-Keeps, zrem_failed-Keeps, zadd_failed-Keeps,
}

-- The streams stay sound, and an entry's id goes on naming no entry of another job.
pub record Refits (r : Redis) (s s' : Store) : Type 0 where
  pub sound : IsSound s → IsSound s'
  pub grows : s.added ≤ s'.added
  pub handles :
      (n id : ℕ) → n < s.added → IsHandle r (r.entry_id n) id s → IsHandle r (r.entry_id n) id s'

-- And the jobs other than one keep their hashes and their places.
pub record Moves (r : Redis) (id : ℕ) (s s' : Store) : Type 0 where
  pub refits : Refits r s s'
  pub keeps : Keeps id s s'
  pub others : (j : ℕ) → j ≢ id → s'.jobs j ≡ s.jobs j

module _ (r : Redis) (id : ℕ) where
  pub Moves-trans : {s t u : Store} → Moves r id s t → Moves r id t u → Moves r id s u
  Moves-trans m n = record {
    refits = record {
      sound = λ h. n.refits.sound (m.refits.sound h);
      grows = omega (arith, m.refits.grows, n.refits.grows);
      handles = λ k i l h.
          n.refits.handles k i (omega (arith, l, m.refits.grows)) (m.refits.handles k i l h);
    };
    keeps = λ j ne h. n.keeps j ne (m.keeps j ne h);
    others = λ j ne. n.others j ne ∙ m.others j ne;
  }

  -- The job that moved has a place again, or is gone.
  pub Moves-IsWhole :
      {s s' : Store}
      → Moves r id s s'
      → (has_place id s' ≡ true) ⊎ (s'.jobs id ≡ none)
      → IsWhole s
      → IsWhole s'
  Moves-IsWhole {s} {s'} m end w = record {
    sound = m.refits.sound w.sound;
    placed = λ j hash e. elim (Bool-cases (j == id)) [
      | inl q ↦
          subst (λ k. has_place k s' ≡ true) (sym ((==_iff j id).0 q))
            (elim end [
              | inl p ↦ p
              | inr gone ↦
                  absurd (cc (gone, subst (λ k. s'.jobs k ≡ some hash) ((==_iff j id).0 q) e))
            ])
      | inr q ↦
          let ne : j ≢ id = λ same. absurd (cc (q, (==_iff j id).1 same)) in
          m.keeps j ne (w.placed j hash (sym (m.others j ne) ∙ e))
    ];
  }

  -- a command that leaves the streams alone
  same_streams :
      {s s' : Store}
      → s'.entries ≡ s.entries
      → s'.levels ≡ s.levels
      → s'.added ≡ s.added
      → Refits r s s'
  same_streams {s} {s'} e l a = record {
    sound = λ h. record {
      served =
          subst (λ es. All (IsServed s'.levels) es) (sym e)
            (subst (λ ls. All (IsServed ls) s.entries) (sym l) h.served);
      numbered =
          subst (λ es. All (λ f. f.number < s'.added) es) (sym e)
            (subst (λ n. All (λ f. f.number < n) s.entries) (sym a) h.numbered);
      distinct = subst (λ es. AllPairs Differ es) (sym e) h.distinct;
    };
    grows = omega (arith, a);
    handles = λ n i l h.
        subst (λ es. All (λ (f : Entry). r.entry_id f.number ≡ r.entry_id n → f.job ≡ i) es) (sym e)
          h;
  }

  -- a change of what is none of the keys above
  pub Moves-quiet :
      {s s' : Store}
      → s'.entries ≡ s.entries
      → s'.levels ≡ s.levels
      → s'.added ≡ s.added
      → ((j : ℕ) → has_place j s ≡ true → has_place j s' ≡ true)
      → s'.jobs ≡ s.jobs
      → Moves r id s s'
  Moves-quiet e l a p same = record {
    refits = same_streams e l a;
    keeps = λ j ne h. p j h;
    others = λ j ne. ap (λ f. f j) same;
  }

  pub hset_others :
      (hash : Option JobHash) (s : Store) (j : ℕ) → j ≢ id → (hset id hash s).jobs j ≡ s.jobs j
  unfolding hset
  hset_others hash s j ne = ground (arith, ==_iff j id)

  pub hset-Moves : (hash : Option JobHash) (s : Store) → Moves r id s (hset id hash s)
  unfolding hset has_place
  hset-Moves hash s = record {
    refits = same_streams refl refl refl;
    keeps = λ j ne h. h;
    others = λ j ne. unfold hset in hset_others hash s j ne;
  }

  pub set_unique-Moves :
      (key : String) (holder : Option ℕ) (s : Store) → Moves r id s (set_unique key holder s)
  unfolding set_unique has_place
  set_unique-Moves key holder s = record {
    refits = same_streams refl refl refl;
    keeps = λ j ne h. h;
    others = λ j ne. refl;
  }

  pub zrem_delayed-Moves : (queue : String) (s : Store) → Moves r id s (zrem_delayed queue id s)
  unfolding zrem_delayed
  zrem_delayed-Moves queue s = record {
    refits = same_streams refl refl refl;
    keeps = zrem_delayed-Keeps queue id s;
    others = λ j ne. refl;
  }

  pub zadd_delayed-Moves :
      (queue : String) (score : ℕ) (s : Store) → Moves r id s (zadd_delayed r queue score id s)
  unfolding zadd_delayed
  zadd_delayed-Moves queue score s = record {
    refits = same_streams refl refl refl;
    keeps = zadd_delayed-Keeps r queue score id s;
    others = λ j ne. refl;
  }

  pub zrem_failed-Moves : (s : Store) → Moves r id s (zrem_failed id s)
  unfolding zrem_failed
  zrem_failed-Moves s = record {
    refits = same_streams refl refl refl;
    keeps = zrem_failed-Keeps id s;
    others = λ j ne. refl;
  }

  pub zadd_failed-Moves : (score : ℕ) (s : Store) → Moves r id s (zadd_failed r score id s)
  unfolding zadd_failed
  zadd_failed-Moves score s = record {
    refits = same_streams refl refl refl;
    keeps = zadd_failed-Keeps r score id s;
    others = λ j ne. refl;
  }

  pub sadd_queue-Moves : (queue : String) (s : Store) → Moves r id s (sadd_queue queue s)
  unfolding sadd_queue has_place
  sadd_queue-Moves queue s =
      if_both (Moves r id s) (any (str_eq queue) s.queues)
        (record {
          refits = same_streams refl refl refl;
          keeps = λ j ne h. h;
          others = λ j ne. refl;
        })
        (record {
          refits = same_streams refl refl refl;
          keeps = λ j ne h. h;
          others = λ j ne. refl;
        })
