-- ===== src/Queue/Redis/Kept/Streams.antt =====
-- The commands of the scripts on a stream, each a move of one job.
use py_app_runner.Prelude.{
  ℕ, ◌<◌, String, ◌≡◌, refl, sym, ◌∙◌, true, some, List, arith, str_eq, eq_iff, ◌==◌, if◌then◌else◌,
  if_both, any, All-append, All-map, All-filter, AllPairs-filter, AllPairs-snoc,
}
use py_app_runner.Prelude.Int.{ℤ, eq_ℤ}
use py_app_runner.Queue.Redis.Store.{
  JobHash, Entry, Store, Redis, hset, drop_entry, deliver, add_ready, insert_level,
}
use py_app_runner.Queue.Redis.Kept.Places.{IsServed, Differ, IsHandle, IsRedis}
use py_app_runner.Queue.Redis.Kept.Lists.{
  any-insert_level_keeps, any-insert_level_new, All-mapped, AllPairs-mapped,
}
use py_app_runner.Queue.Redis.Kept.Commands.{drop_entry-Keeps, deliver-Keeps, add_ready-Keeps}
use py_app_runner.Queue.Redis.Kept.Moves.{Moves, hset_others}

module _ (r : Redis) (id : ℕ) where
  pub drop_entry-Moves :
      (queue : String) (level : ℤ) (entry : String) (s : Store)
      → IsHandle r entry id s
      → Moves r id s (drop_entry r queue level entry s)
  unfolding drop_entry
  drop_entry-Moves queue level entry s own = record {
    refits = record {
      sound = λ h. record {
        served = All-filter _ _ s.entries h.served;
        numbered = All-filter _ _ s.entries h.numbered;
        distinct = AllPairs-filter Differ _ s.entries h.distinct;
      };
      grows = omega arith;
      handles = λ n i l h. All-filter _ _ s.entries h;
    };
    keeps = drop_entry-Keeps r queue level entry id s own;
    others = λ j ne. refl;
  }

  same_number :
      (ms number : ℕ) (e : Entry)
      → (if e.number == number then record e { delivered = some ms } else e).number ≡ e.number
  same_number ms number e =
      if_both (λ (f : Entry). f.number ≡ e.number) (e.number == number) refl refl

  pub deliver-Moves : (ms number : ℕ) (s : Store) → Moves r id s (deliver ms number s)
  unfolding deliver
  deliver-Moves ms number s = record {
    refits = record {
      sound = λ h. record {
        served =
            All-mapped (IsServed s.levels) _ s.entries
              (λ e k. if_both (IsServed s.levels) (e.number == number) k k) h.served;
        numbered =
            All-mapped (λ e. e.number < s.added) _ s.entries
              (λ e k. if_both (λ (f : Entry). f.number < s.added) (e.number == number) k k)
              h.numbered;
        distinct =
            AllPairs-mapped Differ _ s.entries
              (λ e f k same. k (sym (same_number ms number e) ∙ same ∙ same_number ms number f))
              h.distinct;
      };
      grows = omega arith;
      handles = λ n i l h.
          All-mapped (λ (f : Entry). r.entry_id f.number ≡ r.entry_id n → f.job ≡ i) _ s.entries
            (λ e k.
              if_both (λ (f : Entry). r.entry_id f.number ≡ r.entry_id n → f.job ≡ i)
                (e.number == number) k k)
            h;
    };
    keeps = λ j ne h. deliver-Keeps ms number j s ∙ h;
    others = λ j ne. refl;
  }

  IsServed-still :
      (levels : String → List ℤ) (queue : String) (level : ℤ) (e : Entry)
      → IsServed levels e
      → IsServed (λ q. if str_eq q queue then insert_level level (levels q) else levels q) e
  IsServed-still levels queue level e h =
      if_both (λ ls. any (eq_ℤ e.level) ls ≡ true) (str_eq e.queue queue)
        (any-insert_level_keeps (eq_ℤ e.level) level (levels e.queue) h) h

  pub add_ready-Moves :
      (queue : String) (hash : JobHash) (s : Store)
      → IsRedis r
      → Moves r id s (add_ready r queue id hash s)
  unfolding add_ready
  add_ready-Moves queue hash s law = record {
    refits = record {
      sound = λ h. record {
        served =
            All-append _ s.entries _
              (All-map _ _ s.entries (λ e. IsServed-still s.levels queue hash.priority e) h.served)
              (
                rw ((eq_iff queue queue).1 refl)
                    (any-insert_level_new hash.priority (s.levels queue)),
                tt,
              );
        numbered =
            All-append _ s.entries _ (All-map _ _ s.entries (λ e k. omega (arith, k)) h.numbered)
              (omega arith, tt);
        distinct =
            AllPairs-snoc Differ s.entries _ h.distinct
              (All-map _ _ s.entries (λ e k. omega (arith, k)) h.numbered);
      };
      grows = omega arith;
      handles = λ n i l h.
          All-append _ s.entries _ h
            ((λ same. absurd (omega (arith, l, law.entry_ids s.added n same))), tt);
    };
    keeps = add_ready-Keeps r queue id hash s;
    others = λ j ne.
        unfold add_ready hset in
        hset_others r id (some (record hash { entry = r.entry_id s.added })) s j ne;
  }
