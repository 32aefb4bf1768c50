-- ===== src/Queue/Redis/Kept/Handles.antt =====
-- The ids of entries as the handles of jobs, and the entry that a round takes.
use mathlib.Core.List.{Memᴰ}
use py_app_runner.Prelude.{
  ℕ, ◌*◌, ◌<◌, String, ◌≡◌, refl, sym, ap, ◌∙◌, subst, true, Option, none, some, List, [], ◌∷◌,
  arith, ◌==◌, ==_iff, filter, any, All, All-Memᴰ, All-map, Memᴰ-filter, find→Memᴰ, AllPairs,
}
use py_app_runner.Prelude.Int.{ℤ}
use py_app_runner.Queue.Redis.Store.{Entry, Store, Redis, in_stream}
use py_app_runner.Queue.Redis.Reserve.{Call, or_unread, next_entry}
use py_app_runner.Queue.Redis.Kept.Places.{has_place, Differ, IsHandle, IsRedis}
use py_app_runner.Queue.Redis.Kept.Push.{Keeping}

-- The entry handed out with a job is the job's own.
pub record IsHandled (r : Redis) (id : ℕ) (entry : String) (s : Store) : Type 0 where
  pub number : ℕ
  pub named : entry ≡ r.entry_id number
  pub added : number < s.added
  pub own : IsHandle r entry id s

pub IsHandled-Keeping :
    (r : Redis) (id : ℕ) (entry : String) {s s' : Store}
    → Keeping r s s'
    → IsHandled r id entry s
    → IsHandled r id entry s'
IsHandled-Keeping r id entry {s} {s'} (w, f) h = record {
  number = h.number;
  named = h.named;
  added = omega (arith, h.added, f.grows);
  own =
      subst (λ t. IsHandle r t id s') (sym h.named)
        (f.handles h.number id h.added (subst (λ t. IsHandle r t id s) h.named h.own));
}

module _ (r : Redis) (law : IsRedis r) where
  -- An entry's id is its own job's handle.
  pub own :
      (e : Entry) (es : List Entry)
      → AllPairs Differ es
      → Memᴰ e es
      → All (λ (f : Entry). r.entry_id f.number ≡ r.entry_id e.number → f.job ≡ e.job) es
  own e [] h m = elim m [ ]
  own e (f ∷ es) h (Memᴰ.head same) = (
    (λ k. ap (λ (g : Entry). g.job) (sym same)),
    All-map (Differ f) _ es
        (λ g ne k.
          absurd (
            ne (ap (λ (x : Entry). x.number) (sym same) ∙ sym (law.entry_ids g.number e.number k))))
        h.0,
  )
  own e (f ∷ es) h (Memᴰ.tail m) = (
    (λ k. absurd (All-Memᴰ (Differ f) es h.0 m (law.entry_ids f.number e.number k))),
    own e es h.1 m,
  )

  pub member_place : (e : Entry) (s : Store) → Memᴰ e s.entries → has_place e.job s ≡ true
  unfolding has_place
  member_place e s m = rw (there s.entries m) (ground arith)
    where
      there : (es : List Entry) → Memᴰ e es → any (λ (f : Entry). f.job == e.job) es ≡ true
      there [] m = elim m [ ]
      there (f ∷ es) (Memᴰ.head same) =
          rw ((==_iff f.job e.job).1 (ap (λ (g : Entry). g.job) (sym same))) refl
      there (f ∷ es) (Memᴰ.tail m) = rw (there es m) (ground arith)

  chosen :
      (call : Call) (stream : List Entry) (e : Entry) (o : Option Entry)
      → r.autoclaim call.ms (call.timeout * 1000) stream ≡ o
      → or_unread o stream ≡ some e
      → Memᴰ e stream
  unfolding or_unread
  chosen call stream e none claimed found = find→Memᴰ _ stream found
  chosen call stream e (some f) claimed found =
      law.autoclaimed call.ms (call.timeout * 1000) stream e (claimed ∙ found)

  pub next_entry_mem :
      (call : Call) (level : ℤ) (s : Store) (e : Entry)
      → next_entry r call level s ≡ some e
      → Memᴰ e s.entries
  unfolding next_entry
  next_entry_mem call level s e found =
      let stream = filter (in_stream call.queue level) s.entries in
      (Memᴰ-filter (in_stream call.queue level) s.entries
        (chosen call stream e (r.autoclaim call.ms (call.timeout * 1000) stream) refl found)).0
