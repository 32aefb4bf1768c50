-- ===== src/Queue/Redis/Kept/Rounds.antt =====
-- One round of a level loses no job, and neither does the promotion of those that are due.
use py_app_runner.Prelude.{
  ℕ, ◌<◌, String, ◌≡◌, refl, ◌∙◌, inl, inr, true, Option, none, some, List, [], ◌∷◌, arith, ltb,
  leb, if_both, any, All-Memᴰ,
}
use py_app_runner.Prelude.Int.{ℤ}
use py_app_runner.Queue.Pg.Reserve.{exhausted_error}
use py_app_runner.Queue.Redis.Store.{
  JobHash, Entry, Store, Redis, hset, is_due_for, zrem_delayed, zadd_delayed, drop_entry, deliver,
}
use py_app_runner.Queue.Redis.Reserve.{
  Call, promote_hash, promote_one, promote, next_entry, Turn, idle, again, handed, park, bury,
  claimed_hash, on_hash, on_entry, round,
}
use py_app_runner.Queue.Redis.Kept.Handles.{IsHandled, own, member_place, next_entry_mem}
use py_app_runner.Queue.Redis.Kept.Places.{has_place, IsSound, IsHandle, IsRedis}
use py_app_runner.Queue.Redis.Kept.Commands.{
  deliver-Keeps, zadd_delayed_due, due_has_place, add_ready-place,
}
use py_app_runner.Queue.Redis.Kept.Moves.{
  Moves-trans, hset-Moves, zrem_delayed-Moves, zadd_delayed-Moves,
}
use py_app_runner.Queue.Redis.Kept.Streams.{drop_entry-Moves, deliver-Moves, add_ready-Moves}
use py_app_runner.Queue.Redis.Kept.Push.{Keeping, Keeping-same, Moves-Keeping}
use py_app_runner.Queue.Redis.Kept.Completion.{buried-Moves, buried-place}
use py_app_runner.Queue.Redis.Kept.Reports.{Keeping-trans}

abbrev pub IsGoodTurn : Redis → Store → Turn → Type 0
IsGoodTurn r s idle = Unit
IsGoodTurn r s (again s') = Keeping r s s'
IsGoodTurn r s (handed id entry hash s') = Keeping r s s' × IsHandled r id entry s'

module _ (r : Redis) (law : IsRedis r) where
  promote_hash-Moves :
      (queue : String) (id : ℕ) (o : Option JobHash) (s : Store)
      → s.jobs id ≡ o
      → Keeping r s (promote_hash r queue id o (zrem_delayed queue id s))
  unfolding promote_hash
  promote_hash-Moves queue id none s e =
      Moves-Keeping r law id (zrem_delayed-Moves r id queue s) (inr (unfold zrem_delayed in e))
  promote_hash-Moves queue id (some hash) s e =
      let freed = zrem_delayed queue id s in
      Moves-Keeping r law id
        (Moves-trans r id (zrem_delayed-Moves r id queue s)
          (add_ready-Moves r id queue hash freed law))
        (inl (add_ready-place r queue id hash freed))

  pub promote-Keeping :
      (queue : String) (ids : List ℕ) (s : Store) → Keeping r s (promote r queue ids s)
  unfolding promote promote_one
  promote-Keeping queue [] s = Keeping-same r law s
  promote-Keeping queue (id ∷ ids) s =
      Keeping-trans r law
        (if_both (Keeping r s) (any (is_due_for queue id) s.delayed)
          (promote_hash-Moves queue id (s.jobs id) s refl) (Keeping-same r law s))
        (promote-Keeping queue ids (promote_one r queue id s))

  module _ (call : Call) (level : ℤ) where
    on_hash_good :
        (e : Entry) (o : Option JobHash) (s : Store)
        → e.number < s.added
        → IsHandle r (r.entry_id e.number) e.job s
        → has_place e.job s ≡ true
        → s.jobs e.job ≡ o
        → IsGoodTurn r s (on_hash r call level e o s)
    unfolding on_hash park bury
    on_hash_good e none s l h p gone =
        Moves-Keeping r law e.job
          (drop_entry-Moves r e.job call.queue level (r.entry_id e.number) s h)
          (inr (unfold drop_entry in gone))
    on_hash_good e (some hash) s l h p there =
        let entry = r.entry_id e.number in
        if_both (IsGoodTurn r s) (ltb call.now hash.reserved_until)
          (let delayed = zadd_delayed r call.queue hash.reserved_until e.job s in
            let hash' = some (record hash { entry = "" }) in
            let stored = hset e.job hash' delayed in
            Moves-Keeping r law e.job
              (Moves-trans r e.job (zadd_delayed-Moves r e.job call.queue hash.reserved_until s) (
                Moves-trans r e.job (hset-Moves r e.job hash' delayed) (
                  drop_entry-Moves r e.job call.queue level entry stored
                    (unfold zadd_delayed hset in h))))
              (inl (
                due_has_place e.job (drop_entry r call.queue level entry stored) (
                  unfold drop_entry hset in
                  zadd_delayed_due r call.queue hash.reserved_until e.job s))))
          (if_both (IsGoodTurn r s) (leb hash.max_attempts hash.attempts)
            (let dropped = drop_entry r call.queue level entry s in
              Moves-Keeping r law e.job
                (Moves-trans r e.job (drop_entry-Moves r e.job call.queue level entry s h)
                  (buried-Moves r law e.job hash exhausted_error call.now call.failed_at dropped))
                (inl
                  (buried-place r law e.job hash exhausted_error call.now call.failed_at dropped)))
            (
              Moves-Keeping r law e.job (hset-Moves r e.job (some (claimed_hash r call e hash)) s)
                  (inl (unfold hset has_place in p)),
              record {
                number = e.number;
                named = refl;
                added = unfold hset in l;
                own = unfold hset in h;
              },
            ))

    -- after a script that kept everything
    later_good : {s s' : Store} (t : Turn) → Keeping r s s' → IsGoodTurn r s' t → IsGoodTurn r s t
    later_good idle k g = tt
    later_good (again s'') k g = Keeping-trans r law k g
    later_good (handed id entry hash s'') k (g, h) = (Keeping-trans r law k g, h)

    pub round_good : (s : Store) → IsSound s → IsGoodTurn r s (round r call level s)
    unfolding round on_entry
    round_good s sound = taken (next_entry r call level s) refl
      where
        taken :
            (o : Option Entry)
            → next_entry r call level s ≡ o
            → IsGoodTurn r s (on_entry r call level o s)
        taken none found = tt
        taken (some e) found =
            let s' = deliver call.ms e.number s in
            let member = next_entry_mem r law call level s e found in
            let moved = deliver-Moves r e.job call.ms e.number s in
            let placed : has_place e.job s' ≡ true =
              deliver-Keeps call.ms e.number e.job s ∙ member_place r law e s member in
            let numbered = All-Memᴰ (λ f. f.number < s.added) s.entries sound.numbered member in
            later_good (on_hash r call level e (s'.jobs e.job) s')
              (Moves-Keeping r law e.job moved (inl placed))
              (on_hash_good e (s'.jobs e.job) s' (omega (arith, numbered, moved.refits.grows))
                (moved.refits.handles e.number e.job numbered
                  (own r law e s.entries sound.distinct member))
                placed refl)
