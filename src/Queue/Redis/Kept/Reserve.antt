-- ===== src/Queue/Redis/Kept/Reserve.antt =====
-- `reserve` loses no job, and hands out a job with an entry that is the job's own.
use py_app_runner.Prelude.{ℕ, zero, suc, String, Option, none, some, List, [], ◌∷◌}
use py_app_runner.Prelude.Int.{ℤ}
use py_app_runner.Queue.Job.{Job}
use py_app_runner.Queue.Pg.Reserve.{claim_rounds, payload_error}
use py_app_runner.Queue.Redis.Store.{JobHash, Store, Redis}
use py_app_runner.Queue.Redis.Reserve.{
  Call, queue_or, due_ids, promote, Turn, idle, again, handed, round, Handed, on_turn, rounds,
  or_lower, walk, reserve_script, on_payload, job_of,
}
use py_app_runner.Queue.Redis.Kept.Handles.{IsHandled}
use py_app_runner.Queue.Redis.Kept.Places.{IsSound, IsRedis}
use py_app_runner.Queue.Redis.Kept.Push.{Keeping, Keeping-same}
use py_app_runner.Queue.Redis.Kept.Completion.{fail_raw-Keeping}
use py_app_runner.Queue.Redis.Kept.Rounds.{IsGoodTurn, round_good, promote-Keeping}
use py_app_runner.Queue.Redis.Kept.Reports.{Keeping-trans}

abbrev pub IsHandedOk : Redis → Option Handed → Store → Type 0
IsHandedOk r none s = Unit
IsHandedOk r (some (id, entry, hash)) s = IsHandled r id entry s

abbrev pub IsGood : Redis → Store → Option Handed × Store → Type 0
IsGood r s (o, s') = Keeping r s s' × IsHandedOk r o s'

-- The same of the job that the driver makes.
abbrev pub IsGoodJob : {Payload : Type 0} → Redis → Option (Job Payload) → Store → Type 0
IsGoodJob r none s = Unit
IsGoodJob r (some job) s = IsHandled r job.id job.handle s

module _ (r : Redis) (law : IsRedis r) where
  later : {s s' : Store} (x : Option Handed × Store) → Keeping r s s' → IsGood r s' x → IsGood r s x
  later (o, s'') k (g, h) = (Keeping-trans r law k g, h)

  turned :
      (next : Store → Option Handed × Store) (s : Store) (t : Turn)
      → IsGoodTurn r s t
      → ((s' : Store) → IsSound s' → IsGood r s' (next s'))
      → IsSound s
      → IsGood r s (on_turn next s t)
  unfolding on_turn
  turned next s idle g k sound = (Keeping-same r law s, tt)
  turned next s (again s') g k sound = later (next s') g (k s' (g.1.sound sound))
  turned next s (handed id entry hash s') g k sound = g

  rounds_good :
      (call : Call) (level : ℤ) (n : ℕ) (s : Store)
      → IsSound s
      → IsGood r s (rounds r call level n s)
  unfolding rounds
  rounds_good call level zero s sound = (Keeping-same r law s, tt)
  rounds_good call level (suc n) s sound =
      turned (rounds r call level n) s (round r call level s) (round_good r law call level s sound)
        (rounds_good call level n) sound

  lower :
      (next : Store → Option Handed × Store) (s : Store) (x : Option Handed × Store)
      → IsGood r s x
      → ((s' : Store) → IsSound s' → IsGood r s' (next s'))
      → IsSound s
      → IsGood r s (or_lower x next)
  unfolding or_lower
  lower next s (some h, s') g k sound = g
  lower next s (none, s') g k sound = later (next s') g.0 (k s' (g.0.1.sound sound))

  walk_good :
      (call : Call) (levels : List ℤ) (s : Store) → IsSound s → IsGood r s (walk r call levels s)
  unfolding walk
  walk_good call [] s sound = (Keeping-same r law s, tt)
  walk_good call (level ∷ levels) s sound =
      lower (walk r call levels) s (rounds r call level claim_rounds s)
        (rounds_good call level claim_rounds s sound) (walk_good call levels) sound

  pub script_good : (call : Call) (s : Store) → IsSound s → IsGood r s (reserve_script r call s)
  unfolding reserve_script
  script_good call s sound =
      let ids = due_ids call.queue call.now s in
      let promoted = promote r call.queue ids s in
      let k = promote-Keeping r law call.queue ids s in
      later (reserve_script r call s) k
        (walk_good call (promoted.levels call.queue) promoted (k.1.sound sound))

  -- What the driver makes of an answer, with nothing between the two scripts.
  pub payload_good :
      {Payload : Type 0} (call : Call) (id : ℕ) (entry : String) (hash : JobHash)
      (o : Option Payload) (s : Store)
      → IsHandled r id entry s
      → Keeping r s (on_payload r call (λ t. t) (id, entry, hash) o s).1
        × IsGoodJob r
            (on_payload r call (λ t. t) (id, entry, hash) o s).0
            (on_payload r call (λ t. t) (id, entry, hash) o s).1
  unfolding on_payload job_of
  payload_good call id entry hash (some payload) s h = (Keeping-same r law s, h)
  payload_good call id entry hash none s h = (
    fail_raw-Keeping r law id (queue_or hash.queue call.queue) entry hash.reserved_by hash.attempts
        payload_error call.now call.failed_at s h.own,
    tt,
  )
