-- ===== src/Queue/Redis/Aged.antt =====
-- What a reserve does to the hashes: those that it does not hand out, and the one that it does.
use py_app_runner.Prelude.{
  ℕ, ◌+◌, ◌≤◌, ◌<◌, String, ◌≡◌, refl, sym, ap, ◌∙◌, subst, ◌≢◌, inl, inr, Option, none, some, List,
  [], ◌∷◌, arith, str_eq, ltb, leb, ◌==◌, ==_iff, Bool-cases, if_both, any,
}
use py_app_runner.Prelude.Int.{ℤ}
use py_app_runner.Queue.Pg.Reserve.{exhausted_error}
use py_app_runner.Queue.Redis.Store.{
  JobHash, Entry, Store, Redis, is_due_for, hset, set_unique, zrem_delayed, zadd_delayed,
  drop_entry, deliver, zadd_failed, xadd, zadd_level, add_ready,
}
use py_app_runner.Queue.Redis.Completion.{freed_key, buried, buried_hash}
use py_app_runner.Queue.Redis.Kept.Commands.{hset-jobs}
use py_app_runner.Queue.Redis.Kept.Moves.{hset_others}
use py_app_runner.Queue.Redis.Reserve.{
  Call, promote_hash, promote_one, promote, next_entry, Turn, idle, again, handed, park, bury,
  claimed_hash, on_hash, on_entry, round,
}

-- What a reserve may do to a hash that it does not hand out: only a job out of attempts loses its claim.
pub record Ages (hash hash' : JobHash) : Type 0 where
  pub attempts : hash'.attempts ≡ hash.attempts
  pub max_attempts : hash'.max_attempts ≡ hash.max_attempts
  pub payload : hash'.payload ≡ hash.payload
  pub queue : hash'.queue ≡ hash.queue
  pub name : hash'.name ≡ hash.name
  pub claim : hash.attempts < hash.max_attempts → hash'.reserved_until ≡ hash.reserved_until

abbrev pub AgesAt : Option JobHash → Option JobHash → Type 0
AgesAt none none = Unit
AgesAt none (some hash') = ⊥
AgesAt (some hash) none = ⊥
AgesAt (some hash) (some hash') = Ages hash hash'

abbrev pub Aged : Store → Store → Type 0
Aged s s' = (j : ℕ) → AgesAt (s.jobs j) (s'.jobs j)

Ages-same : (hash : JobHash) → Ages hash hash
Ages-same hash = record {
  attempts = refl;
  max_attempts = refl;
  payload = refl;
  queue = refl;
  name = refl;
  claim = λ h. refl;
}

AgesAt-same : (o : Option JobHash) → AgesAt o o
AgesAt-same none = tt
AgesAt-same (some hash) = Ages-same hash

AgesAt-trans : (a b c : Option JobHash) → AgesAt a b → AgesAt b c → AgesAt a c
AgesAt-trans none none none m n = tt
AgesAt-trans (some a) (some b) (some c) m n = record {
  attempts = n.attempts ∙ m.attempts;
  max_attempts = n.max_attempts ∙ m.max_attempts;
  payload = n.payload ∙ m.payload;
  queue = n.queue ∙ m.queue;
  name = n.name ∙ m.name;
  claim = λ h. n.claim (omega (arith, h, m.attempts, m.max_attempts)) ∙ m.claim h;
}
AgesAt-trans none none (some c) m n = n
AgesAt-trans none (some b) c m n = absurd m
AgesAt-trans (some a) none c m n = absurd m
AgesAt-trans (some a) (some b) none m n = n

pub Aged-trans : (s t u : Store) → Aged s t → Aged t u → Aged s u
Aged-trans s t u m n j = AgesAt-trans (s.jobs j) (t.jobs j) (u.jobs j) (m j) (n j)

pub Aged-same : (s : Store) → Aged s s
Aged-same s j = AgesAt-same (s.jobs j)

hset-Aged :
    (id : ℕ) (hash hash' : JobHash) (s : Store)
    → s.jobs id ≡ some hash
    → Ages hash hash'
    → Aged s (hset id (some hash') s)
unfolding hset
hset-Aged id hash hash' s e a j = elim (Bool-cases (j == id)) [
  | inl q ↦ let at : s.jobs j ≡ some hash = ap s.jobs ((==_iff j id).0 q) ∙ e in rw (q, at) a
  | inr q ↦ rw q (AgesAt-same (s.jobs j))
]

-- The claim that a script puts on the job it hands out, and the one it finds there.
pub record IsTaken (call : Call) (s s' : Store) (id : ℕ) (hash : JobHash) : Type 0 where
  pub before : JobHash
  pub stood : s.jobs id ≡ some before
  pub ended : before.reserved_until ≤ call.now
  pub left : before.attempts < before.max_attempts
  pub stored : s'.jobs id ≡ some hash
  pub counted : hash.attempts ≡ before.attempts + 1
  pub held : hash.reserved_by ≡ call.worker
  pub until : hash.reserved_until ≡ call.now + call.timeout
  pub payload : hash.payload ≡ before.payload
  pub queue : hash.queue ≡ before.queue
  pub name : hash.name ≡ before.name
  pub others : (j : ℕ) → j ≢ id → AgesAt (s.jobs j) (s'.jobs j)

-- the hash that another has aged from
aged_from :
    (o : Option JobHash) (hash' : JobHash)
    → AgesAt o (some hash')
    → (hash : JobHash) × (o ≡ some hash) × Ages hash hash'
aged_from none hash' a = absurd a
aged_from (some hash) hash' a = (hash, refl, a)

pub earlier :
    (call : Call) (s t u : Store) (id : ℕ) (hash : JobHash)
    → Aged s t
    → IsTaken call t u id hash
    → IsTaken call s u id hash
earlier call s t u id hash aged taken =
    let (before, stood, a) =
      aged_from (s.jobs id) taken.before (subst (AgesAt (s.jobs id)) taken.stood (aged id)) in
    record {
      before = before;
      stood = stood;
      ended =
          omega
            (arith, taken.ended, a.claim (omega (arith, taken.left, a.attempts, a.max_attempts)));
      left = omega (arith, taken.left, a.attempts, a.max_attempts);
      stored = taken.stored;
      counted = omega (arith, taken.counted, a.attempts);
      held = taken.held;
      until = taken.until;
      payload = taken.payload ∙ a.payload;
      queue = taken.queue ∙ a.queue;
      name = taken.name ∙ a.name;
      others = λ j ne. AgesAt-trans _ _ _ (aged j) (taken.others j ne);
    }

abbrev pub IsFair : Call → Store → Turn → Type 0
IsFair call s idle = Unit
IsFair call s (again s') = Aged s s'
IsFair call s (handed id entry hash s') = IsTaken call s s' id hash

pub freed_key-jobs : (hash : JobHash) (s : Store) → (freed_key hash s).jobs ≡ s.jobs
unfolding freed_key set_unique
freed_key-jobs hash s =
    if_both (λ (t : Store). t.jobs ≡ s.jobs) (str_eq hash.unique_key "") refl refl

module _ (r : Redis) where
  add_ready-Aged :
      (queue : String) (id : ℕ) (hash : JobHash) (s : Store)
      → s.jobs id ≡ some hash
      → Aged s (add_ready r queue id hash s)
  unfolding add_ready xadd zadd_level
  add_ready-Aged queue id hash s e =
      unfold hset in
      hset-Aged id hash (record hash { entry = r.entry_id s.added }) s e
        (record {
          attempts = refl;
          max_attempts = refl;
          payload = refl;
          queue = refl;
          name = refl;
          claim = λ h. refl;
        })

  pub promote-Aged : (queue : String) (ids : List ℕ) (s : Store) → Aged s (promote r queue ids s)
  unfolding promote promote_one
  promote-Aged queue [] s = Aged-same s
  promote-Aged queue (id ∷ ids) s =
      Aged-trans s (promote_one r queue id s) (promote r queue ids (promote_one r queue id s))
        (if_both (Aged s) (any (is_due_for queue id) s.delayed) (stored (s.jobs id) refl)
          (Aged-same s))
        (promote-Aged queue ids (promote_one r queue id s))
    where
      stored :
          (o : Option JobHash)
          → s.jobs id ≡ o
          → Aged s (promote_hash r queue id o (zrem_delayed queue id s))
      stored none e = unfold promote_hash zrem_delayed in Aged-same s
      stored (some hash) e =
          unfold promote_hash zrem_delayed in
          add_ready-Aged queue id hash (zrem_delayed queue id s) e

  module _ (call : Call) (level : ℤ) where
    buried-Aged :
        (e : Entry) (hash : JobHash) (s : Store)
        → s.jobs e.job ≡ some hash
        → hash.max_attempts ≤ hash.attempts
        → Aged s (bury r call level e hash s)
    unfolding bury buried zadd_failed freed_key drop_entry
    buried-Aged e hash s stood out j =
        rw (freed_key-jobs hash (drop_entry r call.queue level (r.entry_id e.number) s)) (
          unfold hset drop_entry in
          hset-Aged e.job hash (buried_hash hash exhausted_error call.failed_at) s stood
            (record {
              attempts = refl;
              max_attempts = refl;
              payload = refl;
              queue = refl;
              name = refl;
              claim = λ h. absurd (omega (arith, h, out));
            })
            j)

    on_hash-IsFair :
        (e : Entry) (o : Option JobHash) (s : Store)
        → s.jobs e.job ≡ o
        → IsFair call s (on_hash r call level e o s)
    unfolding on_hash park drop_entry zadd_delayed claimed_hash
    on_hash-IsFair e none s stood = Aged-same s
    on_hash-IsFair e (some hash) s stood = elim (Bool-cases (ltb call.now hash.reserved_until)) [
      | inl running ↦ rw running (
          unfold hset in
          hset-Aged e.job hash (record hash { entry = "" }) s stood
            (record {
              attempts = refl;
              max_attempts = refl;
              payload = refl;
              queue = refl;
              name = refl;
              claim = λ h. refl;
            }))
      | inr ended ↦ elim (Bool-cases (leb hash.max_attempts hash.attempts)) [
        | inl out ↦ rw (ended, out) (buried-Aged e hash s stood (ground (arith, out)))
        | inr left ↦
            rw (ended, left)
              (record {
                before = hash;
                stood = stood;
                ended = ground (arith, ended);
                left = ground (arith, left);
                stored = hset-jobs e.job (some (claimed_hash r call e hash)) s;
                counted = refl;
                held = refl;
                until = refl;
                payload = refl;
                queue = refl;
                name = refl;
                others = λ j ne.
                    subst (AgesAt (s.jobs j))
                      (sym (hset_others r e.job (some (claimed_hash r call e hash)) s j ne))
                      (AgesAt-same (s.jobs j));
              })
      ]
    ]

    -- after a change that only aged the hashes
    sooner : (s t : Store) (turn : Turn) → Aged s t → IsFair call t turn → IsFair call s turn
    sooner s t idle g f = tt
    sooner s t (again u) g f = Aged-trans s t u g f
    sooner s t (handed id entry hash u) g f = earlier call s t u id hash g f

    pub round-IsFair : (s : Store) → IsFair call s (round r call level s)
    unfolding round on_entry deliver
    round-IsFair s = taken (next_entry r call level s)
      where
        taken : (o : Option Entry) → IsFair call s (on_entry r call level o s)
        taken none = tt
        taken (some e) =
            let s' = deliver call.ms e.number s in
            sooner s s' (on_hash r call level e (s.jobs e.job) s') (Aged-same s)
              (on_hash-IsFair e (s.jobs e.job) s' refl)
