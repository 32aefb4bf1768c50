-- ===== src/Cron/Overlap.antt =====
-- No job runs twice at once, and no lock is left behind, in whatever order the runs take their steps.
use py_app_runner.Prelude.{
  ℕ, String, ◌≡◌, refl, sym, ap, ◌∙◌, subst, inl, inr, Bool, true, false, not, ◌&&◌, none, List, [],
  ◌∷◌, arith, str_eq, eq_iff, ◌==◌, if◌then◌else◌, ==_iff, Bool-cases, &&_true, not-false→true,
  if_both,
}
use py_app_runner.Cron.Execute.{
  skipped_run, is_held, acquire, release, Phase, waiting, starting, running, leaving, ended, Os,
  on_lock, spawned, outcome_of, advance, Runs, at_run, take_step, take_steps, all_waiting,
}

-- A run that has the lock of its job.
unfoldable pub is_active : Phase → Bool
is_active waiting = false
is_active starting = true
is_active running = true
is_active (leaving o) = true
is_active (ended o) = false

pub record IsExclusive (names : ℕ → String) (s : Runs) : Type 0 where
  pub locked : (i : ℕ) → is_active (s.phase i) ≡ true → is_held (names i) s.held ≡ true
  pub alone :
      (i j : ℕ)
      → is_active (s.phase i) ≡ true
      → is_active (s.phase j) ≡ true
      → names i ≡ names j
      → i ≡ j
  pub owned :
      (name : String)
      → is_held name s.held ≡ true
      → (i : ℕ) × (is_active (s.phase i) ≡ true) × (names i ≡ name)

-- A run that keeps the lock that it has, or goes on without.
same_lock :
    (names : ℕ → String) (i : ℕ) (p : Phase) (s : Runs)
    → is_active p ≡ is_active (s.phase i)
    → IsExclusive names s
    → IsExclusive names (record { held = s.held; phase = at_run i p s.phase })
unfolding at_run
same_lock names i p s e x = record {
  locked = λ j a. x.locked j (sym (same j) ∙ a);
  alone = λ j k a b q. x.alone j k (sym (same j) ∙ a) (sym (same k) ∙ b) q;
  owned = λ name h. let (j, a, q) = x.owned name h in (j, same j ∙ a, q);
}
  where
    same : (j : ℕ) → is_active (if j == i then p else s.phase j) ≡ is_active (s.phase j)
    same j = elim (Bool-cases (j == i)) [
      | inl q ↦ rw q (e ∙ ap (λ k. is_active (s.phase k)) (sym ((==_iff j i).0 q)))
      | inr q ↦ rw q refl
    ]

is_held-release :
    (k name : String) (held : List String)
    → is_held k (release name held) ≡ (is_held k held && not (str_eq k name))
unfolding is_held release
is_held-release k name [] = refl
is_held-release k name (other ∷ held) =
    ground (arith, is_held-release k name held, eq_iff k other, eq_iff other name, eq_iff k name)

-- A run that takes a lock that nobody holds.
taken_lock :
    (names : ℕ → String) (i : ℕ) (p : Phase) (s : Runs)
    → is_active p ≡ true
    → is_held (names i) s.held ≡ false
    → IsExclusive names s
    → IsExclusive names (record { held = names i ∷ s.held; phase = at_run i p s.phase })
unfolding at_run is_held
taken_lock names i p s e free x = record {
  locked = λ j a. elim (Bool-cases (j == i)) [
    | inl q ↦ rw ((==_iff j i).0 q, (eq_iff (names i) (names i)).1 refl) refl
    | inr q ↦
        let h = x.locked j (rw q at a) in
        elim (Bool-cases (str_eq (names j) (names i))) [
          | inl t ↦ rw t refl
          | inr t ↦ rw (t, h) refl
        ]
  ];
  alone = λ j k a b same. elim (Bool-cases (j == i)) [
    | inl q ↦ elim (Bool-cases (k == i)) [
      | inl r ↦ (==_iff j i).0 q ∙ sym ((==_iff k i).0 r)
      | inr r ↦ absurd (clash k (rw r at b) (sym same ∙ ap names ((==_iff j i).0 q)))
    ]
    | inr q ↦ elim (Bool-cases (k == i)) [
      | inl r ↦ absurd (clash j (rw q at a) (same ∙ ap names ((==_iff k i).0 r)))
      | inr r ↦ x.alone j k (rw q at a) (rw r at b) same
    ]
  ];
  owned = λ name h. elim (Bool-cases (str_eq name (names i))) [
    | inl q ↦ (i, rw ((==_iff i i).1 refl) e, sym ((eq_iff name (names i)).0 q))
    | inr q ↦ let (j, a, n) = x.owned name (rw q at h) in (j, still j a, n)
  ];
}
  where
    clash : (k : ℕ) → is_active (s.phase k) ≡ true → names k ≡ names i → ⊥
    clash k b n = cc (subst (λ t. is_held t s.held ≡ true) n (x.locked k b), free)

    still :
        (j : ℕ) → is_active (s.phase j) ≡ true → is_active (if j == i then p else s.phase j) ≡ true
    still j a = elim (Bool-cases (j == i)) [ inl q ↦ rw q e | inr q ↦ rw q a ]

-- A run that gives its lock back.
freed_lock :
    (names : ℕ → String) (i : ℕ) (p : Phase) (s : Runs)
    → is_active p ≡ false
    → is_active (s.phase i) ≡ true
    → IsExclusive names s
    → IsExclusive names (record { held = release (names i) s.held; phase = at_run i p s.phase })
unfolding at_run
freed_lock names i p s e was x = record {
  locked = λ j a.
      let (q, b) = other j a in
      rw (is_held-release (names j) (names i) s.held, x.locked j b, apart j q b) refl;
  alone = λ j k a b same. x.alone j k (other j a).1 (other k b).1 same;
  owned = λ name h.
      let (kept, t) =
        &&_true (is_held name s.held) (not (str_eq name (names i)))
          (sym (is_held-release name (names i) s.held) ∙ h) in
      let (j, a, n) = x.owned name kept in
      (j, rw (not_me name j n (not-false→true (str_eq name (names i)) t)) a, n);
}
  where
    other :
        (j : ℕ)
        → is_active (if j == i then p else s.phase j) ≡ true
        → ((j == i) ≡ false) × (is_active (s.phase j) ≡ true)
    other j a = elim (Bool-cases (j == i)) [
      | inl q ↦ let on : is_active p ≡ true = rw q at a in absurd (cc (on, e))
      | inr q ↦ (q, rw q at a)
    ]

    apart :
        (j : ℕ)
        → (j == i) ≡ false
        → is_active (s.phase j) ≡ true
        → str_eq (names j) (names i) ≡ false
    apart j q b = elim (Bool-cases (str_eq (names j) (names i))) [
      | inl t ↦
          let same = x.alone j i b was ((eq_iff (names j) (names i)).0 t) in
          absurd (cc (q, (==_iff j i).1 same))
      | inr t ↦ t
    ]

    not_me :
        (name : String) (j : ℕ) → names j ≡ name → str_eq name (names i) ≡ false → (j == i) ≡ false
    not_me name j n t = elim (Bool-cases (j == i)) [
      | inl q ↦
          let me : name ≡ names i = sym n ∙ ap names ((==_iff j i).0 q) in
          absurd (cc (t, (eq_iff name (names i)).1 me))
      | inr q ↦ q
    ]

take_step-IsExclusive :
    (names : ℕ → String) (i : ℕ) (os : Os) (s : Runs)
    → IsExclusive names s
    → IsExclusive names (take_step names i os s)
unfolding take_step is_active
take_step-IsExclusive names i os s x = of_phase (s.phase i) refl
  where
    of_phase :
        (q : Phase)
        → s.phase i ≡ q
        → IsExclusive names (record {
          held = (advance (names i) os q s.held).1;
          phase = at_run i (advance (names i) os q s.held).0 s.phase;
        })
    of_phase waiting e = elim (Bool-cases (is_held (names i) s.held)) [
      | inl t ↦
          unfold advance on_lock acquire in
          rw t (
            same_lock names i
              (ended (record { job = names i; status = skipped_run; returncode = none })) s
              (ap (λ p. is_active p) (sym e)) x)
      | inr t ↦ unfold advance on_lock acquire in rw t (taken_lock names i starting s refl t x)
    ]
    of_phase starting e =
        unfold advance spawned in
        same_lock names i (spawned (names i) os) s
          (if_both (λ p. is_active p ≡ true) os.starts refl refl ∙ sym (ap (λ p. is_active p) e)) x
    of_phase running e =
        unfold advance in
        same_lock names i (leaving (outcome_of (names i) os)) s (ap (λ p. is_active p) (sym e)) x
    of_phase (leaving o) e =
        unfold advance in freed_lock names i (ended o) s refl (ap (λ p. is_active p) e) x
    of_phase (ended o) e =
        unfold advance in same_lock names i (ended o) s (ap (λ p. is_active p) (sym e)) x

from_state :
    (names : ℕ → String) (steps : List (ℕ × Os)) (s : Runs)
    → IsExclusive names s
    → IsExclusive names (take_steps names steps s)
unfolding take_steps
from_state names [] s x = x
from_state names ((i, os) ∷ steps) s x =
    from_state names steps (take_step names i os s) (take_step-IsExclusive names i os s x)

-- However the runs of the jobs take their steps, from none started: a run that has passed the lock holds
-- the lock of its job, no two runs of jobs of one name have passed it at once, and a lock that is held
-- is one that some run has, so that it is free again once the runs have ended.
pub take_steps-IsExclusive :
    (names : ℕ → String) (steps : List (ℕ × Os))
    → IsExclusive names (take_steps names steps all_waiting)
unfolding is_active is_held
take_steps-IsExclusive names steps = from_state names steps all_waiting (record {
  locked = λ i a. absurd (cc a);
  alone = λ i j a b q. absurd (cc a);
  owned = λ name h. absurd (cc h);
})
