-- ===== src/Queue/Pg/Order.antt =====
-- The order of the candidate SELECT: priority DESC, available_at, id.
use py_app_runner.Prelude.{
  ℕ, ◌+◌, ◌≡◌, refl, subst, ◌≢◌, inl, inr, Bool, true, false, not, ◌&&◌, ◌||◌, Option, none, some,
  List, [], ◌∷◌, arith, ltb, ◌==◌, Bool-cases, All, All-map,
}
use py_app_runner.Prelude.Int.{pos_part, neg_part}
use py_app_runner.Queue.Pg.Tables.{Row, better, first_by, precedes}

-- The test of `precedes` on the numbers that it compares.
abbrev before_by : ℕ → ℕ → ℕ → ℕ → ℕ → ℕ → ℕ → ℕ → Bool
before_by p p' n n' a a' i i' =
    ltb (p' + n) (p + n') || not (ltb (p + n') (p' + n)) && (ltb a a' || a == a' && ltb i i')

before_by_asym :
    (p p' n n' a a' i i' : ℕ)
    → before_by p p' n n' a a' i i' ≡ true
    → before_by p' p n' n a' a i' i ≡ false
before_by_asym p p' n n' a a' i i' h = ground arith

before_by_trans :
    (p p' p'' n n' n'' a a' a'' i i' i'' : ℕ)
    → before_by p p' n n' a a' i i' ≡ false
    → before_by p' p'' n' n'' a' a'' i' i'' ≡ false
    → before_by p p'' n n'' a a'' i i'' ≡ false
before_by_trans p p' p'' n n' n'' a a' a'' i i' i'' h k = ground arith

precedes_irrefl : (r : Row) → precedes r r ≡ false
unfolding precedes
precedes_irrefl r = ground arith

precedes_asym : (r s : Row) → precedes r s ≡ true → precedes s r ≡ false
unfolding precedes
precedes_asym r s h =
    before_by_asym (pos_part r.priority) (pos_part s.priority) (neg_part r.priority)
      (neg_part s.priority) r.available_at s.available_at r.id s.id h

precedes_trans : (r s t : Row) → precedes r s ≡ false → precedes s t ≡ false → precedes r t ≡ false
unfolding precedes
precedes_trans r s t h k =
    before_by_trans (pos_part r.priority) (pos_part s.priority) (pos_part t.priority)
      (neg_part r.priority) (neg_part s.priority) (neg_part t.priority) r.available_at
      s.available_at t.available_at r.id s.id t.id h k

better_least :
    (x : Row) (xs : List Row) (o : Option Row) {y : Row}
    → ((z : Row) → o ≡ some z → All (λ w. precedes w z ≡ false) xs)
    → (o ≡ none → xs ≡ [])
    → better precedes x o ≡ some y
    → All (λ w. precedes w y ≡ false) (x ∷ xs)
unfolding better
better_least x xs none {y} least empty h =
    let same : x ≡ y = cc in rw (empty refl) (rw (← same) (precedes_irrefl x), tt)
better_least x xs (some z) {y} least empty h = elim (Bool-cases (precedes z x)) [
  | inl e ↦
      let found : some z ≡ some y = rw e at h in
      let same : z ≡ y = cc in
      subst (λ v. All (λ w. precedes w v ≡ false) (x ∷ xs)) same (precedes_asym z x e, least z refl)
  | inr e ↦
      let found : some x ≡ some y = rw e at h in
      let same : x ≡ y = cc in
      subst (λ v. All (λ w. precedes w v ≡ false) (x ∷ xs)) same
        (precedes_irrefl x, All-map _ _ xs (λ w k. precedes_trans w z x k e) (least z refl))
]

better-some : (x : Row) (o : Option Row) → better precedes x o ≢ none
unfolding better
better-some x none h = cc
better-some x (some z) h = ground arith

first_by-none : (xs : List Row) → first_by precedes xs ≡ none → xs ≡ []
unfolding first_by
first_by-none [] h = refl
first_by-none (x ∷ xs) h = absurd (better-some x (first_by precedes xs) h)

-- No row of the list precedes the one that is kept.
pub first_by-least :
    (xs : List Row) {y : Row} → first_by precedes xs ≡ some y → All (λ x. precedes x y ≡ false) xs
unfolding first_by
first_by-least [] h = tt
first_by-least (x ∷ xs) h =
    better_least x xs (first_by precedes xs) (λ z e. first_by-least xs e) (first_by-none xs) h
