-- ===== src/Queue/Redis/Kept/Lists.antt =====
-- Searches in lists that a command has changed.
use py_app_runner.Prelude.{
  ◌≡◌, refl, inl, inr, Bool, true, ◌||◌, List, [], ◌∷◌, ◌++◌, map, arith, Bool-cases, filter, any,
  All, AllPairs,
}
use py_app_runner.Prelude.Int.{ℤ, eq_ℤ}
use py_app_runner.Queue.Redis.Store.{Due, Failed, Redis, insert_due, insert_failed, insert_level}

module _ {A : Type 0} where
  pub any-append : (p : A → Bool) (xs ys : List A) → any p (xs ++ ys) ≡ (any p xs || any p ys)
  any-append p [] ys = refl
  any-append p (x ∷ xs) ys = ground (arith, any-append p xs ys)

  -- A filter that keeps what is looked for.
  pub any-filter :
      (p q : A → Bool) (xs : List A)
      → ((x : A) → p x ≡ true → q x ≡ true)
      → any p (filter q xs) ≡ any p xs
  any-filter p q [] k = refl
  any-filter p q (x ∷ xs) k = elim (Bool-cases (q x)) [
    | inl e ↦ rw (e, any-filter p q xs k) refl
    | inr e ↦ elim (Bool-cases (p x)) [
      | inl e' ↦ absurd (cc (e, k x e'))
      | inr e' ↦ rw (e, e', any-filter p q xs k) refl
    ]
  ]

  pub any-map :
      {B : Type 0} (p : B → Bool) (f : A → B) (xs : List A)
      → any p (map f xs) ≡ any (λ x. p (f x)) xs
  any-map p f [] = refl
  any-map p f (x ∷ xs) = rw (any-map p f xs) refl

  pub any_same : (p q : A → Bool) (xs : List A) → ((x : A) → p x ≡ q x) → any p xs ≡ any q xs
  any_same p q [] k = refl
  any_same p q (x ∷ xs) k = rw (k x, any_same p q xs k) refl

  pub All-mapped {κ} :
      (P : A → Type κ) (f : A → A) (xs : List A)
      → ((x : A) → P x → P (f x))
      → All P xs
      → All P (map f xs)
  All-mapped P f [] k h = tt
  All-mapped P f (x ∷ xs) k h = (k x h.0, All-mapped P f xs k h.1)

  pub AllPairs-mapped {κ} :
      (R : A → A → Type κ) (f : A → A) (xs : List A)
      → ((x y : A) → R x y → R (f x) (f y))
      → AllPairs R xs
      → AllPairs R (map f xs)
  AllPairs-mapped R f [] k h = tt
  AllPairs-mapped R f (x ∷ xs) k h = (mapped x xs h.0, AllPairs-mapped R f xs k h.1)
    where
      mapped : (x : A) (ys : List A) → All (R x) ys → All (R (f x)) (map f ys)
      mapped x [] h = tt
      mapped x (y ∷ ys) h = (k x y h.0, mapped x ys h.1)

pub any-insert_due :
    (r : Redis) (p : Due → Bool) (d : Due) (ds : List Due)
    → any p (insert_due r d ds) ≡ (p d || any p ds)
unfolding insert_due
any-insert_due r p d [] = ground arith
any-insert_due r p d (e ∷ es) = ground (arith, any-insert_due r p d es)

pub any-insert_failed :
    (r : Redis) (p : Failed → Bool) (f : Failed) (fs : List Failed)
    → any p (insert_failed r f fs) ≡ (p f || any p fs)
unfolding insert_failed
any-insert_failed r p f [] = ground arith
any-insert_failed r p f (g ∷ gs) = ground (arith, any-insert_failed r p f gs)

-- A level stays listed, and the new one is.
pub any-insert_level_keeps :
    (p : ℤ → Bool) (level : ℤ) (levels : List ℤ)
    → any p levels ≡ true
    → any p (insert_level level levels) ≡ true
unfolding insert_level
any-insert_level_keeps p level [] h = absurd (cc h)
any-insert_level_keeps p level (other ∷ others) h =
    ground (arith, any-insert_level_keeps p level others)

pub eq_ℤ_self : (a : ℤ) → eq_ℤ a a ≡ true
eq_ℤ_self a = ground arith

pub any-insert_level_new :
    (level : ℤ) (levels : List ℤ) → any (eq_ℤ level) (insert_level level levels) ≡ true
unfolding insert_level
any-insert_level_new level [] = rw (eq_ℤ_self level) refl
any-insert_level_new level (other ∷ others) =
    ground (arith, any-insert_level_new level others, eq_ℤ_self level)
