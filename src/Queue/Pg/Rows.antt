-- ===== src/Queue/Pg/Rows.antt =====
-- How filters and updates keep what holds of every row and between rows.
use py_app_runner.Prelude.{
  suc, ◌≡◌, refl, ap, inl, inr, Bool, true, false, not, none, some, List, [], ◌∷◌, arith,
  if◌then◌else◌, Bool-cases, length, filter, any, find, count, All, All-intro, All-map, AllPairs,
}
use py_app_runner.Queue.Pg.Tables.{update_where}

module _ {ℓ} {A : Type ℓ} where
  pub All-update_where {κ} :
      (P : A → Type κ) (p : A → Bool) (f : A → A) (xs : List A)
      → All (λ x. P x → p x ≡ true → P (f x)) xs
      → All P xs
      → All P (update_where p f xs)
  unfolding update_where
  All-update_where P p f [] keep h = tt
  All-update_where P p f (x ∷ xs) keep h = elim (Bool-cases (p x)) [
    | inl e ↦ rw e (keep.0 h.0 e, All-update_where P p f xs keep.1 h.1)
    | inr e ↦ rw e (h.0, All-update_where P p f xs keep.1 h.1)
  ]

  module _ {κ} (R : A → A → Type κ) (p : A → Bool) (f : A → A)
      (left : (x y : A) → R x y → R (f x) y) (right : (x y : A) → R x y → R x (f y)) where
    pub AllPairs-update_where : (xs : List A) → AllPairs R xs → AllPairs R (update_where p f xs)
    unfolding update_where
    AllPairs-update_where [] h = tt
    AllPairs-update_where (x ∷ xs) h = elim (Bool-cases (p x)) [
      | inl e ↦ rw e (
        All-update_where (R (f x)) p f xs (All-intro _ xs (λ y r _. right (f x) y r))
            (All-map (R x) (R (f x)) xs (λ y. left x y) h.0),
        AllPairs-update_where xs h.1,
      )
      | inr e ↦ rw e (
        All-update_where (R x) p f xs (All-intro _ xs (λ y r _. right x y r)) h.0,
        AllPairs-update_where xs h.1,
      )
    ]

  -- What a search returns passes the test, and every property that all elements have.
  pub find-All {κ} :
      (P : A → Type κ) (p : A → Bool) (xs : List A) {x : A}
      → find p xs ≡ some x
      → All P xs
      → P x × (p x ≡ true)
  find-All P p [] h all = absurd (cc h)
  find-All P p (y ∷ xs) {x} h all = elim (Bool-cases (p y)) [
    | inl e ↦
        let found : some y ≡ some x = rw e at h in let same : y ≡ x = cc in rw (← same) (all.0, e)
    | inr e ↦ find-All P p xs (rw e at h) all.1
  ]

  pub length-update_where :
      (p : A → Bool) (f : A → A) (xs : List A) → length (update_where p f xs) ≡ length xs
  unfolding update_where
  length-update_where p f [] = refl
  length-update_where p f (x ∷ xs) = ap suc (length-update_where p f xs)

  pub any-false : (p : A → Bool) (xs : List A) → any p xs ≡ false → All (λ x. p x ≡ false) xs
  any-false p [] h = tt
  any-false p (x ∷ xs) h = elim (Bool-cases (p x)) [
    | inl e ↦ absurd (cc (rw e at h))
    | inr e ↦ (e, any-false p xs (rw e at h))
  ]

  -- An update whose test is decided for each element.
  pub All-updated {κ} :
      (Q : A → Type κ) (p : A → Bool) (f : A → A) (xs : List A)
      → All (λ x. p x ≡ true → Q (f x)) xs
      → All (λ x. p x ≡ false → Q x) xs
      → All Q (update_where p f xs)
  unfolding update_where
  All-updated Q p f [] hit miss = tt
  All-updated Q p f (x ∷ xs) hit miss = elim (Bool-cases (p x)) [
    | inl e ↦ rw e (hit.0 e, All-updated Q p f xs hit.1 miss.1)
    | inr e ↦ rw e (miss.0 e, All-updated Q p f xs hit.1 miss.1)
  ]

  -- A statement whose WHERE meets no row does nothing.
  pub update_where-none :
      (p : A → Bool) (f : A → A) (xs : List A)
      → All (λ x. p x ≡ false) xs
      → update_where p f xs ≡ xs
  unfolding update_where
  update_where-none p f [] h = refl
  update_where-none p f (x ∷ xs) h = rw (h.0, update_where-none p f xs h.1)

  pub count-none : (p : A → Bool) (xs : List A) → All (λ x. p x ≡ false) xs → count p xs ≡ 0
  count-none p [] h = refl
  count-none p (x ∷ xs) h = rw h.0 (count-none p xs h.1)

  pub filter-none :
      (p : A → Bool) (xs : List A) → All (λ x. p x ≡ false) xs → filter (λ x. not (p x)) xs ≡ xs
  filter-none p [] h = refl
  filter-none p (x ∷ xs) h = rw (h.0, filter-none p xs h.1)

  pub find-none : (p : A → Bool) (xs : List A) → All (λ x. p x ≡ false) xs → find p xs ≡ none
  find-none p [] h = refl
  find-none p (x ∷ xs) h = rw h.0 (find-none p xs h.1)

  pub find-any : (p : A → Bool) (xs : List A) {x : A} → find p xs ≡ some x → any p xs ≡ true
  find-any p [] h = absurd (cc h)
  find-any p (y ∷ xs) {x} h = ground (arith, find-any p xs {x = x})

  -- A search by what the update leaves alone.
  pub find-update_where :
      (q p : A → Bool) (f : A → A) (xs : List A) {x : A}
      → ((y : A) → q (f y) ≡ q y)
      → find q xs ≡ some x
      → p x ≡ true
      → find q (update_where p f xs) ≡ some (f x)
  unfolding update_where
  find-update_where q p f [] same h hit = absurd (cc h)
  find-update_where q p f (y ∷ xs) {x} same h hit = elim (Bool-cases (q y)) [
    | inl e ↦
        let found : some y ≡ some x = rw e at h in
        let here : y ≡ x = cc in
        let hit' : p y ≡ true = rw here hit in rw (hit', same y, e) (ap (λ v. some (f v)) here)
    | inr e ↦
        let miss : q (if p y then f y else y) ≡ false = ground (arith, same y) in
        rw miss (find-update_where q p f xs same (rw e at h) hit)
  ]

  pub All-of-filter {κ} :
      (P : A → Type κ) (p : A → Bool) (xs : List A)
      → All P (filter p xs)
      → All (λ x. p x ≡ true → P x) xs
  All-of-filter P p [] h = tt
  All-of-filter P p (x ∷ xs) h = elim (Bool-cases (p x)) [
    | inl e ↦
        let kept : P x × All P (filter p xs) = rw e at h in
        ((λ _. kept.0), All-of-filter P p xs kept.1)
    | inr e ↦ ((λ hit. absurd (cc (e, hit))), All-of-filter P p xs (rw e at h))
  ]
