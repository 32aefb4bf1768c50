-- ===== src/Queue/Pg/Search.antt =====
-- What the SELECTs of the driver find: members, the row of an id, and the first of an order.
use mathlib.Core.List.{Memᴰ}
use py_app_runner.Prelude.{
  ℕ, ◌≡◌, sym, ◌∙◌, ◌≢◌, ◌⊎◌, inl, inr, Bool, Option, none, some, List, [], ◌∷◌, arith, ◌==◌,
  ==_iff, Bool-cases, find, All, All-Memᴰ, All-map, AllPairs,
}
use py_app_runner.Queue.Pg.Tables.{Row, better, first_by}
use py_app_runner.Queue.Pg.WellFormed.{Apart}

module _ {ℓ} {A : Type ℓ} where
  better_cases :
      (before : A → A → Bool) (x : A) (o : Option A) {y : A}
      → better before x o ≡ some y
      → (y ≡ x) ⊎ (o ≡ some y)
  unfolding better
  better_cases before x none h = inl (cc)
  better_cases before x (some z) h = ground arith

  pub first_by-Memᴰ :
      (before : A → A → Bool) (xs : List A) {y : A} → first_by before xs ≡ some y → Memᴰ y xs
  unfolding first_by
  first_by-Memᴰ before [] h = absurd (cc h)
  first_by-Memᴰ before (x ∷ xs) h = elim (better_cases before x (first_by before xs) h) [
    | inl e ↦ Memᴰ.head e
    | inr e ↦ Memᴰ.tail (first_by-Memᴰ before xs e)
  ]

-- A row is the one that its id finds.
pub find-Memᴰ :
    (rows : List Row) {r : Row}
    → AllPairs Apart rows
    → Memᴰ r rows
    → find (λ s. s.id == r.id) rows ≡ some r
find-Memᴰ [] apart m = elim m [ ]
find-Memᴰ (x ∷ xs) apart (Memᴰ.head e) = rw e (ground arith)
find-Memᴰ (x ∷ xs) {r} apart (Memᴰ.tail m) =
    let other : x.id ≢ r.id = (All-Memᴰ (Apart x) xs apart.0 m).ids in
    ground (arith, find-Memᴰ xs apart.1 m)

none_else :
    (xs : List Row) (x r : Row) (id : ℕ)
    → x.id ≡ id
    → All (Apart x) xs
    → All (λ s. s.id ≡ id → s ≡ r) xs
none_else xs x r id named h = All-map (Apart x) _ xs (λ s a e. absurd (a.ids (named ∙ sym e))) h

-- The row that an id finds is the only one of that id.
pub find_only :
    (rows : List Row) (id : ℕ) {r : Row}
    → AllPairs Apart rows
    → find (λ s. s.id == id) rows ≡ some r
    → All (λ s. s.id ≡ id → s ≡ r) rows
find_only [] id apart h = tt
find_only (x ∷ xs) id {r} apart h = elim (Bool-cases (x.id == id)) [
  | inl e ↦
      let found : some x ≡ some r = rw e at h in
      let same : x ≡ r = cc in
      let named : x.id ≡ id = (==_iff x.id id).0 e in
      ((λ _. same), none_else xs x r id named apart.0)
  | inr e ↦ ((λ named. ground arith), find_only xs id apart.1 (rw e at h))
]
