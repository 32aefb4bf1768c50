-- ===== src/Migrations/Backed.antt =====
-- `compute_states`: no row is overlooked.
use py_app_runner.Prelude.{
  String, ◌≡◌, refl, sym, subst, ◌⊎◌, inl, inr, Bool, true, false, Option, none, some, List, [],
  ◌∷◌, ◌++◌, map, arith, str_eq, eq_iff, Bool-cases, if_both, length, filter, any,
}
use Prim.Native.String.{compare as compare_text}
use text.Mathlib.Text.{is_lt}
use py_app_runner.Migrations.Discovery.{MigrationFile}
use py_app_runner.Migrations.States.{
  AppliedRow, MigrationState, insert_name, sorted_names, find_last, or_else, file_named, row_named,
  state_of, entry, compute_states, is_blocking, blocking,
}

abbrev has_name : String → List String → Bool
has_name name names = any (str_eq name) names

insert_name_keeps :
    (name new : String) (names : List String)
    → has_name name names ≡ true
    → has_name name (insert_name new names) ≡ true
unfolding insert_name
insert_name_keeps name new [] h = absurd (cc h)
insert_name_keeps name new (other ∷ others) h =
    if_both (λ ns. has_name name ns ≡ true) (str_eq new other) h
      (if_both (λ ns. has_name name ns ≡ true) (is_lt (compare_text new other))
        (if_both (λ b. b ≡ true) (str_eq name new) refl h)
        (elim (Bool-cases (str_eq name other)) [
          | inl e ↦ rw e refl
          | inr e ↦ rw e (insert_name_keeps name new others (rw e at h))
        ]))

insert_name_has :
    (name : String) (names : List String) → has_name name (insert_name name names) ≡ true
unfolding insert_name
insert_name_has name [] = rw ((eq_iff name name).1 refl) refl
insert_name_has name (other ∷ others) = elim (Bool-cases (str_eq name other)) [
  | inl e ↦ rw (e, e) refl
  | inr e ↦ rw e (
      if_both (λ ns. has_name name ns ≡ true) (is_lt (compare_text name other))
        (rw ((eq_iff name name).1 refl) refl) (rw e (insert_name_has name others)))
]

sorted_names_has :
    (name : String) (names : List String)
    → has_name name names ≡ true
    → has_name name (sorted_names names) ≡ true
unfolding sorted_names
sorted_names_has name [] h = h
sorted_names_has name (other ∷ others) h = elim (Bool-cases (str_eq name other)) [
  | inl e ↦
      subst (λ n. has_name name (insert_name n (sorted_names others)) ≡ true)
        ((eq_iff name other).0 e) (insert_name_has name (sorted_names others))
  | inr e ↦
      insert_name_keeps name other (sorted_names others) (sorted_names_has name others (rw e at h))
]

-- Where a filter of a mapped list is empty, the test fails at each of its names.
filter-map_fails :
    (g : String → MigrationState) (p : MigrationState → Bool) (names : List String) (name : String)
    → length (filter p (map g names)) ≡ 0
    → has_name name names ≡ true
    → p (g name) ≡ false
filter-map_fails g p [] name h k = absurd (cc k)
filter-map_fails g p (other ∷ others) name h k = elim (Bool-cases (p (g other))) [
  | inl q ↦ absurd (omega (arith, rw q at h))
  | inr q ↦ elim (Bool-cases (str_eq name other)) [
    | inl e ↦ subst (λ n. p (g n) ≡ false) (sym ((eq_iff name other).0 e)) q
    | inr e ↦ filter-map_fails g p others name (rw q at h) (rw e at k)
  ]
]

or_else-some :
    {A : Type 0} (o other : Option A)
    → ((x : A) × (o ≡ some x)) ⊎ ((x : A) × (other ≡ some x))
    → (x : A) × (or_else o other ≡ some x)
unfolding or_else
or_else-some (some x) other h = (x, refl)
or_else-some none other (inl (x, e)) = absurd (cc e)
or_else-some none other (inr h) = h

row_named-some :
    (rows : List AppliedRow) (name : String)
    → has_name name (map (λ r. r.name) rows) ≡ true
    → (r : AppliedRow) × (row_named rows name ≡ some r)
unfolding row_named find_last
row_named-some [] name h = absurd (cc h)
row_named-some (row ∷ rows) name h = or_else-some _ _ (elim (Bool-cases (str_eq name row.name)) [
  | inl e ↦ inr (row, rw ((eq_iff row.name name).1 (sym ((eq_iff name row.name).0 e))) refl)
  | inr e ↦ inl (row_named-some rows name (rw e at h))
])

has_name-append :
    (name : String) (xs ys : List String)
    → has_name name ys ≡ true
    → has_name name (xs ++ ys) ≡ true
has_name-append name [] ys h = h
has_name-append name (x ∷ xs) ys h =
    if_both (λ b. b ≡ true) (str_eq name x) refl (has_name-append name xs ys h)

-- A row whose file is there, as it was applied.
pub record IsBacked (files : List MigrationFile) (rows : List AppliedRow) (name : String)
    : Type 0 where
  file : MigrationFile
  row : AppliedRow
  found : file_named files name ≡ some file
  applied : row_named rows name ≡ some row
  same : row.checksum ≡ file.checksum

state_of-IsBacked :
    (files : List MigrationFile) (rows : List AppliedRow) (name : String) (f : Option MigrationFile)
    (row : AppliedRow)
    → file_named files name ≡ f
    → row_named rows name ≡ some row
    → is_blocking (state_of f (some row)) ≡ false
    → IsBacked files rows name
unfolding state_of is_blocking
state_of-IsBacked files rows name none row e e' h = absurd (cc h)
state_of-IsBacked files rows name (some file) row e e' h =
    elim (Bool-cases (str_eq row.checksum file.checksum)) [
      | inl q ↦ record {
        file = file;
        row = row;
        found = e;
        applied = e';
        same = (eq_iff row.checksum file.checksum).0 q;
      }
      | inr q ↦ absurd (cc (rw q at h))
    ]

-- Where no state of the union of files and rows blocks, every name that a row has is the name of a
-- file, and the file of that name has the checksum that was recorded.
pub compute_states-IsBacked :
    (files : List MigrationFile) (rows : List AppliedRow) (name : String)
    → length (blocking (compute_states files rows)) ≡ 0
    → has_name name (map (λ r. r.name) rows) ≡ true
    → IsBacked files rows name
unfolding compute_states blocking entry
compute_states-IsBacked files rows name h k =
    let (row, e) = row_named-some rows name k in
    let fails : is_blocking (state_of (file_named files name) (row_named rows name)) ≡ false =
      filter-map_fails (entry files rows) (λ s. is_blocking s.state)
        (sorted_names (map (λ file. file.name) files ++ map (λ r. r.name) rows)) name h
        (sorted_names_has name (map (λ file. file.name) files ++ map (λ r. r.name) rows)
          (has_name-append name (map (λ file. file.name) files) (map (λ r. r.name) rows) k)) in
    state_of-IsBacked files rows name _ row refl e (rw e at fails)
