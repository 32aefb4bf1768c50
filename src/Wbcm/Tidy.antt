-- ===== src/Wbcm/Tidy.antt =====
-- The fan-out lists: a connection belongs to one owner, and to none once it is removed.
use py_app_runner.Prelude.{
  String, ◌≡◌, refl, sym, subst, ◌≢◌, ◌⊎◌, inl, inr, true, false, Option, List, [], ◌∷◌, ◌++◌,
  str_eq, eq_iff, str_eq-false, Bool-cases, if_both, All, AllPairs,
}
use py_app_runner.Wbcm.Connections.{
  Entry, holds_id, remove_id, is_kept, unless_empty, unassign, enlist,
}

-- No id stands twice in one list.
abbrev pub NoRepeats : Entry → Type 0
NoRepeats e = AllPairs ◌≢◌ e.conn_ids

-- Where an id stands: under one owner at most.
abbrev pub OnlyUnder : String → String → Entry → Type 0
OnlyUnder conn_id owner e = (e.owner ≡ owner) ⊎ (holds_id conn_id e.conn_ids ≡ false)

abbrev pub Absent : String → Entry → Type 0
Absent conn_id e = holds_id conn_id e.conn_ids ≡ false

absent-holds_id : (c : String) (ids : List String) → All (λ x. c ≢ x) ids → holds_id c ids ≡ false
unfolding holds_id
absent-holds_id c [] h = refl
absent-holds_id c (x ∷ ids) h = rw (str_eq-false c x h.0) (absent-holds_id c ids h.1)

pub holds_id-absent :
    (c : String) (ids : List String) → holds_id c ids ≡ false → All (λ x. x ≢ c) ids
unfolding holds_id
holds_id-absent c [] h = tt
holds_id-absent c (x ∷ ids) h = elim (Bool-cases (str_eq c x)) [
  | inl e ↦ absurd (cc (rw e at h))
  | inr e ↦ (λ same. absurd (cc (e, (eq_iff c x).1 (sym same))), holds_id-absent c ids (rw e at h))
]

remove_id-All :
    (P : String → Type 0) (c : String) (ids : List String) → All P ids → All P (remove_id c ids)
unfolding remove_id
remove_id-All P c [] h = tt
remove_id-All P c (x ∷ ids) h = if_both (All P) (str_eq c x) h.1 (h.0, remove_id-All P c ids h.1)

pub remove_id-NoRepeats :
    (c : String) (ids : List String) → AllPairs ◌≢◌ ids → AllPairs ◌≢◌ (remove_id c ids)
unfolding remove_id
remove_id-NoRepeats c [] h = tt
remove_id-NoRepeats c (x ∷ ids) h =
    if_both (AllPairs ◌≢◌) (str_eq c x) h.1
      (remove_id-All (λ y. x ≢ y) c ids h.0, remove_id-NoRepeats c ids h.1)

remove_id-absent :
    (c : String) (ids : List String) → AllPairs ◌≢◌ ids → holds_id c (remove_id c ids) ≡ false
unfolding remove_id holds_id
remove_id-absent c [] h = refl
remove_id-absent c (x ∷ ids) h = elim (Bool-cases (str_eq c x)) [
  | inl e ↦
      rw e
        (subst (λ z. holds_id z ids ≡ false) (sym ((eq_iff c x).0 e)) (absent-holds_id x ids h.0))
  | inr e ↦ rw (e, e) (remove_id-absent c ids h.1)
]

unless_empty-All :
    (P : Entry → Type 0) (owner : String) (ids : List String) (rest : List Entry)
    → P (record { owner = owner; conn_ids = ids })
    → All P rest
    → All P (unless_empty owner ids rest)
unfolding unless_empty
unless_empty-All P owner [] rest p h = h
unless_empty-All P owner (x ∷ ids) rest p h = (p, h)

-- A predicate that losing an id keeps holds of every entry left.
pub unassign-All :
    (P : Entry → Type 0) (c : String) (keep : Option String) (es : List Entry)
    → ((e : Entry) → P e → P (record e { conn_ids = remove_id c e.conn_ids }))
    → All P es
    → All P (unassign c keep es)
unfolding unassign
unassign-All P c keep [] k h = tt
unassign-All P c keep (e ∷ es) k h =
    let ih = unassign-All P c keep es k h.1 in
    if_both (All P) (is_kept keep e.owner) (h.0, ih)
      (if_both (All P) (holds_id c e.conn_ids)
        (unless_empty-All P e.owner (remove_id c e.conn_ids) (unassign c keep es) (k e h.0) ih)
        (h.0, ih))

-- What is left of an id: nothing, but under the owner that is kept.
pub unassign-gone :
    (P : Entry → Type 0) (c : String) (keep : Option String) (es : List Entry)
    → ((e : Entry) → is_kept keep e.owner ≡ true → P e)
    → ((e : Entry) → holds_id c e.conn_ids ≡ false → P e)
    → All NoRepeats es
    → All P (unassign c keep es)
unfolding unassign
unassign-gone P c keep [] k k' h = tt
unassign-gone P c keep (e ∷ es) k k' h =
    let ih = unassign-gone P c keep es k k' h.1 in
    elim (Bool-cases (is_kept keep e.owner)) [
      | inl q ↦ rw q (k e q, ih)
      | inr q ↦ elim (Bool-cases (holds_id c e.conn_ids)) [
        | inl r ↦
            rw (q, r)
              (unless_empty-All P e.owner (remove_id c e.conn_ids) (unassign c keep es)
                (k' _ (remove_id-absent c e.conn_ids h.0)) ih)
        | inr r ↦ rw (q, r) (k' e r, ih)
      ]
    ]

pub enlist-All :
    (P : Entry → Type 0) (c owner : String) (es : List Entry)
    → P (record { owner = owner; conn_ids = c ∷ [] })
    → ((e : Entry)
        → e.owner ≡ owner
        → holds_id c e.conn_ids ≡ false
        → P e
        → P (record e { conn_ids = e.conn_ids ++ c ∷ [] }))
    → All P es
    → All P (enlist c owner es)
unfolding enlist
enlist-All P c owner [] new k h = (new, tt)
enlist-All P c owner (e ∷ es) new k h = elim (Bool-cases (str_eq e.owner owner)) [
  | inl q ↦ elim (Bool-cases (holds_id c e.conn_ids)) [
    | inl r ↦ rw (q, r) h
    | inr r ↦ rw (q, r) (k e ((eq_iff e.owner owner).0 q) r h.0, h.1)
  ]
  | inr q ↦ rw q (h.0, enlist-All P c owner es new k h.1)
]
