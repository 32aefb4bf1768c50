-- ===== src/Migrations/Distinct.antt =====
-- `discover`: the files that it gives have distinct timestamps.
use py_app_runner.Prelude.{
  String, ◌≡◌, sym, subst, ◌≢◌, inl, inr, Bool, true, false, Option, none, some, List, [], ◌∷◌, map,
  arith, str_eq, eq_iff, Bool-cases, Option-cases, any, All, All-map, AllPairs,
}
use py_app_runner.Migrations.Discovery.{
  MigrationFile, all_loaded, repeats, without_repeats, discover,
}

abbrev pub Apart : MigrationFile → MigrationFile → Type 0
Apart f g = f.prefix ≢ g.prefix

NeverSeen : (file : MigrationFile) (seen : List String) → Type 0
NeverSeen file seen = All (λ prefix. file.prefix ≢ prefix) seen

any-NeverSeen :
    (file : MigrationFile) (seen : List String)
    → any (str_eq file.prefix) seen ≡ false
    → NeverSeen file seen
unfolding NeverSeen
any-NeverSeen file [] h = tt
any-NeverSeen file (prefix ∷ seen) h = elim (Bool-cases (str_eq file.prefix prefix)) [
  | inl e ↦ absurd (cc (rw e at h))
  | inr e ↦ (
    λ same. absurd (cc (e, (eq_iff file.prefix prefix).1 same)),
    any-NeverSeen file seen (rw e at h),
  )
]

repeats-false :
    (seen : List String) (files : List MigrationFile)
    → repeats seen files ≡ false
    → AllPairs Apart files × All (λ g. NeverSeen g seen) files
unfolding repeats NeverSeen
repeats-false seen [] h = (tt, tt)
repeats-false seen (file ∷ files) h =
    let h' : (any (str_eq file.prefix) seen ≡ false)
        × (repeats (file.prefix ∷ seen) files ≡ false) =
      ground arith in
    let (apart, fresh) = repeats-false (file.prefix ∷ seen) files h'.1 in
    (
      (All-map _ (Apart file) files (λ g k e. k.0 (sym e)) fresh, apart),
      (any-NeverSeen file seen h'.0, All-map _ _ files (λ g k. k.1) fresh),
    )

all_loaded-map :
    (loads : List (Option MigrationFile)) (files : List MigrationFile)
    → all_loaded loads ≡ some files
    → loads ≡ map some files
unfolding all_loaded
all_loaded-map [] files h = cc
all_loaded-map (none ∷ loads) files h = absurd (cc h)
all_loaded-map (some file ∷ loads) files h = elim (Option-cases (all_loaded loads)) [
  | inl e ↦ absurd (cc (rw e at h))
  | inr (rest, e) ↦
      let same : some (file ∷ rest) ≡ some files = rw e at h in
      let ih = all_loaded-map loads rest e in cc (same, ih)
]

-- Where `discover` gives files, they are the loads of all the paths in their order, none of which
-- raised, and no two of them have one timestamp.
pub discover-distinct :
    (is_dir : Bool) (loads : List (Option MigrationFile)) (files : List MigrationFile)
    → discover is_dir loads ≡ some files
    → (loads ≡ map some files) × AllPairs Apart files
unfolding discover without_repeats
discover-distinct false loads files h = absurd (cc h)
discover-distinct true loads files h = elim (Option-cases (all_loaded loads)) [
  | inl e ↦ absurd (cc (rw e at h))
  | inr (found, e) ↦ elim (Bool-cases (repeats [] found)) [
    | inl r ↦ absurd (cc (rw (e, r) at h))
    | inr r ↦
        let same : some found ≡ some files = rw (e, r) at h in
        let same' : found ≡ files = cc in
        subst (λ fs. (loads ≡ map some fs) × AllPairs Apart fs) same'
          (all_loaded-map loads found e, (repeats-false [] found r).0)
  ]
]
