-- ===== src/ApiKeys/Allows.antt =====
-- What a grant allows.
use py_app_runner.Prelude.{
  ℕ, ◌≡◌, refl, sym, ap, ◌∙◌, ◌↔◌, ◌⊎◌, inl, inr, Bool, true, false, not, ◌&&◌, ◌||◌, none, some,
  [], ◌∷◌, ◌++◌, arith, ◌==◌, if◌then◌else◌, Bool-cases, any,
}
use py_app_runner.Crypto.Values.{Text, eq_list, eq_list_iff}
use py_app_runner.ApiKeys.Abilities.{
  colon, wildcard, partition, underscored, lstrip, rstrip, joined, normalize_stripped,
  normalize_ability, is_accepted, allows_parts, ability_allows,
}

abbrev pub has_colon : Text → Bool
has_colon text = any (λ c. c == colon) text

partition-append :
    (service action : Text)
    → has_colon service ≡ false
    → partition colon (service ++ colon ∷ action) ≡ (service, true, action)
unfolding partition
partition-append [] action h = refl
partition-append (c ∷ cs) action h = elim (Bool-cases (c == colon)) [
  | inl q ↦ absurd (cc (rw q at h))
  | inr q ↦
      let rest : has_colon cs ≡ false = rw q at h in rw (q, partition-append cs action rest) refl
]

underscored-has_colon : (s : Text) → has_colon s ≡ false → has_colon (underscored s) ≡ false
unfolding underscored
underscored-has_colon [] h = refl
underscored-has_colon (c ∷ cs) h = ground (arith, h, underscored-has_colon cs)

-- Texts with one first part and one second part.
parts_of :
    (s t a b : Text)
    → has_colon s ≡ false
    → has_colon t ≡ false
    → s ++ colon ∷ a ≡ t ++ colon ∷ b
    → (s ≡ t) × (a ≡ b)
parts_of s t a b hs ht e =
    let same : (s, true, a) ≡ (t, true, b) =
      sym (partition-append s a hs) ∙ ap (partition colon) e ∙ partition-append t b ht in
    (ap (λ x. x.0) same, ap (λ x. x.2) same)

rstrip_nothing :
    (is_space : ℕ → Bool) (raw : Text) → any is_space raw ≡ false → rstrip is_space raw ≡ raw
unfolding rstrip
rstrip_nothing is_space [] h = refl
rstrip_nothing is_space (c ∷ cs) h = elim (Bool-cases (is_space c)) [
  | inl q ↦ absurd (cc (rw q at h))
  | inr q ↦
      let rest : any is_space cs ≡ false = rw q at h in rw (q, rstrip_nothing is_space cs rest) refl
]

lstrip_nothing :
    (is_space : ℕ → Bool) (raw : Text) → any is_space raw ≡ false → lstrip is_space raw ≡ raw
unfolding lstrip
lstrip_nothing is_space [] h = refl
lstrip_nothing is_space (c ∷ cs) h = elim (Bool-cases (is_space c)) [
  | inl q ↦ absurd (cc (rw q at h))
  | inr q ↦ rw q refl
]

any_colon : (s a : Text) → has_colon (s ++ colon ∷ a) ≡ true
any_colon [] a = refl
any_colon (c ∷ cs) a = ground (arith, any_colon cs a)

-- An ability of two parts is not the wildcard.
not_wildcard : (s a : Text) → eq_list (s ++ colon ∷ a) wildcard ≡ false
not_wildcard s a = elim (Bool-cases (eq_list (s ++ colon ∷ a) wildcard)) [
  | inl q ↦
      let same = (eq_list_iff (s ++ colon ∷ a) wildcard).0 q in
      absurd (cc (sym (any_colon s a) ∙ ap has_colon same))
  | inr q ↦ q
]

joined-some :
    (is_space : ℕ → Bool) (ability service action g : Text)
    → joined is_space ability (service, true, action) ≡ some g
    → underscored service ++ colon ∷ action ≡ g
unfolding joined
joined-some is_space ability service action g h =
    elim (Bool-cases (eq_list service [] || eq_list action [] || any (λ c. c == colon) action)) [
      | inl q ↦ let no : none ≡ some g = rw q at h in absurd (cc no)
      | inr q ↦
          elim (Bool-cases (
            any (λ c. c == 42) service
            || any (λ c. c == 42) action && not (eq_list action wildcard))) [
              | inl r ↦ let no : none ≡ some g = rw (q, r) at h in absurd (cc no)
              | inr r ↦ elim (Bool-cases (any is_space ability)) [
                | inl t ↦ let no : none ≡ some g = rw (q, r, t) at h in absurd (cc no)
                | inr t ↦
                    let yes : some (underscored service ++ colon ∷ action) ≡ some g =
                      rw (q, r, t) at h in
                    cc
              ]
            ]
    ]

normalized :
    (is_space : ℕ → Bool) (service action g : Text)
    → any is_space (service ++ colon ∷ action) ≡ false
    → has_colon service ≡ false
    → normalize_ability is_space (service ++ colon ∷ action) ≡ some g
    → underscored service ++ colon ∷ action ≡ g
unfolding normalize_ability normalize_stripped
normalized is_space service action g plain one h =
    let raw = service ++ colon ∷ action in
    joined-some is_space raw service action g (
      rw
        (
          lstrip_nothing is_space raw plain,
          rstrip_nothing is_space raw plain,
          not_wildcard service action,
          partition-append service action one,
        )
        at h)

accepted_iff :
    (s a t b : Text)
    → has_colon s ≡ false
    → has_colon t ≡ false
    → (is_accepted t b (s ++ colon ∷ a) ≡ true) ↔ ((s ≡ t) × ((a ≡ wildcard) ⊎ (a ≡ b)))
unfolding is_accepted
accepted_iff s a t b hs ht = (
  (λ h. elim (Bool-cases (eq_list (s ++ colon ∷ a) (t ++ colon ∷ b))) [
    | inl q ↦
        let (same, rest) =
          parts_of s t a b hs ht ((eq_list_iff (s ++ colon ∷ a) (t ++ colon ∷ b)).0 q) in
        (same, inr rest)
    | inr q ↦
        let last : eq_list (s ++ colon ∷ a) (t ++ colon ∷ wildcard) ≡ true =
          rw (not_wildcard s a, q) at h in
        let (same, rest) =
          parts_of s t a wildcard hs ht
            ((eq_list_iff (s ++ colon ∷ a) (t ++ colon ∷ wildcard)).0 last) in
        (same, inl rest)
  ]),
  (λ (same, which). elim which [
    | inl all ↦
        let last = (eq_list_iff (s ++ colon ∷ a) (t ++ colon ∷ wildcard)).1 (rw (same, all) refl) in
        rw last (ground arith)
    | inr one ↦
        let whole = (eq_list_iff (s ++ colon ∷ a) (t ++ colon ∷ b)).1 (rw (same, one) refl) in
        rw whole (ground arith)
  ]),
)

-- A grant that was written as service:action, without whitespace, and normalised: it allows a request of
-- a service and an action exactly where the services agree with "-" read as "_", and the granted action
-- is "*" or the one that is asked for. A service has no colon; the action that is asked for may have.
pub ability_allows_iff :
    (is_space : ℕ → Bool) (service action asked_service asked_action g : Text)
    → any is_space (service ++ colon ∷ action) ≡ false
    → has_colon service ≡ false
    → has_colon asked_service ≡ false
    → normalize_ability is_space (service ++ colon ∷ action) ≡ some g
    → (ability_allows (g ∷ []) (asked_service ++ colon ∷ asked_action) ≡ true) ↔ (
        (underscored service ≡ underscored asked_service)
        × ((action ≡ wildcard) ⊎ (action ≡ asked_action)))
unfolding ability_allows allows_parts
ability_allows_iff is_space service action asked_service asked_action g plain one other h =
    let shape = normalized is_space service action g plain one h in
    let (there, back) =
      accepted_iff (underscored service) action (underscored asked_service) asked_action
        (underscored-has_colon service one) (underscored-has_colon asked_service other) in
    rw (sym shape, partition-append asked_service asked_action other)
      (
        (λ t. there (
            only
              (is_accepted (underscored asked_service) asked_action
                (underscored service ++ colon ∷ action))
              t)),
        (λ x. rw (back x) refl),
      )
  where
    only : (b : Bool) → (if b then true else false) ≡ true → b ≡ true
    only true t = refl
    only false t = absurd (cc t)
