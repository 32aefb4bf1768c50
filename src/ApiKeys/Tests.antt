-- ===== src/ApiKeys/Tests.antt =====
-- Abilities on short texts, and the theorem at them.
use py_app_runner.Prelude.{ℕ, ◌≡◌, refl, ◌↔◌, ◌⊎◌, Bool, true, none, some, [], ◌∷◌, ◌++◌, ◌==◌}
use py_app_runner.Crypto.Values.{Text}
use py_app_runner.ApiKeys.Abilities.{
  colon, wildcard, partition, underscored, lstrip, rstrip, joined, normalize_stripped,
  normalize_ability, is_accepted, allows_parts, ability_allows,
}
use py_app_runner.ApiKeys.Keys.{split_key, key_parts}
use py_app_runner.ApiKeys.Allows.{ability_allows_iff}

abbrev is_blank : ℕ → Bool
is_blank c = c == 32

-- "a-b", "a_b" and "r"
abbrev dashed : Text
dashed = 97 ∷ 45 ∷ 98 ∷ []

abbrev lined : Text
lined = 97 ∷ 95 ∷ 98 ∷ []

abbrev report : Text
report = 114 ∷ []

-- Everything that the tests run.
program : Unit {0}
unfolding normalize_ability normalize_stripped joined lstrip rstrip partition underscored
    ability_allows allows_parts is_accepted split_key key_parts
program = tt

normalize_ability-dashed :
    normalize_ability is_blank (32 ∷ dashed ++ colon ∷ report) ≡ some (lined ++ colon ∷ report)
unfolding program
normalize_ability-dashed = refl

normalize_ability-star : normalize_ability is_blank (42 ∷ 97 ∷ colon ∷ report) ≡ none
unfolding program
normalize_ability-star = refl

-- the first dot only
split_key-dots : split_key (97 ∷ 46 ∷ 98 ∷ 46 ∷ []) ≡ some (97 ∷ [], 98 ∷ 46 ∷ [])
unfolding program
split_key-dots = refl

ability_allows_iff_example :
    (ability_allows ((lined ++ colon ∷ wildcard) ∷ []) (dashed ++ colon ∷ report) ≡ true)
    ↔ ((underscored dashed ≡ underscored dashed) × ((wildcard ≡ wildcard) ⊎ (wildcard ≡ report)))
ability_allows_iff_example =
    ability_allows_iff is_blank dashed wildcard dashed report (lined ++ colon ∷ wildcard) refl refl
      refl (unfold program in refl)
