-- ===== src/ApiKeys/Abilities.antt =====
-- api_keys/abilities.py, over texts as lists of code points.
use py_app_runner.Prelude.{
  ℕ, Bool, true, false, not, ◌&&◌, ◌||◌, Option, none, some, List, [], ◌∷◌, ◌++◌, map, ◌==◌,
  if◌then◌else◌, any,
}
use py_app_runner.Crypto.Values.{Text, eq_list}

abbrev pub colon : ℕ
colon = 58

-- "*"
abbrev pub wildcard : Text
wildcard = 42 ∷ []

-- text.partition(sep): before it, whether it is there, and after it
unfoldable pub partition : ℕ → Text → Text × Bool × Text
partition sep [] = ([], false, [])
partition sep (c ∷ cs) =
    let (before, found, after) = partition sep cs in
    if c == sep then ([], true, cs) else (c ∷ before, found, after)

-- text.replace("-", "_")
unfoldable pub underscored : Text → Text
underscored text = map (λ c. if c == 45 then 95 else c) text

unfoldable pub lstrip : (ℕ → Bool) → Text → Text
lstrip is_space [] = []
lstrip is_space (c ∷ cs) = let rest = lstrip is_space cs in if is_space c then rest else c ∷ cs

unfoldable pub rstrip : (ℕ → Bool) → Text → Text
rstrip is_space [] = []
rstrip is_space (c ∷ cs) =
    let rest = rstrip is_space cs in if is_space c && eq_list rest [] then [] else c ∷ rest

-- The checks of the parts; none stands for the ValueError.
unfoldable pub joined : (ℕ → Bool) → Text → Text × Bool × Text → Option Text
unfolding underscored
joined is_space ability (service, found, action) =
    if not found || eq_list service [] || eq_list action [] || any (λ c. c == colon) action
    then none
    else if any (λ c. c == 42) service || any (λ c. c == 42) action && not (eq_list action wildcard)
    then none
    else if any is_space ability
    then none
    else some (underscored service ++ colon ∷ action)

-- `is_space` is str.isspace of a character.
unfoldable pub normalize_stripped : (ℕ → Bool) → Text → Option Text
unfolding joined partition
normalize_stripped is_space ability =
    if eq_list ability wildcard
    then some ability
    else joined is_space ability (partition colon ability)

unfoldable pub normalize_ability : (ℕ → Bool) → Text → Option Text
unfolding normalize_stripped lstrip rstrip
normalize_ability is_space raw = normalize_stripped is_space (rstrip is_space (lstrip is_space raw))

unfoldable pub is_accepted : Text → Text → Text → Bool
is_accepted service action item =
    eq_list item wildcard
    || eq_list item (service ++ colon ∷ action)
    || eq_list item (service ++ colon ∷ wildcard)

unfoldable pub allows_parts : List Text → Text × Bool × Text → Bool
unfolding underscored is_accepted
allows_parts granted (service, found, action) =
    any (is_accepted (underscored service) action) granted

-- Nothing granted is the empty list.
unfoldable pub ability_allows : List Text → Text → Bool
unfolding allows_parts partition
ability_allows granted ability = allows_parts granted (partition colon ability)
