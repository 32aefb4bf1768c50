-- ===== src/Audit/Redacted.antt =====
-- What the trail withholds.
use py_app_runner.Prelude.{
  String, ◌≡◌, refl, Bool, true, false, Option, none, some, List, [], ◌∷◌, map, All,
}
use py_app_runner.Audit.Values.{Value, Library}
use py_app_runner.Audit.Diff.{
  with_key, Report, reported, Dict, redacted, is_excluded, shown, mask, differing, collapsed,
  between,
}

abbrev pub or_empty : {V : Type 0} → Option (Dict V) → Dict V
or_empty none = []
or_empty (some values) = values

module _ {Decimal Moment Day Json : Type 0} (l : Library Decimal Moment Day Json)
    (excluded : List String) where
  -- The values of excluded keys are withheld.
  abbrev pub IsWithheld : Dict (Value Decimal Moment Day Json) → Type 0
  IsWithheld values = All (λ x. is_excluded l excluded x.0 ≡ true → x.1 ≡ redacted l) values

  shown-redacted :
      (key : String) (v : Value Decimal Moment Day Json)
      → is_excluded l excluded key ≡ true
      → shown l excluded key v ≡ redacted l
  unfolding shown
  shown-redacted key v h = rw h refl

  shown-IsWithheld :
      (values : Dict (Value Decimal Moment Day Json))
      → IsWithheld (map (λ (k, v). (k, shown l excluded k v)) values)
  shown-IsWithheld [] = tt
  shown-IsWithheld ((k, v) ∷ rest) = (shown-redacted k v, shown-IsWithheld rest)

  -- The reported values, where there are any.
  abbrev pub BothWithheld :
      Option (Dict (Value Decimal Moment Day Json) × Dict (Value Decimal Moment Day Json)) → Type 0
  BothWithheld none = Unit
  BothWithheld (some (old, new)) = IsWithheld old × IsWithheld new

  with_key-BothWithheld :
      (k : String) (old new : Value Decimal Moment Day Json) (unchanged : Option Bool)
      (o : Option (Dict (Value Decimal Moment Day Json) × Dict (Value Decimal Moment Day Json)))
      → BothWithheld o
      → BothWithheld (with_key l excluded k old new unchanged o)
  unfolding with_key
  with_key-BothWithheld k old new none o h = tt
  with_key-BothWithheld k old new (some unchanged) none h = tt
  with_key-BothWithheld k old new (some true) (some (olds, news)) h = h
  with_key-BothWithheld k old new (some false) (some (olds, news)) h =
      ((shown-redacted k old, h.0), (shown-redacted k new, h.1))

  differing-BothWithheld :
      (before after : Dict (Value Decimal Moment Day Json))
      → BothWithheld (differing l excluded before after)
  unfolding differing
  differing-BothWithheld before [] = (tt, tt)
  differing-BothWithheld before ((k, v) ∷ rest) =
      with_key-BothWithheld k _ v _ (differing l excluded before rest)
        (differing-BothWithheld before rest)

  abbrev pub IsWithheldReport : Option (Report l) → Type 0
  IsWithheldReport none = Unit
  IsWithheldReport (some (old, new)) = IsWithheld (or_empty old) × IsWithheld (or_empty new)

  reported-IsWithheldReport :
      (o : Option (Dict (Value Decimal Moment Day Json) × Dict (Value Decimal Moment Day Json)))
      → BothWithheld o
      → IsWithheldReport (reported l o)
  unfolding reported collapsed
  reported-IsWithheldReport none h = tt
  reported-IsWithheldReport (some (old, [])) h = (tt, tt)
  reported-IsWithheldReport (some (old, x ∷ new)) h = h

map_idem :
    (f : String → String)
    → ((t : String) → f (f t) ≡ f t)
    → (ts : List String) → map f (map f ts) ≡ map f ts
map_idem f h [] = refl
map_idem f h (t ∷ ts) = rw (h t, map_idem f h ts) refl

-- Whatever happened to a row, its insertion, its removal or an update, no report holds the value of an
-- excluded column on either side: under a key that is excluded up to case there is the placeholder,
-- where lowering a text twice is lowering it once. There is no report where a comparison raises.
pub between-IsWithheld :
    {Decimal Moment Day Json : Type 0} (l : Library Decimal Moment Day Json)
    → ((t : String) → l.lower (l.lower t) ≡ l.lower t)
    → (before after : Option (Dict (Value Decimal Moment Day Json))) (exclude : List String)
    → IsWithheldReport l (map l.lower exclude) (between l before after exclude)
unfolding between mask
between-IsWithheld l h none none exclude = (tt, tt)
between-IsWithheld l h none (some after) exclude =
    rw (map_idem l.lower h exclude) (tt, shown-IsWithheld l (map l.lower exclude) after)
between-IsWithheld l h (some before) none exclude =
    rw (map_idem l.lower h exclude) (shown-IsWithheld l (map l.lower exclude) before, tt)
between-IsWithheld l h (some before) (some after) exclude =
    let excluded = map l.lower exclude in
    reported-IsWithheldReport l excluded (differing l excluded before after)
      (differing-BothWithheld l excluded before after)
