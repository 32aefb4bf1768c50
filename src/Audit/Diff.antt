-- ===== src/Audit/Diff.antt =====
-- `mask` and `between` of audit/diff.py. A dict is a list of its keys and values.
use py_app_runner.Prelude.{
  String, Bool, true, false, Option, none, some, List, [], ◌∷◌, map, str_eq, if◌then◌else◌, any,
}
use py_app_runner.Audit.Values.{Value, null, text, Library, same}

abbrev pub Dict : Type 0 → Type 0
Dict V = List (String × V)

-- values.get(key)
unfoldable pub lookup : {V : Type 0} → String → Dict V → Option V
lookup key [] = none
lookup key ((k, v) ∷ rest) = let later = lookup key rest in if str_eq k key then some v else later

module _ {Decimal Moment Day Json : Type 0} (l : Library Decimal Moment Day Json) where
  abbrev pub redacted : Value Decimal Moment Day Json
  redacted = text "***"

  -- key.lower() in excluded
  unfoldable pub is_excluded : List String → String → Bool
  is_excluded excluded key = any (str_eq (l.lower key)) excluded

  unfoldable pub shown :
      List String → String → Value Decimal Moment Day Json → Value Decimal Moment Day Json
  unfolding is_excluded
  shown excluded key value = if is_excluded excluded key then redacted else value

  -- without columns to exclude, the values as they are, which is the same
  unfoldable pub mask :
      Dict (Value Decimal Moment Day Json) → List String → Dict (Value Decimal Moment Day Json)
  unfolding shown
  mask values exclude = map (λ (k, v). (k, shown (map l.lower exclude) k v)) values

  unfoldable pub or_null : Option (Value Decimal Moment Day Json) → Value Decimal Moment Day Json
  or_null none = null
  or_null (some value) = value

  -- What a key adds to the old values and the new ones, by whether its two values are the same; none
  -- where the comparison, or one of a later key, raises.
  unfoldable pub with_key :
      List String
      → String
      → Value Decimal Moment Day Json
      → Value Decimal Moment Day Json
      → Option Bool
      → Option (Dict (Value Decimal Moment Day Json) × Dict (Value Decimal Moment Day Json))
      → Option (Dict (Value Decimal Moment Day Json) × Dict (Value Decimal Moment Day Json))
  unfolding shown
  with_key excluded k old new none rest = none
  with_key excluded k old new (some unchanged) none = none
  with_key excluded k old new (some true) (some rest) = some rest
  with_key excluded k old new (some false) (some (olds, news)) =
      some ((k, shown excluded k old) ∷ olds, (k, shown excluded k new) ∷ news)

  -- The loop of an update.
  unfoldable pub differing :
      List String
      → Dict (Value Decimal Moment Day Json)
      → Dict (Value Decimal Moment Day Json)
      → Option (Dict (Value Decimal Moment Day Json) × Dict (Value Decimal Moment Day Json))
  unfolding lookup or_null with_key same
  differing excluded before [] = some ([], [])
  differing excluded before ((k, v) ∷ rest) =
      with_key excluded k (or_null (lookup k before)) v (same l (or_null (lookup k before)) v)
        (differing excluded before rest)

  -- a pair of Nones where nothing changed
  unfoldable pub collapsed :
      Dict (Value Decimal Moment Day Json) × Dict (Value Decimal Moment Day Json)
      → Option (Dict (Value Decimal Moment Day Json))
        × Option (Dict (Value Decimal Moment Day Json))
  collapsed (old, []) = (none, none)
  collapsed (old, pair ∷ new) = (some old, some (pair ∷ new))

  abbrev pub Report : Type 0
  Report =
      Option (Dict (Value Decimal Moment Day Json)) × Option (Dict (Value Decimal Moment Day Json))

  unfoldable pub reported :
      Option (Dict (Value Decimal Moment Day Json) × Dict (Value Decimal Moment Day Json))
      → Option Report
  unfolding collapsed
  reported none = none
  reported (some values) = some (collapsed values)

  -- none where a comparison raises
  unfoldable pub between :
      Option (Dict (Value Decimal Moment Day Json))
      → Option (Dict (Value Decimal Moment Day Json))
      → List String
      → Option Report
  unfolding mask reported differing
  between none none exclude = some (none, none)
  between none (some after) exclude = some (none, some (mask after (map l.lower exclude)))
  between (some before) none exclude = some (some (mask before (map l.lower exclude)), none)
  between (some before) (some after) exclude =
      reported (differing (map l.lower exclude) before after)
