-- ===== src/Audit/Values.antt =====
-- `same` of audit/diff.py, with `_boolish`, `_as_decimal`, `_as_datetime` and `_json`.
use py_app_runner.Prelude.{
  String, Bool, true, false, not, ◌&&◌, ◌||◌, Option, none, some, List, [], ◌∷◌, str_eq,
  if◌then◌else◌, any,
}
use py_app_runner.Prelude.Int.{ℤ, pos, eq_ℤ}

-- The values that a row can hold. A number that is no int is a Decimal or a float, which enters as the
-- Decimal of its text; dicts, lists, tuples and sets are one kind, and any other object (a UUID, bytes,
-- a time, a timedelta) is opaque.
pub data Value (Decimal Moment Day Json : Type 0) : Type 0 where
  null : Value Decimal Moment Day Json
  boolean : Bool → Value Decimal Moment Day Json
  integer : ℤ → Value Decimal Moment Day Json
  decimal : Decimal → Value Decimal Moment Day Json
  text : String → Value Decimal Moment Day Json
  moment : Moment → Value Decimal Moment Day Json
  day : Day → Value Decimal Moment Day Json
  container opaque : Json → Value Decimal Moment Day Json

-- decimal, datetime, json and the texts of values. Two Decimals may not be comparable: where one is a
-- signaling NaN, == raises InvalidOperation, which is none here.
pub record Library (Decimal Moment Day Json : Type 0) : Type 0 where
  pub decimal_of_int : ℤ → Decimal
  pub parse_decimal : String → Option Decimal
  pub eq_decimal : Decimal → Decimal → Option Bool
  pub date : Moment → Day
  pub parse_day : String → Option Day
  pub parse_moment : String → Option Moment
  pub has_tzinfo : Moment → Bool
  pub eq_moment : Moment → Moment → Bool
  pub eq_day : Day → Day → Bool
  pub eq_moment_day : Moment → Day → Bool
  pub dumps : Value Decimal Moment Day Json → String
  pub str : Value Decimal Moment Day Json → String
  pub lower_strip : String → String
  pub lower : String → String

abbrev true_words : List String
true_words = "1" ∷ "t" ∷ "true" ∷ "y" ∷ "yes" ∷ "on" ∷ []

abbrev false_words : List String
false_words = "0" ∷ "f" ∷ "false" ∷ "n" ∷ "no" ∷ "off" ∷ "" ∷ []

unfoldable pub word_of : String → String
word_of word =
    if any (str_eq word) true_words
    then "1"
    else if any (str_eq word) false_words
    then "0"
    else word

-- A date or a datetime, as `_as_datetime` gives it.
pub data Instant (Moment Day : Type 0) : Type 0 where
  at_moment : Moment → Instant Moment Day
  at_day : Day → Instant Moment Day

module _ {Decimal Moment Day Json : Type 0} (l : Library Decimal Moment Day Json) where
  -- `_boolish`
  unfoldable pub boolish : Value Decimal Moment Day Json → String
  unfolding word_of
  boolish (boolean b) = if b then "1" else "0"
  boolish (integer n) =
      if eq_ℤ n (pos 1) then "1" else if eq_ℤ n (pos 0) then "0" else l.str (integer n)
  boolish v = word_of (l.lower_strip (l.str v))

  -- `_as_decimal`
  unfoldable pub as_decimal : Value Decimal Moment Day Json → Option Decimal
  as_decimal (decimal d) = some d
  as_decimal (integer n) = some (l.decimal_of_int n)
  as_decimal (text t) = l.parse_decimal t
  as_decimal _ = none

  unfoldable pub is_null : Value Decimal Moment Day Json → Bool
  is_null null = true
  is_null _ = false

  unfoldable pub is_boolean : Value Decimal Moment Day Json → Bool
  is_boolean (boolean b) = true
  is_boolean _ = false

  -- `_is_plain_date`
  unfoldable pub is_plain_date : Value Decimal Moment Day Json → Bool
  is_plain_date (day d) = true
  is_plain_date _ = false

  unfoldable pub is_temporal : Value Decimal Moment Day Json → Bool
  is_temporal (moment m) = true
  is_temporal (day d) = true
  is_temporal _ = false

  unfoldable pub is_container : Value Decimal Moment Day Json → Bool
  is_container (container j) = true
  is_container _ = false

  unfoldable pub parsed : Bool → String → Option (Instant Moment Day)
  parsed true t = elim (l.parse_day t) [ none ↦ none | some d ↦ some (at_day d) ]
  parsed false t = elim (l.parse_moment t) [ none ↦ none | some m ↦ some (at_moment m) ]

  -- `_as_datetime`
  unfoldable pub as_datetime : Bool → Value Decimal Moment Day Json → Option (Instant Moment Day)
  unfolding parsed
  as_datetime as_date (moment m) = some (if as_date then at_day (l.date m) else at_moment m)
  as_datetime as_date (day d) = some (at_day d)
  as_datetime as_date (text t) = parsed as_date t
  as_datetime as_date _ = none

  -- left == right; where only one of two datetimes has a timezone, the texts are compared
  unfoldable pub same_instant : Bool → Instant Moment Day → Instant Moment Day → Bool
  same_instant texts (at_moment m) (at_moment n) =
      if l.has_tzinfo m && l.has_tzinfo n || not (l.has_tzinfo m) && not (l.has_tzinfo n)
      then l.eq_moment m n
      else texts
  same_instant texts (at_day d) (at_day e) = l.eq_day d e
  same_instant texts (at_moment m) (at_day d) = l.eq_moment_day m d
  same_instant texts (at_day d) (at_moment m) = l.eq_moment_day m d

  unfoldable pub same_instants :
      Bool → Option (Instant Moment Day) → Option (Instant Moment Day) → Bool
  unfolding same_instant
  same_instants texts (some left) (some right) = same_instant texts left right
  same_instants texts none right = texts
  same_instants texts (some left) none = texts

  unfoldable pub same_numbers : Bool → Option Decimal → Option Decimal → Option Bool
  same_numbers texts (some left) (some right) = l.eq_decimal left right
  same_numbers texts none right = some texts
  same_numbers texts (some left) none = some texts

  -- none where the comparison raises
  unfoldable pub same : Value Decimal Moment Day Json → Value Decimal Moment Day Json → Option Bool
  unfolding is_null is_boolean boolish is_temporal is_plain_date as_datetime same_instants
      is_container as_decimal same_numbers
  same a b =
      let texts = str_eq (l.str a) (l.str b) in
      if is_null a || is_null b
      then some (is_null a && is_null b)
      else if is_boolean a || is_boolean b
      then some (str_eq (boolish a) (boolish b))
      else if is_temporal a || is_temporal b
      then some (
          same_instants texts (as_datetime (is_plain_date a || is_plain_date b) a)
            (as_datetime (is_plain_date a || is_plain_date b) b))
      else if is_container a || is_container b
      then some (str_eq (l.dumps a) (l.dumps b))
      else same_numbers texts (as_decimal a) (as_decimal b)
