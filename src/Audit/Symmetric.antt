-- ===== src/Audit/Symmetric.antt =====
-- `same`: which side a value stands on does not matter.
use py_app_runner.Prelude.{
  String, ◌≡◌, refl, sym, ◌∙◌, inl, inr, Bool, not, ◌&&◌, ◌||◌, Option, none, some, arith, str_eq,
  eq_iff, str_eq-false, Bool-cases, str_eq-apart,
}
use py_app_runner.Audit.Values.{
  Value, Library, Instant, at_moment, at_day, is_null, is_boolean, boolish, is_temporal,
  is_plain_date, as_datetime, is_container, as_decimal, same_instant, same_instants, same_numbers,
  same,
}

or_comm : (a b : Bool) → (a || b) ≡ (b || a)
or_comm a b = ground arith

and_comm : (a b : Bool) → (a && b) ≡ (b && a)
and_comm a b = ground arith

str_eq_comm : (s t : String) → str_eq s t ≡ str_eq t s
str_eq_comm s t = elim (Bool-cases (str_eq s t)) [
  | inl e ↦ let met : s ≡ t = (eq_iff s t).0 e in rw met refl
  | inr e ↦ e ∙ sym (str_eq-false t s (λ met. str_eq-apart s t e (sym met)))
]

-- Comparing two moments, two days, or two Decimals asks for no order.
pub record IsLibrary {Decimal Moment Day Json : Type 0} (l : Library Decimal Moment Day Json)
    : Type 0 where
  pub decimals : (a b : Decimal) → l.eq_decimal a b ≡ l.eq_decimal b a
  pub moments : (a b : Moment) → l.eq_moment a b ≡ l.eq_moment b a
  pub days : (a b : Day) → l.eq_day a b ≡ l.eq_day b a

module _ {Decimal Moment Day Json : Type 0} (l : Library Decimal Moment Day Json)
    (law : IsLibrary l) where
  same_instant_comm :
      (texts : Bool) (a b : Instant Moment Day)
      → same_instant l texts a b ≡ same_instant l texts b a
  unfolding same_instant
  same_instant_comm texts (at_moment m) (at_moment n) =
      rw
        (
          law.moments m n,
          and_comm (l.has_tzinfo m) (l.has_tzinfo n),
          and_comm (not (l.has_tzinfo m)) (not (l.has_tzinfo n)),
        )
        refl
  same_instant_comm texts (at_day d) (at_day e) = law.days d e
  same_instant_comm texts (at_moment m) (at_day d) = refl
  same_instant_comm texts (at_day d) (at_moment m) = refl

  same_instants_comm :
      (texts : Bool) (a b : Option (Instant Moment Day))
      → same_instants l texts a b ≡ same_instants l texts b a
  unfolding same_instants
  same_instants_comm texts none none = refl
  same_instants_comm texts none (some b) = refl
  same_instants_comm texts (some a) none = refl
  same_instants_comm texts (some a) (some b) = same_instant_comm texts a b

  same_numbers_comm :
      (texts : Bool) (a b : Option Decimal) → same_numbers l texts a b ≡ same_numbers l texts b a
  unfolding same_numbers
  same_numbers_comm texts none none = refl
  same_numbers_comm texts none (some b) = refl
  same_numbers_comm texts (some a) none = refl
  same_numbers_comm texts (some a) (some b) = law.decimals a b

  -- Where comparing two Decimals, two datetimes or two dates asks for no order: whether two values are
  -- the same, or comparing them raises, does not depend on which of them was read from the row and
  -- which was handed in, for values of any two kinds.
  pub same_comm : (a b : Value Decimal Moment Day Json) → same l a b ≡ same l b a
  unfolding same
  same_comm a b =
      let texts = str_eq (l.str b) (l.str a) in
      let as_date = is_plain_date l b || is_plain_date l a in
      rw
        (
          str_eq_comm (l.str a) (l.str b),
          or_comm (is_null l a) (is_null l b),
          and_comm (is_null l a) (is_null l b),
          or_comm (is_boolean l a) (is_boolean l b),
          str_eq_comm (boolish l a) (boolish l b),
          or_comm (is_temporal l a) (is_temporal l b),
          or_comm (is_plain_date l a) (is_plain_date l b),
          same_instants_comm texts (as_datetime l as_date a) (as_datetime l as_date b),
          or_comm (is_container l a) (is_container l b),
          str_eq_comm (l.dumps a) (l.dumps b),
          same_numbers_comm texts (as_decimal l a) (as_decimal l b),
        )
        refl
