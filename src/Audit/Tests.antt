-- ===== src/Audit/Tests.antt =====
-- What the trail keeps of an update of an account.
use py_app_runner.Prelude.{
  ℕ, String, ◌≡◌, refl, ap, inl, inr, true, false, none, some, [], ◌∷◌, map, arith, str_eq, ◌==◌,
  if◌then◌else◌, Bool-cases,
}
use py_app_runner.Prelude.Int.{ℤ, pos, eq_ℤ}
use py_app_runner.Audit.Values.{
  Value, null, boolean, integer, decimal, text, moment, day, container, opaque, Library, boolish,
  same,
}
use py_app_runner.Audit.Diff.{
  with_key, collapsed, reported, Dict, lookup, redacted, is_excluded, shown, differing, between,
}
use py_app_runner.Audit.Symmetric.{IsLibrary, same_comm}
use py_app_runner.Audit.Redacted.{IsWithheldReport, between-IsWithheld}

abbrev V : Type 0
V = Value ℤ ℕ ℕ ℕ

abbrev lower : String → String
lower t = if str_eq t "Password" then "password" else t

abbrev library : Library ℤ ℕ ℕ ℕ
library = record {
  decimal_of_int = λ n. n;
  parse_decimal = λ t. if str_eq t "10.50" then some (pos 10) else none;
  eq_decimal = λ a b. some (eq_ℤ a b);
  date = λ m. m;
  parse_day = λ t. if str_eq t "2024-01-02" then some 2 else none;
  parse_moment = λ t. none;
  has_tzinfo = λ m. false;
  eq_moment = λ m n. m == n;
  eq_day = λ d e. d == e;
  eq_moment_day = λ m d. false;
  dumps = λ v. "{}";
  str = λ v. elim v [
    | null ↦ "None"
    | boolean b ↦ "True"
    | integer n ↦ "1"
    | decimal d ↦ "10"
    | text t ↦ t
    | moment m ↦ "moment"
    | day d ↦ "day"
    | container j ↦ "{}"
    | opaque j ↦ "object"
  ];
  lower_strip = λ t. lower t;
  lower = λ t. lower t;
}

abbrev before : Dict V
before = ("price", decimal (pos 10)) ∷ ("Password", text "old") ∷ ("name", text "n") ∷ []

abbrev after : Dict V
after = ("price", text "10.50") ∷ ("Password", text "new") ∷ ("note", text "hello") ∷ []

-- Everything that the tests run.
program : Unit {0}
unfolding between reported collapsed with_key differing lookup shown is_excluded same boolish
program = tt

-- the price is untouched, and the note was null
between_account :
    between library (some before) (some after) ("PASSWORD" ∷ "password" ∷ [])
    ≡ some (
      some (("Password", redacted library) ∷ ("note", null) ∷ []),
      some (("Password", redacted library) ∷ ("note", text "hello") ∷ []),
    )
unfolding program
between_account = refl

-- only beside a bool are texts read as bools
same_words :
    (same library (boolean true) (text "yes") ≡ some true)
    × (same library (text "yes") (text "true") ≡ some false)
unfolding program
same_words = (refl, refl)

lower_idem : (t : String) → lower (lower t) ≡ lower t
lower_idem t = elim (Bool-cases (str_eq t "Password")) [
  | inl e ↦ rw e refl
  | inr e ↦ rw (e, e) refl
]

eq_nat_comm : (m n : ℕ) → (m == n) ≡ (n == m)
eq_nat_comm m n = ground arith

eq_ℤ_comm : (a b : ℤ) → eq_ℤ a b ≡ eq_ℤ b a
eq_ℤ_comm a b = ground arith

library-IsLibrary : IsLibrary library
library-IsLibrary = record {
  decimals = λ a b. ap some (eq_ℤ_comm a b);
  moments = eq_nat_comm;
  days = eq_nat_comm;
}

same_comm_example :
    same library (text "2024-01-02") (day 2) ≡ same library (day 2) (text "2024-01-02")
same_comm_example = same_comm library library-IsLibrary (text "2024-01-02") (day 2)

between-IsWithheld_example :
    IsWithheldReport library
      (map lower ("password" ∷ []))
      (between library (some before) (some after) ("password" ∷ []))
between-IsWithheld_example =
    between-IsWithheld library lower_idem (some before) (some after) ("password" ∷ [])
