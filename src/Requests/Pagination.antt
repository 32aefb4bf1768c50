-- ===== src/Requests/Pagination.antt =====
-- `parse_pagination` of pagination.py.
use py_app_runner.Prelude.{
  ℕ, ◌≤◌, max, min, ◌≡◌, refl, ap, ◌∙◌, ◌⊎◌, inl, inr, Option, none, some, arith,
}
use py_app_runner.Prelude.Int.{ℤ, pos, negsuc, at_least}

-- A field of the input: absent, refused by `int` with a TypeError or a ValueError, an infinite float,
-- which `int` refuses with an OverflowError, or a number.
pub data Field : Type 0 where
  missing unreadable infinite : Field
  number : ℤ → Field

abbrev pub max_page_limit : ℕ
max_page_limit = 100

-- the number, or the default in its place; none for the OverflowError, which is not caught
unfoldable pub number_or : ℕ → Field → Option ℤ
number_or default missing = some (pos default)
number_or default unreadable = some (pos default)
number_or default infinite = none
number_or default (number n) = some n

-- max(1, min(limit, MAX_PAGE_LIMIT))
unfoldable pub clamp_limit : ℤ → ℕ
clamp_limit (pos n) = max 1 (min n max_page_limit)
clamp_limit (negsuc n) = 1

unfoldable pub page_of : Option ℤ → Option ℤ → Option (ℕ × ℕ)
unfolding clamp_limit
page_of none offset = none
page_of (some limit) none = none
page_of (some limit) (some offset) = some (clamp_limit limit, at_least 0 offset)

-- The input is none where it is absent or empty; the answer is none where the call raises.
unfoldable pub parse_pagination : ℕ → Option (Field × Field) → Option (ℕ × ℕ)
unfolding page_of number_or
parse_pagination default_limit none = some (default_limit, 0)
parse_pagination default_limit (some (limit, offset)) =
    page_of (number_or default_limit limit) (number_or 0 offset)

clamp_limit_bounds : (n : ℤ) → (1 ≤ clamp_limit n) × (clamp_limit n ≤ 100)
unfolding clamp_limit
clamp_limit_bounds (pos n) = (omega arith, omega arith)
clamp_limit_bounds (negsuc n) = (omega arith, omega arith)

as_they_are :
    (limit offset : ℕ)
    → 1 ≤ limit
    → limit ≤ max_page_limit
    → page_of (some (pos limit)) (some (pos offset)) ≡ some (limit, offset)
unfolding page_of clamp_limit
as_they_are limit offset k k' =
    ap (λ n. some (n, max 0 offset)) (omega (arith, k, k'))
    ∙ ap (λ n. some (limit, n)) (omega arith)

abbrev pub IsInfinite : Option (Field × Field) → Type 0
IsInfinite none = ⊥
IsInfinite (some (limit, offset)) = (limit ≡ infinite) ⊎ (offset ≡ infinite)

-- The call raises over an infinite field, or gives a page of 1 to 100 rows.
abbrev pub IsPage : Option (Field × Field) → Option (ℕ × ℕ) → Type 0
IsPage input none = IsInfinite input
IsPage input (some (limit, offset)) = (1 ≤ limit) × (limit ≤ max_page_limit) × ¬ (IsInfinite input)

finite :
    (f : Field) (n : ℕ) → (f ≡ infinite) ⊎ (¬ (f ≡ infinite) × (z : ℤ) × (number_or n f ≡ some z))
unfolding number_or
finite missing n = inr ((λ e. absurd (cc e)), pos n, refl)
finite unreadable n = inr ((λ e. absurd (cc e)), pos n, refl)
finite infinite n = inl refl
finite (number z) n = inr ((λ e. absurd (cc e)), z, refl)

page_of-IsPage :
    (default : ℕ) (limit offset : Field)
    → IsPage (some (limit, offset)) (page_of (number_or default limit) (number_or 0 offset))
unfolding page_of
page_of-IsPage default limit offset = elim (finite limit default) [
  | inl e ↦ rw e (unfold number_or in inl refl)
  | inr (fine, z, e) ↦ elim (finite offset 0) [
    | inl e' ↦ rw (e, e') (unfold number_or in inr refl)
    | inr (fine', z', e') ↦
        rw (e, e')
          (
            (clamp_limit_bounds z).0,
            (clamp_limit_bounds z).1,
            (λ i. elim i [ inl k ↦ fine k | inr k ↦ fine' k ]),
          )
  ]
]

-- Where the default is a number from 1 to 100, whatever the client sends: the call raises where a field
-- is an infinite float, and only there; else a page has between 1 and 100 rows; and a limit in that
-- range and an offset that is not negative are taken as they are.
pub parse_pagination_bounds :
    (default : ℕ) (input : Option (Field × Field)) (limit offset : ℕ)
    → 1 ≤ default
    → default ≤ max_page_limit
    → 1 ≤ limit
    → limit ≤ max_page_limit
    → IsPage input (parse_pagination default input)
      × (parse_pagination default (some (number (pos limit), number (pos offset)))
          ≡ some (limit, offset))
unfolding parse_pagination number_or
parse_pagination_bounds default none limit offset h h' k k' =
    ((h, h', (λ i. i)), as_they_are limit offset k k')
parse_pagination_bounds default (some (l, o)) limit offset h h' k k' =
    (page_of-IsPage default l o, as_they_are limit offset k k')
