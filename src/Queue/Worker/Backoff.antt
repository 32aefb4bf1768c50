-- ===== src/Queue/Worker/Backoff.antt =====
-- `backoff` of worker.py: the delay before the next attempt.
use py_app_runner.Prelude.{
  ℕ, ◌+◌, ◌-◌, min, ◌≡◌, refl, Option, none, some, List, [], ◌∷◌, ◌++◌, arith, length, get_elem?,
  length-append,
}
use py_app_runner.Prelude.Int.{ℤ, pos, at_least}

-- steps: list[int] | int | None
pub data Steps : Type 0 where
  unset : Steps
  every : ℤ → Steps
  listed : List ℤ → Steps

abbrev pub default_steps : List ℤ
default_steps = pos 10 ∷ pos 60 ∷ pos 300 ∷ []

unfoldable delay_or_zero : Option ℤ → ℕ
delay_or_zero none = 0
delay_or_zero (some delay) = at_least 0 delay

-- steps[min(max(0, attempt - 1), len(steps) - 1)], or 0 where there are no steps
unfoldable pub pick : ℕ → List ℤ → ℕ
unfolding delay_or_zero
pick attempt steps = delay_or_zero (get_elem? steps (min (attempt - 1) (length steps - 1)))

unfoldable pub backoff : ℕ → Steps → ℕ
unfolding pick
backoff attempt unset = pick attempt default_steps
backoff attempt (every delay) = at_least 0 delay
backoff attempt (listed steps) = pick attempt steps

get_elem?-append :
    {A : Type 0} (xs ys : List A) (y : A) → get_elem? (xs ++ y ∷ ys) (length xs) ≡ some y
get_elem?-append [] ys y = refl
get_elem?-append (x ∷ xs) ys y = get_elem?-append xs ys y

-- The n-th attempt waits for the n-th step, and every attempt from the last step on waits for the
-- last one, so the delay settles there. A negative step waits for nothing.
backoff_steps :
    (before after : List ℤ) (step : ℤ) (more : ℕ)
    → (backoff (length before + 1) (listed (before ++ step ∷ after)) ≡ at_least 0 step)
      × (backoff (length before + 1 + more) (listed (before ++ step ∷ [])) ≡ at_least 0 step)
unfolding backoff pick delay_or_zero
backoff_steps before after step more =
    let place : min (length before + 1 - 1) (length (before ++ step ∷ after) - 1) ≡ length before =
      omega (arith, length-append before (step ∷ after)) in
    let last : min (length before + 1 + more - 1) (length (before ++ step ∷ []) - 1)
        ≡ length before =
      omega (arith, length-append before (step ∷ [])) in
    (rw (place, get_elem?-append before after step), rw (last, get_elem?-append before [] step))
