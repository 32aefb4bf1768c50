-- ===== src/Throttle/Tests.antt =====
-- The throttle on concrete calls.
use py_app_runner.Prelude.{◌≡◌, refl, true, false, some, [], ◌∷◌, map, arith, count}
use py_app_runner.Prelude.Int.{pos}
use py_app_runner.Throttle.Window.{
  Counter, absent, attempted, attempt, hit, check, is_due, kept_at, open_window, count_in, run_hit,
  count_hit,
}
use py_app_runner.Throttle.Allowance.{is_allowed, hits_at, hits_at-allowance, check-hit}

-- Two attempts in ten seconds: the third is refused, and a call after the window is let through.
two_of_three :
    map is_allowed (hits_at 1 9 (100 ∷ 103 ∷ 109 ∷ 110 ∷ []) absent)
    ≡ true ∷ true ∷ false ∷ true ∷ []
unfolding hits_at is_allowed attempt hit count_hit run_hit kept_at is_due open_window count_in
two_of_three = refl

hits_at-allowance_example : count is_allowed (hits_at 1 9 (100 ∷ 103 ∷ 109 ∷ []) absent) ≡ 2
hits_at-allowance_example =
    hits_at-allowance 1 9 100 (103 ∷ 109 ∷ []) (omega arith, (omega arith, tt))

abbrev two_counted : Counter
two_counted = record { hits = some 2; reset = some 110; expires_at = some 110 }

check-hit_example :
    check true true (pos 2) 105 (hit true true (pos 2) (pos 10) 103 two_counted).1
    ≡ attempted (attempt 3 110 2 105)
check-hit_example =
    check-hit 1 9 103 105 2 110 two_counted (record { counted = refl }) (omega arith) (omega arith)
