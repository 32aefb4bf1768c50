-- ===== src/Throttle/Allowance.antt =====
-- The allowance of one window, and what `check` tells after a hit.
use py_app_runner.Prelude.{
  ℕ, suc, ◌+◌, ◌-◌, ◌<◌, max, min, ◌≡◌, refl, subst, Bool, true, false, some, List, [], ◌∷◌, arith,
  leb, if◌then◌else◌, length, count, All,
}
use py_app_runner.Prelude.Int.{pos}
use py_app_runner.Throttle.Window.{
  Counter, absent, Throttled, attempted, is_due, kept_at, open_window, count_in, run_hit, attempt,
  count_hit, hit, peek, check,
}

-- A counter with its window open: the hits so far and the moment at which it closes.
pub record IsOpen (hits reset : ℕ) (c : Counter) : Type 0 where
  pub counted : c ≡ record { hits = some hits; reset = some reset; expires_at = some reset }

-- Whether a call of `hit` let its caller through.
unfoldable pub is_allowed : Throttled → Bool
is_allowed (attempted a) = a.allowed
is_allowed _ = false

-- The calls of `hit` at the moments given, one after the other.
unfoldable pub hits_at : ℕ → ℕ → List ℕ → Counter → List Throttled
hits_at most window [] c = []
hits_at most window (now ∷ moments) c =
    let r = hit true true (pos (suc most)) (pos (suc window)) now c in
    r.0 ∷ hits_at most window moments r.1

hit-IsOpen :
    (most window now hits reset : ℕ) (c : Counter)
    → IsOpen hits reset c
    → now < reset
    → let r = hit true true (pos (suc most)) (pos (suc window)) now c in
      (r.0 ≡ attempted (attempt (hits + 1) reset (suc most) now)) × IsOpen (hits + 1) reset r.1
unfolding hit count_hit run_hit kept_at is_due open_window count_in
hit-IsOpen most window now hits reset c h l =
    let due : leb reset now ≡ false = ground arith in
    let expiry : now + max 1 (reset - now) ≡ reset = omega (arith, l) in
    rw (h.counted, due, due, expiry) (refl, record { counted = refl })

-- one call first, then the rest of them
count-first :
    (rest hits most : ℕ) (b : Bool) (n : ℕ)
    → b ≡ leb (hits + 1) (suc most)
    → n ≡ min rest (suc most - (hits + 1))
    → (if b then suc n else n) ≡ min (suc rest) (suc most - hits)
count-first rest hits most b n e h = ground (arith, e, h)

open-allowance :
    (most window reset hits : ℕ) (moments : List ℕ) (c : Counter)
    → IsOpen hits reset c
    → All (λ now. now < reset) moments
    → count is_allowed (hits_at most window moments c) ≡ min (length moments) (suc most - hits)
unfolding hits_at is_allowed attempt
open-allowance most window reset hits [] c h l = omega arith
open-allowance most window reset hits (now ∷ moments) c h l =
    let (e, next) = hit-IsOpen most window now hits reset c h l.0 in
    rw e (
      count-first (length moments) hits most (leb (hits + 1) (suc most))
        (count is_allowed (hits_at most window moments _)) refl
        (open-allowance most window reset (hits + 1) moments _ next l.1))

-- A window that the first call opens lets exactly `max_attempts` calls through, of any calls made
-- before it closes, whether or not the ones over the limit go on.
pub hits_at-allowance :
    (most window now : ℕ) (moments : List ℕ)
    → All (λ later. later < now + suc window) moments
    → count is_allowed (hits_at most window (now ∷ moments) absent)
      ≡ min (suc (length moments)) (suc most)
unfolding hits_at is_allowed attempt hit count_hit run_hit kept_at is_due open_window count_in
hits_at-allowance most window now moments l =
    let expiry : now + max 1 (now + suc window - now) ≡ now + suc window = omega arith in
    let total : suc most - 0 ≡ suc most = omega arith in
    subst
      (λ n.
        count is_allowed (hits_at most window (now ∷ moments) absent)
        ≡ min (suc (length moments)) n)
      total
      (count-first (length moments) 0 most (leb 1 (suc most))
        (count is_allowed (hits_at most window moments _)) refl
        (open-allowance most window (now + suc window) 1 moments _
          (record { counted = rw expiry refl }) l))

-- A `check` after a `hit`, before the window closes, tells what a `hit` at that moment told of the
-- hits counted: the same limit, hits, remaining attempts and closing moment, and it counts nothing.
pub check-hit :
    (most window now later hits reset : ℕ) (c : Counter)
    → IsOpen hits reset c
    → now < reset
    → later < reset
    → check true true
        (pos (suc most))
        later
        (hit true true (pos (suc most)) (pos (suc window)) now c).1
      ≡ attempted (attempt (hits + 1) reset (suc most) later)
unfolding check kept_at is_due open_window peek
check-hit most window now later hits reset c h l l' =
    let (e, next) = hit-IsOpen most window now hits reset c h l in
    let due : leb reset later ≡ false = ground arith in rw (next.counted, due, due) refl
