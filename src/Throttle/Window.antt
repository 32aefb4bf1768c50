-- ===== src/Throttle/Window.antt =====
-- `_HIT_SCRIPT`, `hit`, `check`, `clear` and `headers` of throttle.py, over the hash of one key. A
-- stored field that is no number counts as absent, as it does for `tonumber` and for `_parse`.
use py_app_runner.Prelude.{
  ℕ, suc, ◌+◌, ◌-◌, max, String, Bool, true, false, Option, none, some, List, [], ◌∷◌, leb,
  if◌then◌else◌,
}
use py_app_runner.Prelude.Int.{ℤ, pos}

-- The hash of a key: its two fields, and the moment at which Redis drops the key.
pub record Counter : Type 0 where
  pub hits : Option ℕ
  pub reset : Option ℕ
  pub expires_at : Option ℕ

abbrev pub absent : Counter
absent = record { hits = none; reset = none; expires_at = none }

pub record Attempt : Type 0 where
  pub allowed : Bool
  pub limit : ℕ
  pub hits : ℕ
  pub remaining : ℕ
  pub retry_after : ℕ
  pub reset_at : ℕ

-- How a call ends: with an attempt, with a ValueError, or with the error of Redis.
pub data Throttled : Type 0 where
  attempted : Attempt → Throttled
  bad_limit unavailable : Throttled

unfoldable pub is_due : ℕ → Option ℕ → Bool
is_due now none = false
is_due now (some moment) = leb moment now

-- what Redis still has of the key
unfoldable pub kept_at : ℕ → Counter → Counter
kept_at now c = if is_due now c.expires_at then absent else c

-- the window that is open: the hits in it and when it closes
unfoldable pub open_window : ℕ → Option ℕ → Option ℕ → Option (ℕ × ℕ)
open_window now none reset = none
open_window now (some hits) none = none
open_window now (some hits) (some reset) = if leb reset now then none else some (hits, reset)

-- the script's result, and the hash with its EXPIRE
unfoldable pub count_in : ℕ → ℕ → Option (ℕ × ℕ) → (ℕ × ℕ) × Counter
count_in now window none = (
  (1, now + window),
  record {
    hits = some 1;
    reset = some (now + window);
    expires_at = some (now + max 1 (now + window - now));
  },
)
count_in now window (some (hits, reset)) = (
  (hits + 1, reset),
  record {
    hits = some (hits + 1);
    reset = some reset;
    expires_at = some (now + max 1 (reset - now));
  },
)

unfoldable pub run_hit : ℕ → ℕ → Counter → (ℕ × ℕ) × Counter
run_hit now window c = let k = kept_at now c in count_in now window (open_window now k.hits k.reset)

unfoldable pub attempt : ℕ → ℕ → ℕ → ℕ → Attempt
attempt hits reset_at max_attempts now = record {
  allowed = leb hits max_attempts;
  limit = max_attempts;
  hits = hits;
  remaining = max_attempts - hits;
  retry_after = if leb hits max_attempts then 0 else reset_at - now;
  reset_at = reset_at;
}

abbrev full_allowance : ℕ → ℕ → Attempt
full_allowance max_attempts reset_at = record {
  allowed = true;
  limit = max_attempts;
  hits = 0;
  remaining = max_attempts;
  retry_after = 0;
  reset_at = reset_at;
}

-- `_unavailable`
unfoldable pub without_redis : Bool → ℕ → ℕ → Throttled
without_redis fail_open max_attempts reset_at =
    if fail_open then attempted (full_allowance max_attempts reset_at) else unavailable

unfoldable pub count_hit : ℕ → ℕ → ℕ → Counter → Throttled × Counter
count_hit max_attempts window now c =
    let r = run_hit now window c in (attempted (attempt r.0.0 r.0.1 max_attempts now), r.1)

-- `reachable` says whether the call of Redis returns; where it does not, the script has not run.
unfoldable pub hit : Bool → Bool → ℤ → ℤ → ℕ → Counter → Throttled × Counter
hit fail_open reachable (pos (suc most)) (pos (suc window)) now c =
    if reachable
    then count_hit (suc most) (suc window) now c
    else (without_redis fail_open (suc most) (now + suc window), c)
hit fail_open reachable _ _ now c = (bad_limit, c)

unfoldable pub peek : ℕ → ℕ → Option (ℕ × ℕ) → Attempt
peek max_attempts now none = full_allowance max_attempts now
peek max_attempts now (some (hits, reset)) = attempt hits reset max_attempts now

unfoldable pub check : Bool → Bool → ℤ → ℕ → Counter → Throttled
check fail_open reachable (pos (suc most)) now c =
    let k = kept_at now c in
    if reachable
    then attempted (peek (suc most) now (open_window now k.hits k.reset))
    else without_redis fail_open (suc most) now
check fail_open reachable _ now c = bad_limit

-- whether it returned, and the hash
unfoldable pub clear : Bool → Bool → Counter → Bool × Counter
clear fail_open reachable c = if reachable then (true, absent) else (fail_open, c)

-- the header names and their numbers
unfoldable pub headers : Attempt → List (String × ℕ)
headers a =
    ("X-RateLimit-Limit", a.limit)
    ∷ ("X-RateLimit-Remaining", a.remaining)
    ∷ ("X-RateLimit-Reset", a.reset_at)
    ∷ (if a.allowed then [] else ("Retry-After", a.retry_after) ∷ [])
