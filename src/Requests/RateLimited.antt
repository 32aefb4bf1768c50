-- ===== src/Requests/RateLimited.antt =====
-- @rate_limit over the counters of the throttle.
use py_app_runner.Prelude.{
  ℕ, suc, ◌+◌, ◌<◌, min, String, ◌≡◌, refl, ap, ◌∙◌, inl, inr, Bool, true, false, Option, none,
  some, List, [], ◌∷◌, arith, eq_iff, if◌then◌else◌, Bool-cases, length, count, All,
}
use py_app_runner.Prelude.Int.{pos}
use py_app_runner.Throttle.Window.{
  Counter, absent, Throttled, attempted, bad_limit, unavailable, hit,
}
use py_app_runner.Throttle.Allowance.{is_allowed, hits_at, hits_at-allowance}
use py_app_runner.Requests.Decorators.{
  Handler, World, Action, identity, rate_key, set_counter, on_hit, count_under, on_redis,
  rate_limit,
}

module _ {Conn Cache S E R : Type 0} (decimal : ℕ → String) (scope action_name : String)
    (most window : ℕ) (func : Action Conn Cache S E R) (h : Handler Conn Cache) where
  -- The world after the requests at the moments given, each with its own handler like `h`.
  unfoldable pub requests_at : List ℕ → World S → World S
  requests_at [] w = w
  requests_at (now ∷ moments) w =
      requests_at moments
        (rate_limit decimal true true now scope action_name (pos (suc most)) (pos (suc window)) func
          h w).2

-- An action that leaves the counters alone and that counts its own runs.
pub record IsCounting {Conn Cache S E R : Type 0} (runs : S → ℕ) (func : Action Conn Cache S E R)
    : Type 0 where
  pub keeps : (h : Handler Conn Cache) (w : World S) → (func h w).2.counters ≡ w.counters
  pub counts : (h : Handler Conn Cache) (w : World S) → runs (func h w).2.state ≡ runs w.state + 1

one_if : Bool → ℕ
one_if b = if b then 1 else 0

sum_of :
    (b : Bool) (before rest : ℕ)
    → before + one_if b + rest ≡ before + (if b then suc rest else rest)
unfolding one_if
sum_of true before rest = omega arith
sum_of false before rest = omega arith

module _ {Conn Cache S E R : Type 0} (runs : S → ℕ) (func : Action Conn Cache S E R)
    (law : IsCounting runs func) (h : Handler Conn Cache) where
  -- One request: the counter after the hit, and a run where the hit is let through.
  after_hit :
      (key : String) (answer : Throttled) (c : Counter) (w : World S)
      → ((count_under key (answer, c) func h w).2.counters key ≡ c)
        × (runs (count_under key (answer, c) func h w).2.state
            ≡ runs w.state + one_if (is_allowed answer))
  unfolding count_under on_hit set_counter is_allowed one_if
  after_hit key (attempted a) c w = elim (Bool-cases a.allowed) [
    | inl q ↦ rw q (
      ap (λ f. f key) (law.keeps h (set_counter key c w)) ∙ rw ((eq_iff key key).1 refl) refl,
      law.counts h (set_counter key c w),
    )
    | inr q ↦ rw q (rw ((eq_iff key key).1 refl) refl, omega arith)
  ]
  after_hit key bad_limit c w = (rw ((eq_iff key key).1 refl) refl, omega arith)
  after_hit key unavailable c w = (rw ((eq_iff key key).1 refl) refl, omega arith)

module _ {Conn Cache S E R : Type 0} (decimal : ℕ → String) (scope action_name : String)
    (most window : ℕ) (runs : S → ℕ) (func : Action Conn Cache S E R) (law : IsCounting runs func)
    (h : Handler Conn Cache) (cache : Cache) (attached : h.redis_con ≡ some cache) where
  abbrev key_of_requests : String
  key_of_requests = rate_key scope action_name (identity decimal h.bridge_handler)

  one_request :
      (now : ℕ) (w : World S)
      → rate_limit decimal true true now scope action_name
          (pos (suc most))
          (pos (suc window))
          func
          h
          w
        ≡ count_under key_of_requests
            (hit true true (pos (suc most)) (pos (suc window)) now (w.counters key_of_requests))
            func
            h
            w
  unfolding rate_limit
  one_request now w = with_redis h.redis_con attached
    where
      with_redis :
          (o : Option Cache)
          → o ≡ some cache
          → on_redis o
              (count_under key_of_requests
                (hit true true (pos (suc most)) (pos (suc window)) now (w.counters key_of_requests))
                func)
              h
              w
            ≡ count_under key_of_requests
                (hit true true (pos (suc most)) (pos (suc window)) now (w.counters key_of_requests))
                func
                h
                w
      with_redis none e = absurd (cc e)
      with_redis (some c) e = unfold on_redis in refl

  counted_runs :
      (moments : List ℕ) (w : World S) (c : Counter)
      → w.counters key_of_requests ≡ c
      → runs (requests_at decimal scope action_name most window func h moments w).state
        ≡ runs w.state + count is_allowed (hits_at most window moments c)
  unfolding requests_at hits_at
  counted_runs [] w c e = omega arith
  counted_runs (now ∷ moments) w c e =
      let r = hit true true (pos (suc most)) (pos (suc window)) now c in
      let step : rate_limit decimal true true now scope action_name (pos (suc most))
            (pos (suc window)) func h w
          ≡ count_under key_of_requests r func h w =
        one_request now w
        ∙ ap
            (λ k.
              count_under key_of_requests (hit true true (pos (suc most)) (pos (suc window)) now k)
                func h w)
            e in
      let (kept, ran) = after_hit runs func law h key_of_requests r.0 r.1 w in
      let next = (count_under key_of_requests r func h w).2 in
      ap (λ x. runs (requests_at decimal scope action_name most window func h moments x.2).state)
        step
      ∙ counted_runs moments next r.1 kept
      ∙ ap (λ n. n + count is_allowed (hits_at most window moments r.1)) ran
      ∙ sum_of (is_allowed r.0) (runs w.state) (count is_allowed (hits_at most window moments r.1))

  -- A limited action that counts its runs and leaves the counters alone, requested by one identity with
  -- a cache attached, where nothing is counted yet: of any requests made before the window that the
  -- first one opens closes, exactly as many as the limit allows run the action, and all of them do
  -- where there are fewer.
  pub requests_at-limit :
      (now : ℕ) (moments : List ℕ) (w : World S)
      → w.counters key_of_requests ≡ absent
      → All (λ later. later < now + suc window) moments
      → runs (requests_at decimal scope action_name most window func h (now ∷ moments) w).state
        ≡ runs w.state + min (suc (length moments)) (suc most)
  requests_at-limit now moments w fresh l =
      counted_runs (now ∷ moments) w absent fresh
      ∙ ap (λ n. runs w.state + n) (hits_at-allowance most window now moments l)
