-- ===== src/Requests/Borrowed.antt =====
-- The connections that the decorators borrow for an action, whatever it does.
use py_app_runner.Prelude.{
  ℕ, ◌+◌, ◌-◌, ◌≡◌, refl, ◌∙◌, inl, inr, Option, none, some, arith, Bool-cases, if_both,
}
use py_app_runner.Requests.Decorators.{
  Handler, World, Outcome, Entered, entered, refused, Pools, Action, attach_db, detach_db, after_db,
  on_db, inside_db, after_cache, on_cache, inside_cache, Bridge, on_bridge, linked,
  with_cache_and_db,
}

abbrev IsDetached : {Conn Cache : Type 0} → Handler Conn Cache → Type 0
IsDetached h = (h.db_conn ≡ none) × (h.pg_conn ≡ none) × (h.db_wrapper ≡ none)

-- No connection is left on the handler.
abbrev pub IsClean : {Conn Cache : Type 0} → Handler Conn Cache → Type 0
IsClean h = (h.db_conn ≡ none) × (h.pg_conn ≡ none) × (h.db_wrapper ≡ none) × (h.redis_con ≡ none)

-- How many connections of each kind are borrowed in a world.
pub record Borrowed (S : Type 0) : Type 0 where
  pub db : World S → ℕ
  pub cache : World S → ℕ

module _ {Conn Cache S E : Type 0} where
  -- What is asked of the pools: entering borrows one connection unless it is refused, and leaving gives
  -- one back.
  pub record IsPools (p : Pools Conn Cache S E) (b : Borrowed S) : Type 0 where
    pub db_entered :
        (w w' : World S) (o : Option Conn)
        → p.enter_db w ≡ (entered o, w')
        → (b.db w' ≡ b.db w + 1) × (b.cache w' ≡ b.cache w)
    pub db_refused :
        (w w' : World S) (e : E)
        → p.enter_db w ≡ (refused e, w')
        → (b.db w' ≡ b.db w) × (b.cache w' ≡ b.cache w)
    pub db_left :
        (w : World S) → (b.db (p.leave_db w) ≡ b.db w - 1) × (b.cache (p.leave_db w) ≡ b.cache w)
    pub cache_entered :
        (w w' : World S) (o : Option Cache)
        → p.enter_cache w ≡ (entered o, w')
        → (b.cache w' ≡ b.cache w + 1) × (b.db w' ≡ b.db w)
    pub cache_refused :
        (w w' : World S) (e : E)
        → p.enter_cache w ≡ (refused e, w')
        → (b.cache w' ≡ b.cache w) × (b.db w' ≡ b.db w)
    pub cache_left :
        (w : World S)
        → (b.cache (p.leave_cache w) ≡ b.cache w - 1) × (b.db (p.leave_cache w) ≡ b.db w)

  -- An action that gives back what it borrows.
  abbrev pub Balanced : {R : Type 0} → Borrowed S → Action Conn Cache S E R → Type 0
  Balanced b func =
      (h : Handler Conn Cache) (w : World S)
      → (b.db (func h w).2 ≡ b.db w) × (b.cache (func h w).2 ≡ b.cache w)

module _ {Conn Cache S E R : Type 0} (p : Pools Conn Cache S E) (b : Borrowed S) (law : IsPools p b)
    (func : Action Conn Cache S E R) where
  on_db-Balanced :
      (h : Handler Conn Cache) (w : World S) (x : Entered E Conn × World S)
      → p.enter_db w ≡ x
      → Balanced b func
      → (b.db (on_db p func h x).2 ≡ b.db w) × (b.cache (on_db p func h x).2 ≡ b.cache w)
  unfolding on_db after_db
  on_db-Balanced h w (refused e, w') q k = law.db_refused w w' e q
  on_db-Balanced h w (entered none, w') q k =
      let (d, c) = law.db_entered w w' none q in
      let (d', c') = law.db_left w' in (omega (arith, d, d'), c' ∙ c)
  on_db-Balanced h w (entered (some conn), w') q k =
      let (d, c) = law.db_entered w w' (some conn) q in
      let (d1, c1) = k (attach_db p.is_sqlite conn h) w' in
      let (d', c') = law.db_left (func (attach_db p.is_sqlite conn h) w').2 in
      (omega (arith, d, d1, d'), c' ∙ c1 ∙ c)

  on_cache-Balanced :
      (h : Handler Conn Cache) (w : World S) (x : Entered E Cache × World S)
      → p.enter_cache w ≡ x
      → Balanced b func
      → (b.db (on_cache p func h x).2 ≡ b.db w) × (b.cache (on_cache p func h x).2 ≡ b.cache w)
  unfolding on_cache after_cache
  on_cache-Balanced h w (refused e, w') q k = let (c, d) = law.cache_refused w w' e q in (d, c)
  on_cache-Balanced h w (entered none, w') q k =
      let (c, d) = law.cache_entered w w' none q in
      let (c', d') = law.cache_left w' in (d' ∙ d, omega (arith, c, c'))
  on_cache-Balanced h w (entered (some cache), w') q k =
      let (c, d) = law.cache_entered w w' (some cache) q in
      let (d1, c1) = k (record h { redis_con = some cache }) w' in
      let (c', d') = law.cache_left (func (record h { redis_con = some cache }) w').2 in
      (d' ∙ d1 ∙ d, omega (arith, c, c1, c'))

module _ {Conn Cache S E R : Type 0} (p : Pools Conn Cache S E) where
  inside_db-Balanced :
      (b : Borrowed S)
      → IsPools p b
      → (func : Action Conn Cache S E R) → Balanced b func
      → Balanced b (inside_db p func)
  unfolding inside_db
  inside_db-Balanced b law func k h w = on_db-Balanced p b law func h w (p.enter_db w) refl k

  inside_cache-Balanced :
      (b : Borrowed S)
      → IsPools p b
      → (func : Action Conn Cache S E R) → Balanced b func
      → Balanced b (inside_cache p func)
  unfolding inside_cache
  inside_cache-Balanced b law func k h w = elim (Bool-cases p.has_cache) [
    | inl q ↦ rw q (on_cache-Balanced p b law func h w (p.enter_cache w) refl k)
    | inr q ↦ rw q (refl, refl)
  ]

  linked-Balanced :
      (b : Borrowed S) (func : Action Conn Cache S E R) → Balanced b func → Balanced b (linked func)
  unfolding linked
  linked-Balanced b func k h w = on_link h.bridge_handler
    where
      on_link :
          (o : Option Bridge)
          → (b.db (on_bridge o func h w).2 ≡ b.db w)
            × (b.cache (on_bridge o func h w).2 ≡ b.cache w)
      on_link none = unfold on_bridge in (refl, refl)
      on_link (some bridge) = unfold on_bridge in k h w

  inside_db-IsDetached :
      (func : Action Conn Cache S E R) (h : Handler Conn Cache) (w : World S)
      → IsDetached h
      → IsDetached (inside_db p func h w).1
  unfolding inside_db
  inside_db-IsDetached func h w d = entered_db (p.enter_db w)
    where
      entered_db : (x : Entered E Conn × World S) → IsDetached (on_db p func h x).1
      entered_db (refused e, w') = unfold on_db in d
      entered_db (entered none, w') = unfold on_db in d
      entered_db (entered (some conn), w') = unfold on_db after_db detach_db in (refl, refl, refl)

  inside_cache-IsClean :
      (func : Action Conn Cache S E R)
      → ((h : Handler Conn Cache) (w : World S) → IsDetached h → IsDetached (func h w).1)
      → (h : Handler Conn Cache) (w : World S) → IsClean h
      → IsClean (inside_cache p func h w).1
  unfolding inside_cache
  inside_cache-IsClean func k h w c =
      if_both (λ (x : Outcome E R × Handler Conn Cache × World S). IsClean x.1) p.has_cache
        (entered_cache (p.enter_cache w)) c
    where
      entered_cache : (x : Entered E Cache × World S) → IsClean (on_cache p func h x).1
      entered_cache (refused e, w') = unfold on_cache in c
      entered_cache (entered none, w') = unfold on_cache in c
      entered_cache (entered (some cache), w') =
          let (d, g, r) = k (record h { redis_con = some cache }) w' (c.0, c.1, c.2) in
          unfold on_cache after_cache in (d, g, r, refl)

  linked-IsClean :
      (func : Action Conn Cache S E R)
      → ((h : Handler Conn Cache) (w : World S) → IsClean h → IsClean (func h w).1)
      → (h : Handler Conn Cache) (w : World S) → IsClean h
      → IsClean (linked func h w).1
  unfolding linked
  linked-IsClean func k h w c = on_link h.bridge_handler
    where
      on_link : (o : Option Bridge) → IsClean (on_bridge o func h w).1
      on_link none = unfold on_bridge in c
      on_link (some bridge) = unfold on_bridge in k h w c

  -- Under @with_cache_and_db, for any action that gives back what it borrows itself: whatever way it ends,
  -- by an answer, by an exception of the action, by a pool that refuses or gives no connection, by a
  -- missing cache or bridge, as many connections of each kind are borrowed as before, and a handler that
  -- had no connection on it has none, even where the action put one there.
  pub with_cache_and_db-IsClean :
      (b : Borrowed S) (func : Action Conn Cache S E R) (h : Handler Conn Cache) (w : World S)
      → IsPools p b
      → Balanced b func
      → IsClean h
      → (b.db (with_cache_and_db p func h w).2 ≡ b.db w)
        × (b.cache (with_cache_and_db p func h w).2 ≡ b.cache w)
        × IsClean (with_cache_and_db p func h w).1
  unfolding with_cache_and_db
  with_cache_and_db-IsClean b func h w law k c =
      let (d, g) =
        linked-Balanced b (inside_cache p (inside_db p func))
          (inside_cache-Balanced b law (inside_db p func) (inside_db-Balanced b law func k)) h w in
      (
        d,
        g,
        linked-IsClean (inside_cache p (inside_db p func))
            (inside_cache-IsClean (inside_db p func) (inside_db-IsDetached func)) h w c,
      )
