-- ===== src/Requests/Decorators.antt =====
-- request_handler/decorators.py: an action as a function on its handler and the world, and each
-- decorator as a function on actions.
use Prim.Native.String.{◌++◌ as push_str}
use py_app_runner.Prelude.{
  ℕ, zero, suc, String, Bool, true, false, Option, none, some, List, map, str_eq, if◌then◌else◌,
}
use py_app_runner.Prelude.Int.{ℤ}
use py_app_runner.Throttle.Window.{Counter, Throttled, attempted, bad_limit, unavailable, hit}

-- `getattr(user, "id", None)`
pub record User : Type 0 where
  pub id : Option ℕ

pub record Bridge : Type 0 where
  pub current_user : Option User
  pub client_ip : String

-- An attribute that is not set is none here.
pub record Handler (Conn Cache : Type 0) : Type 0 where
  pub bridge_handler : Option Bridge
  pub db_conn : Option Conn
  pub pg_conn : Option Conn
  pub db_wrapper : Option Conn
  pub redis_con : Option Cache

-- The counters that Redis keeps for the throttle, by key, and all else.
pub record World (S : Type 0) : Type 0 where
  pub counters : String → Counter
  pub state : S

-- HTTPException by its code and status, the errors that the decorators raise or let through, and what
-- an action or a pool raises.
pub data Failure (E : Type 0) : Type 0 where
  http : ℕ → ℕ → Failure E
  runtime_error : Failure E
  value_error : Failure E
  redis_error : Failure E
  raised_by : E → Failure E

pub data Outcome (E R : Type 0) : Type 0 where
  returned : R → Outcome E R
  failed : Failure E → Outcome E R

-- What `async with` of a pool gives: a connection that may be missing, or an exception.
pub data Entered (E A : Type 0) : Type 0 where
  entered : Option A → Entered E A
  refused : E → Entered E A

-- The connections of the database and of the cache, and a transaction of the former.
pub record Pools (Conn Cache S E : Type 0) : Type 0 where
  pub enter_db : World S → Entered E Conn × World S
  pub leave_db : World S → World S
  pub has_cache : Bool
  pub enter_cache : World S → Entered E Cache × World S
  pub leave_cache : World S → World S
  pub is_sqlite : Conn → Bool
  pub begin : Conn → World S → World S
  pub commit : Conn → World S → World S
  pub rollback : Conn → World S → World S

abbrev pub Action : Type 0 → Type 0 → Type 0 → Type 0 → Type 0 → Type 0
Action Conn Cache S E R = Handler Conn Cache → World S → Outcome E R × Handler Conn Cache × World S

unfoldable pub signed_in : Option Bridge → Bool
signed_in none = false
signed_in (some bridge) = elim bridge.current_user [ none ↦ false | some _ ↦ true ]

unfoldable pub identity_of_id : (ℕ → String) → Option ℕ → String → String
identity_of_id decimal none ip = push_str "ip:" ip
identity_of_id decimal (some zero) ip = push_str "ip:" ip
identity_of_id decimal (some (suc n)) ip = push_str "user:" (decimal (suc n))

-- the user where there is one with an id, then the address; an id of zero is no id
unfoldable pub identity : (ℕ → String) → Option Bridge → String
unfolding identity_of_id
identity decimal none = "unknown"
identity decimal (some bridge) =
    identity_of_id decimal (elim bridge.current_user [ none ↦ none | some user ↦ user.id ])
      bridge.client_ip

-- rl:{scope}:{action_name}:{identity}
unfoldable pub rate_key : String → String → String → String
rate_key scope action_name identity =
    push_str "rl:" (push_str scope (push_str ":" (push_str action_name (push_str ":" identity))))

unfoldable pub set_counter : {S : Type 0} → String → Counter → World S → World S
set_counter key c w = record w { counters = λ k. if str_eq k key then c else w.counters k }

-- `_attach_db`
unfoldable pub attach_db :
    {Conn Cache : Type 0} → (Conn → Bool) → Conn → Handler Conn Cache → Handler Conn Cache
attach_db is_sqlite conn h = record h {
  db_conn = some conn;
  pg_conn = if is_sqlite conn then h.pg_conn else some conn;
  db_wrapper = some conn;
}

-- `_detach_db`
unfoldable pub detach_db : {Conn Cache : Type 0} → Handler Conn Cache → Handler Conn Cache
detach_db h = record h { db_conn = none; pg_conn = none; db_wrapper = none }

-- a handler wired up by hand has only pg_conn
unfoldable pub transaction_conn : {Conn Cache : Type 0} → Handler Conn Cache → Option Conn
transaction_conn h = elim h.db_conn [ none ↦ h.pg_conn | some conn ↦ some conn ]

-- A method as `dir` finds it, with the marks that the decorators leave.
pub record Method (Conn Cache S E R : Type 0) : Type 0 where
  pub name : String
  pub action_name : Option String
  pub auth_wrapped : Bool
  pub func : Action Conn Cache S E R

module _ {Conn Cache S E R : Type 0} where
  unfoldable pub authenticated : Action Conn Cache S E R → Action Conn Cache S E R
  unfolding signed_in
  authenticated func h w =
      if signed_in h.bridge_handler then func h w else (failed (http 4010 401), h, w)

  -- if bh is None: raise
  unfoldable pub on_bridge : Option Bridge → Action Conn Cache S E R → Action Conn Cache S E R
  on_bridge none func h w = (failed (http 5000 400), h, w)
  on_bridge (some bridge) func h w = func h w

  unfoldable pub linked : Action Conn Cache S E R → Action Conn Cache S E R
  unfolding on_bridge
  linked func h w = on_bridge h.bridge_handler func h w

  module _ (p : Pools Conn Cache S E) where
    -- the finally, and the end of the async with
    unfoldable pub after_db :
        Outcome E R × Handler Conn Cache × World S → Outcome E R × Handler Conn Cache × World S
    unfolding detach_db
    after_db (o, h, w) = (o, detach_db h, p.leave_db w)

    unfoldable pub on_db :
        Action Conn Cache S E R
        → Handler Conn Cache
        → Entered E Conn × World S
        → Outcome E R × Handler Conn Cache × World S
    unfolding attach_db after_db
    on_db func h (refused e, w) = (failed (raised_by e), h, w)
    on_db func h (entered none, w) = (failed (http 5000 400), h, p.leave_db w)
    on_db func h (entered (some conn), w) = after_db (func (attach_db p.is_sqlite conn h) w)

    -- async with bh.db_pools.main_db_pool as (db_conn, db_cur)
    unfoldable pub inside_db : Action Conn Cache S E R → Action Conn Cache S E R
    unfolding on_db
    inside_db func h w = on_db func h (p.enter_db w)

    unfoldable pub after_cache :
        Outcome E R × Handler Conn Cache × World S → Outcome E R × Handler Conn Cache × World S
    after_cache (o, h, w) = (o, record h { redis_con = none }, p.leave_cache w)

    unfoldable pub on_cache :
        Action Conn Cache S E R
        → Handler Conn Cache
        → Entered E Cache × World S
        → Outcome E R × Handler Conn Cache × World S
    unfolding after_cache
    on_cache func h (refused e, w) = (failed (raised_by e), h, w)
    on_cache func h (entered none, w) = (failed (http 5000 400), h, p.leave_cache w)
    on_cache func h (entered (some cache), w) =
        after_cache (func (record h { redis_con = some cache }) w)

    -- `_cache_pool`, then async with
    unfoldable pub inside_cache : Action Conn Cache S E R → Action Conn Cache S E R
    unfolding on_cache
    inside_cache func h w =
        if p.has_cache then on_cache func h (p.enter_cache w) else (failed (http 5000 400), h, w)

    unfoldable pub with_db : Action Conn Cache S E R → Action Conn Cache S E R
    unfolding linked inside_db
    with_db func = linked (inside_db func)

    unfoldable pub with_cache : Action Conn Cache S E R → Action Conn Cache S E R
    unfolding linked inside_cache
    with_cache func = linked (inside_cache func)

    unfoldable pub with_cache_and_db : Action Conn Cache S E R → Action Conn Cache S E R
    unfolding linked inside_cache inside_db
    with_cache_and_db func = linked (inside_cache (inside_db func))

    unfoldable pub end_transaction :
        Conn
        → Outcome E R × Handler Conn Cache × World S
        → Outcome E R × Handler Conn Cache × World S
    end_transaction conn (returned r, h, w) = (returned r, h, p.commit conn w)
    end_transaction conn (failed e, h, w) = (failed e, h, p.rollback conn w)

    unfoldable pub in_transaction : Option Conn → Action Conn Cache S E R → Action Conn Cache S E R
    unfolding end_transaction
    in_transaction none func h w = (failed (http 5000 400), h, w)
    in_transaction (some conn) func h w = end_transaction conn (func h (p.begin conn w))

    unfoldable pub with_tx : Action Conn Cache S E R → Action Conn Cache S E R
    unfolding in_transaction transaction_conn
    with_tx func h w = in_transaction (transaction_conn h) func h w

  -- if not attempt.allowed: raise
  unfoldable pub on_hit :
      Action Conn Cache S E R
      → Handler Conn Cache
      → Throttled
      → World S
      → Outcome E R × Handler Conn Cache × World S
  on_hit func h (attempted a) w = if a.allowed then func h w else (failed (http 4029 429), h, w)
  on_hit func h bad_limit w = (failed value_error, h, w)
  on_hit func h unavailable w = (failed redis_error, h, w)

  -- the attempt counted under the key, and then what it says
  unfoldable pub count_under :
      String → Throttled × Counter → Action Conn Cache S E R → Action Conn Cache S E R
  unfolding on_hit set_counter
  count_under key (answer, c) func h w = on_hit func h answer (set_counter key c w)

  unfoldable pub on_redis : Option Cache → Action Conn Cache S E R → Action Conn Cache S E R
  on_redis none func h w = (failed runtime_error, h, w)
  on_redis (some cache) func h w = func h w

  -- `decimal` writes an id; `fail_open` is the configuration's, `reachable` says whether the call of
  -- Redis returns, and `now` is the second.
  unfoldable pub rate_limit :
      (ℕ → String)
      → Bool
      → Bool
      → ℕ
      → String
      → String
      → ℤ
      → ℤ
      → Action Conn Cache S E R
      → Action Conn Cache S E R
  unfolding on_redis count_under rate_key identity hit
  rate_limit decimal fail_open reachable now scope action_name max_requests window func h w =
      let key = rate_key scope action_name (identity decimal h.bridge_handler) in
      on_redis h.redis_con
        (count_under key (hit fail_open reachable max_requests window now (w.counters key)) func) h
        w

  -- @action, whose wrapper calls the function
  unfoldable pub action : String → Method Conn Cache S E R → Method Conn Cache S E R
  action name m = record m { action_name = some name }

  -- @authenticated with the mark that it leaves
  unfoldable pub marked : Method Conn Cache S E R → Method Conn Cache S E R
  unfolding authenticated
  marked m = record m { auth_wrapped = true; func = authenticated m.func }

  -- @wraps(func) of any other decorator: the names and marks of the function are copied
  unfoldable pub wrapped :
      (Action Conn Cache S E R → Action Conn Cache S E R)
      → Method Conn Cache S E R
      → Method Conn Cache S E R
  wrapped decorator m = record m { func = decorator m.func }

  unfoldable pub guard_named : Option String → Method Conn Cache S E R → Method Conn Cache S E R
  unfolding authenticated
  guard_named none m = m
  guard_named (some name) m =
      if m.auth_wrapped then m else record m { auth_wrapped = true; func = authenticated m.func }

  unfoldable pub guard_method : Method Conn Cache S E R → Method Conn Cache S E R
  unfolding guard_named
  guard_method m = guard_named m.action_name m

  -- `_guard_actions` over the methods of a class, the inherited ones included
  unfoldable pub guard_actions : List (Method Conn Cache S E R) → List (Method Conn Cache S E R)
  unfolding guard_method
  guard_actions methods = map guard_method methods
