-- ===== src/Requests/ActionTests.antt =====
-- The decorators around a small action, and the theorems at it.
use py_app_runner.Prelude.{
  ℕ, suc, ◌+◌, ◌-◌, min, String, ◌≡◌, refl, ap, subst, true, false, none, some, List, [], ◌∷◌,
  arith, length, All,
}
use py_app_runner.Throttle.Window.{absent}
use py_app_runner.Requests.Decorators.{
  Handler, World, http, failed, returned, entered, action, marked, Pools, Action, with_cache_and_db,
  Method, guard_actions,
}
use py_app_runner.Requests.Borrowed.{IsClean, Borrowed, IsPools, with_cache_and_db-IsClean}
use py_app_runner.Requests.Guarded.{
  IsGuarded, plain, with_action, with_mark, guard_actions-IsGuarded,
}
use py_app_runner.Requests.Audited.{
  sanitize_input, event_of, audited, IsMasked, audited-outcome, IsAudited, Sink, passed, excepted,
  after_action, recorded, caught, to_sink, call_sink, read_bridge,
}
use py_app_runner.Requests.RateLimited.{IsCounting, requests_at, requests_at-limit}

-- The connections in use, and the runs of the action.
record Toy : Type 0 where
  db : ℕ
  cache : ℕ
  ran : ℕ

abbrev pools : Pools String String Toy String
pools = record {
  enter_db =
      λ w. (entered (some "conn"), record w { state = record w.state { db = w.state.db + 1 } });
  leave_db = λ w. record w { state = record w.state { db = w.state.db - 1 } };
  has_cache = true;
  enter_cache = λ w.
      (entered (some "cache"), record w { state = record w.state { cache = w.state.cache + 1 } });
  leave_cache = λ w. record w { state = record w.state { cache = w.state.cache - 1 } };
  is_sqlite = λ conn. false;
  begin = λ conn w. w;
  commit = λ conn w. w;
  rollback = λ conn w. w;
}

abbrev in_use : Borrowed Toy
in_use = record { db = λ w. w.state.db; cache = λ w. w.state.cache }

pools-IsPools : IsPools pools in_use
pools-IsPools = record {
  db_entered = λ w w' o q.
      subst (λ (t : World Toy). (t.state.db ≡ w.state.db + 1) × (t.state.cache ≡ w.state.cache))
        (ap (λ x. x.1) q) (refl, refl);
  db_refused = λ w w' e q. absurd (cc (ap (λ x. x.0) q));
  db_left = λ w. (refl, refl);
  cache_entered = λ w w' o q.
      subst (λ (t : World Toy). (t.state.cache ≡ w.state.cache + 1) × (t.state.db ≡ w.state.db))
        (ap (λ x. x.1) q) (refl, refl);
  cache_refused = λ w w' e q. absurd (cc (ap (λ x. x.0) q));
  cache_left = λ w. (refl, refl);
}

abbrev visitor : Handler String String
visitor = record {
  bridge_handler = some (record { current_user = none; client_ip = "1.2.3.4" });
  db_conn = none;
  pg_conn = none;
  db_wrapper = none;
  redis_con = none;
}

abbrev idle_world : World Toy
idle_world = record { counters = λ key. absent; state = record { db = 0; cache = 0; ran = 0 } }

-- counts its run, and raises
abbrev raising : Action String String Toy String ℕ
raising h w =
    (failed (http 1 400), h, record w { state = record w.state { ran = w.state.ran + 1 } })

with_cache_and_db-IsClean_example :
    (in_use.db (with_cache_and_db pools raising visitor idle_world).2 ≡ 0)
    × (in_use.cache (with_cache_and_db pools raising visitor idle_world).2 ≡ 0)
    × IsClean (with_cache_and_db pools raising visitor idle_world).1
with_cache_and_db-IsClean_example =
    with_cache_and_db-IsClean pools in_use raising visitor idle_world pools-IsPools
      (λ h w. (refl, refl)) (refl, refl, refl, refl)

abbrev undecorated : Method String String Toy String ℕ
undecorated = record { name = "show"; action_name = none; auth_wrapped = false; func = raising }

abbrev methods : List (Method String String Toy String ℕ)
methods = action "show" (marked undecorated) ∷ action "edit" undecorated ∷ undecorated ∷ []

guard_actions-IsGuarded_example :
    All
      (λ (m : Method String String Toy String ℕ).
        (name : String) → m.action_name ≡ some name → IsGuarded m.func)
      (guard_actions methods)
guard_actions-IsGuarded_example = guard_actions-IsGuarded methods (
  with_action "show" (with_mark (plain "show" raising)),
  (with_action "edit" (plain "show" raising), (plain "show" raising, tt)),
)

raising-IsCounting : IsCounting (λ (t : Toy). t.ran) raising
raising-IsCounting = record { keeps = λ h w. refl; counts = λ h w. refl }

abbrev cached_visitor : Handler String String
cached_visitor = record visitor { redis_con = some "cache" }

-- Three requests in one window of a limit of two.
requests_at-limit_example :
    (requests_at
      (λ n. "n")
      "Login"
      "sign_in"
      1
      59
      raising
      cached_visitor
      (10 ∷ 11 ∷ 12 ∷ [])
      idle_world).state.ran
    ≡ 0 + min (suc (length {A = ℕ} (11 ∷ 12 ∷ []))) (suc 1)
requests_at-limit_example =
    requests_at-limit (λ n. "n") "Login" "sign_in" 1 59 (λ (t : Toy). t.ran) raising
      raising-IsCounting cached_visitor "cache" refl 10 (11 ∷ 12 ∷ []) idle_world refl (omega arith)

abbrev password : List (String × String)
password = ("name", "anna") ∷ ("password", "secret") ∷ []

sanitized :
    sanitize_input "***" ("password" ∷ []) (some password)
    ≡ ("name", "anna") ∷ ("password", "***") ∷ []
unfolding sanitize_input
sanitized = refl

-- a sink that writes and then raises
abbrev breaking : Sink String Toy String String
breaking conn event w = (excepted "full", record w { state = record w.state { ran = 9 } })

abbrev answering : Action String String Toy String ℕ
answering h w = (returned 7, record h { db_wrapper = some "conn" }, w)

still_answers :
    (audited "***"
      ("password" ∷ [])
      "login"
      (λ b. passed)
      (some breaking)
      (some password)
      answering
      visitor
      idle_world).0
    ≡ returned 7
unfolding audited after_action recorded caught to_sink call_sink read_bridge
still_answers = refl

audited-outcome_example :
    IsAudited "***"
      ("password" ∷ [])
      "login"
      (λ b. passed)
      (some breaking)
      (some password)
      (answering visitor idle_world)
      (audited "***"
        ("password" ∷ [])
        "login"
        (λ b. passed)
        (some breaking)
        (some password)
        answering
        visitor
        idle_world)
    × All
        (IsMasked "***" ("password" ∷ []))
        (event_of "***" ("password" ∷ []) "login" (some password) visitor).details
audited-outcome_example =
    audited-outcome "***" ("password" ∷ []) "login" (λ b. passed) (some breaking) (some password)
      answering visitor idle_world
