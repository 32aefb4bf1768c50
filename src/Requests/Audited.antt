-- ===== src/Requests/Audited.antt =====
-- @audited of request_handler/decorators.py, with `_sanitize_input`.
use py_app_runner.Prelude.{
  ℕ, String, ◌≡◌, refl, ◌⊎◌, inl, inr, true, Option, none, some, List, [], ◌∷◌, map, str_eq,
  if◌then◌else◌, any, All,
}
use py_app_runner.Requests.Decorators.{
  Handler, Bridge, World, Failure, raised_by, Outcome, returned, failed, Action,
}

-- What a sink is called with.
pub record Event (V : Type 0) : Type 0 where
  pub event_type : String
  pub user_id : Option ℕ
  pub details : List (String × V)
  pub ip : Option String

-- `_sanitize_input`; the input is none where it is no dict
unfoldable pub sanitize_input :
    {V : Type 0} → V → List String → Option (List (String × V)) → List (String × V)
sanitize_input hidden sensitive none = []
sanitize_input hidden sensitive (some input) =
    map (λ (k, v). (k, if any (str_eq k) sensitive then hidden else v)) input

unfoldable pub user_id_of : Option Bridge → Option ℕ
user_id_of none = none
user_id_of (some bridge) = elim bridge.current_user [ none ↦ none | some user ↦ user.id ]

unfoldable pub ip_of : Option Bridge → Option String
ip_of none = none
ip_of (some bridge) = some bridge.client_ip

-- How a call inside the try ends: it returns, raises an Exception, or is cancelled.
pub data Ended (E : Type 0) : Type 0 where
  passed : Ended E
  excepted cancelled : E → Ended E

abbrev pub Sink : Type 0 → Type 0 → Type 0 → Type 0 → Type 0
Sink Conn S E V = Conn → Event V → World S → Ended E × World S

-- the calls of client_ip and of the headers; none without a bridge handler
unfoldable pub read_bridge : {E : Type 0} → (Bridge → Ended E) → Option Bridge → Ended E
read_bridge reads none = passed
read_bridge reads (some bridge) = reads bridge

unfoldable pub call_sink :
    {Conn S E V : Type 0} → Sink Conn S E V → Conn → Event V → World S → Ended E → Ended E × World S
call_sink sink conn event w passed = sink conn event w
call_sink sink conn event w (excepted e) = (excepted e, w)
call_sink sink conn event w (cancelled e) = (cancelled e, w)

-- The body of the try, with how the calls of the bridge end; without a sink the event is logged.
unfoldable pub to_sink :
    {Conn S E V : Type 0}
    → Option (Sink Conn S E V)
    → Option Conn
    → Ended E
    → Event V
    → World S
    → Ended E × World S
unfolding call_sink
to_sink none conn read event w = (read, w)
to_sink (some sink) none read event w = (passed, w)
to_sink (some sink) (some conn) read event w = call_sink sink conn event w read

module _ {V : Type 0} (hidden : V) (sensitive : List String) where
  unfoldable pub event_of :
      {Conn Cache : Type 0} → String → Option (List (String × V)) → Handler Conn Cache → Event V
  unfolding sanitize_input user_id_of ip_of
  event_of event_type input h = record {
    event_type = event_type;
    user_id = user_id_of h.bridge_handler;
    details = sanitize_input hidden sensitive input;
    ip = ip_of h.bridge_handler;
  }

  -- A field that is sensitive holds the mark and nothing else.
  abbrev pub IsMasked : String × V → Type 0
  IsMasked (k, v) = any (str_eq k) sensitive ≡ true → v ≡ hidden

  sanitize_input-IsMasked :
      (input : Option (List (String × V))) → All IsMasked (sanitize_input hidden sensitive input)
  unfolding sanitize_input
  sanitize_input-IsMasked none = tt
  sanitize_input-IsMasked (some input) = masked input
    where
      masked :
          (fields : List (String × V))
          → All IsMasked
              (map (λ (k, v). (k, if any (str_eq k) sensitive then hidden else v)) fields)
      masked [] = tt
      masked ((k, v) ∷ fields) = ((λ e. rw e refl), masked fields)

module _ {Conn Cache S E V : Type 0} (hidden : V) (sensitive : List String) (event_type : String)
    (reads : Bridge → Ended E) where
  unfoldable pub recorded :
      Option (Sink Conn S E V)
      → Option (List (String × V))
      → Handler Conn Cache
      → World S
      → Ended E × World S
  unfolding event_of to_sink read_bridge
  recorded sink input h w =
      to_sink sink h.db_wrapper (read_bridge reads h.bridge_handler)
        (event_of hidden sensitive event_type input h) w

module _ {Conn Cache S E R V : Type 0} (hidden : V) (sensitive : List String) (event_type : String)
    (reads : Bridge → Ended E) where
  -- except Exception
  unfoldable pub caught :
      R → Handler Conn Cache → Ended E × World S → Outcome E R × Handler Conn Cache × World S
  caught r h (passed, w) = (returned r, h, w)
  caught r h (excepted e, w) = (returned r, h, w)
  caught r h (cancelled e, w) = (failed (raised_by e), h, w)

  unfoldable pub after_action :
      Option (Sink Conn S E V)
      → Option (List (String × V))
      → Outcome E R × Handler Conn Cache × World S
      → Outcome E R × Handler Conn Cache × World S
  unfolding recorded caught
  after_action sink input (failed e, h, w) = (failed e, h, w)
  after_action sink input (returned r, h, w) =
      caught r h (recorded hidden sensitive event_type reads sink input h w)

  unfoldable pub audited :
      Option (Sink Conn S E V)
      → Option (List (String × V))
      → Action Conn Cache S E R
      → Action Conn Cache S E R
  unfolding after_action
  audited sink input func h w = after_action sink input (func h w)

  -- What @audited makes of the end of an action: nothing where it raised; its answer with the world that
  -- the recording leaves, where that returns or raises; the cancellation where that is cancelled.
  pub data IsAudited (sink : Option (Sink Conn S E V)) (input : Option (List (String × V)))
      : Outcome E R × Handler Conn Cache × World S
        → Outcome E R × Handler Conn Cache × World S
        → Type 0 where
    raised :
        {e : Failure E} {h : Handler Conn Cache} {w : World S}
        → IsAudited sink input (failed e, h, w) (failed e, h, w)
    answered :
        {r : R} {h : Handler Conn Cache} {w w' : World S} {ended : Ended E}
        → recorded hidden sensitive event_type reads sink input h w ≡ (ended, w')
        → (ended ≡ passed) ⊎ ((e : E) × (ended ≡ excepted e))
        → IsAudited sink input (returned r, h, w) (returned r, h, w')
    interrupted :
        {r : R} {h : Handler Conn Cache} {w w' : World S} {e : E}
        → recorded hidden sensitive event_type reads sink input h w ≡ (cancelled e, w')
        → IsAudited sink input (returned r, h, w) (failed (raised_by e), h, w')

  caught-IsAudited :
      (sink : Option (Sink Conn S E V)) (input : Option (List (String × V))) (r : R)
      (h : Handler Conn Cache) (w : World S) (o : Ended E × World S)
      → recorded hidden sensitive event_type reads sink input h w ≡ o
      → IsAudited sink input (returned r, h, w) (caught r h o)
  unfolding caught
  caught-IsAudited sink input r h w (passed, w') e = answered e (inl refl)
  caught-IsAudited sink input r h w (excepted x, w') e = answered e (inr (x, refl))
  caught-IsAudited sink input r h w (cancelled x, w') e = interrupted e

  after_action-IsAudited :
      (sink : Option (Sink Conn S E V)) (input : Option (List (String × V)))
      (x : Outcome E R × Handler Conn Cache × World S)
      → IsAudited sink input x (after_action sink input x)
  unfolding after_action
  after_action-IsAudited sink input (failed e, h, w) = raised
  after_action-IsAudited sink input (returned r, h, w) =
      caught-IsAudited sink input r h w (recorded hidden sensitive event_type reads sink input h w)
        refl

  -- @audited leaves an action that raises as it is, with nothing recorded. After an action that returns,
  -- its answer and its handler stand, also where the sink or the reading of the request raises an
  -- Exception; only a cancellation of the recording leaves instead. The details of the event hold the
  -- mark in place of every sensitive field of the input's top level.
  pub audited-outcome :
      (sink : Option (Sink Conn S E V)) (input : Option (List (String × V)))
      (func : Action Conn Cache S E R) (h : Handler Conn Cache) (w : World S)
      → IsAudited sink input (func h w) (audited sink input func h w)
        × All (IsMasked hidden sensitive) (event_of hidden sensitive event_type input h).details
  unfolding audited event_of
  audited-outcome sink input func h w =
      (after_action-IsAudited sink input (func h w), sanitize_input-IsMasked hidden sensitive input)
