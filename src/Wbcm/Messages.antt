-- ===== src/Wbcm/Messages.antt =====
-- `send_message`, `send_message_to_device`, `send_message_to_all` and `close_sessions` of
-- wb_connection_manager.py.
use py_app_runner.Prelude.{
  String, Bool, true, false, not, ◌||◌, Option, none, some, List, [], ◌∷◌, ◌++◌, str_eq,
  if◌then◌else◌,
}
use py_app_runner.Wbcm.Connections.{Conn, Connections, get_connections, remove_connection, reset}

-- What is scheduled on the loop of a connection.
pub data Effect (Message : Type 0) : Type 0 where
  written : String → Message → Effect Message
  closed : String → Effect Message

-- How a loop over connections ends: whether it returned, the connections, and what it scheduled.
pub record Fanned (Message : Type 0) : Type 0 where
  pub returned : Bool
  pub connections : Connections
  pub effects : List (Effect Message)

-- `conn.current_session_sid != target_sid`, where a target is given
unfoldable pub is_other_session : Option String → Conn → Bool
is_other_session none conn = false
is_other_session (some sid) conn = elim conn.current_session_sid [
  | none ↦ true
  | some current ↦ not (str_eq current sid)
]

module _ {Message : Type 0} (accepts : Conn → Bool) where
  abbrev with_effect : Effect Message → Fanned Message → Fanned Message
  with_effect e f = record f { effects = e ∷ f.effects }

  -- where the connection has been removed, or its assertion raised
  unfoldable pub removed_or_raised :
      Connections → Option Connections → (Connections → Fanned Message) → Fanned Message
  removed_or_raised c none next = record { returned = false; connections = c; effects = [] }
  removed_or_raised c (some c') next = next c'

  -- `call_soon_threadsafe(write_custom_message, ...)` over the connections, where a connection whose
  -- loop does not accept the call is removed
  unfoldable pub write_all : String → Message → List Conn → Connections → Fanned Message
  write_all source_uid message [] c = record { returned = true; connections = c; effects = [] }
  write_all source_uid message (conn ∷ conns) c =
      let next = write_all source_uid message conns in
      if str_eq conn.uid source_uid
      then next c
      else if accepts conn
      then with_effect (written conn.uid message) (next c)
      else removed_or_raised c (remove_connection conn c) next

  -- `send_message` with the users' connections, `send_message_to_device` with the devices'
  unfoldable pub send_message : String → Message → String → Connections → Fanned Message
  send_message owner message source_uid c = write_all source_uid message (get_connections owner c) c

  unfoldable pub send_message_to_all : Message → String → Connections → Fanned Message
  send_message_to_all message source_uid c = write_all source_uid message c.connections c

  unfoldable pub close_all : String → Option String → List Conn → List (Effect Message)
  close_all source_uid target_sid [] = []
  close_all source_uid target_sid (conn ∷ conns) =
      let rest = close_all source_uid target_sid conns in
      if str_eq conn.uid source_uid || is_other_session target_sid conn || not (accepts conn)
      then rest
      else closed conn.uid ∷ rest

  unfoldable pub close_sessions :
      String → String → Option String → Connections → List (Effect Message)
  close_sessions user_id source_uid target_sid c =
      close_all source_uid target_sid (get_connections user_id c)

  -- `shutdown`: every connection closed, users first, and both kinds forgotten
  unfoldable pub close_every : List Conn → List (Effect Message)
  close_every [] = []
  close_every (conn ∷ conns) =
      let rest = close_every conns in if accepts conn then closed conn.uid ∷ rest else rest

  unfoldable pub shutdown :
      Connections → Connections → Connections × Connections × List (Effect Message)
  shutdown users devices =
      (reset users, reset devices, close_every users.connections ++ close_every devices.connections)
