-- ===== src/Wbcm/Stream.antt =====
-- `work` and `process_messages` of wb_connection_manager.py.
use py_app_runner.Prelude.{
  String, Bool, Option, none, some, List, [], ◌∷◌, ◌++◌, str_eq, if◌then◌else◌,
}
use py_app_runner.Wbcm.Connections.{Conn, Connections}
use py_app_runner.Wbcm.Messages.{Effect, Fanned, send_message, send_message_to_all, close_sessions}

-- The value of the field `data`, which is `payload` below: null, a text, or what is no text.
pub data Data (Json : Type 0) : Type 0 where
  null : Data Json
  text : String → Data Json
  value : Json → Data Json

-- A message of the stream, with none for a field that is absent. `user_id` may be present and null.
pub record RedisMessage (Json : Type 0) : Type 0 where
  pub service : Option String
  pub type_name : Option String
  pub payload : Option (Data Json)
  pub source_uid : Option String
  pub user_id : Option (Option String)
  pub target_sid : Option String
  pub target_type : String
  pub target_id : String

-- What a call of `work` leaves: the connections and the effects, and whether it returned True,
-- returned False or raised.
pub data Verdict : Type 0 where
  handled dropped raised : Verdict

pub record Worked (Json : Type 0) : Type 0 where
  pub verdict : Verdict
  pub users : Connections
  pub devices : Connections
  pub effects : List (Effect (RedisMessage Json))

module _ {Json : Type 0} (json_decode : String → Option Json) (accepts : Conn → Bool) where
  abbrev drop : Connections → Connections → Worked Json
  drop users devices = record { verdict = dropped; users = users; devices = devices; effects = [] }

  abbrev verdict_of : Bool → Verdict
  verdict_of returned = if returned then handled else raised

  unfoldable pub to_users : Connections → Fanned (RedisMessage Json) → Worked Json
  to_users devices f = record {
    verdict = verdict_of f.returned;
    users = f.connections;
    devices = devices;
    effects = f.effects;
  }

  unfoldable pub to_devices : Connections → Fanned (RedisMessage Json) → Worked Json
  to_devices users f = record {
    verdict = verdict_of f.returned;
    users = users;
    devices = f.connections;
    effects = f.effects;
  }

  -- the payload as it is forwarded; none where a text is no JSON
  unfoldable pub decoded : Data Json → Option (Data Json)
  decoded null = some null
  decoded (value v) = some (value v)
  decoded (text t) = elim (json_decode t) [ none ↦ none | some v ↦ some (value v) ]

  -- `target_sid or None`
  unfoldable pub non_empty : Option String → Option String
  non_empty none = none
  non_empty (some sid) = if str_eq sid "" then none else some sid

  unfoldable pub revoke :
      RedisMessage Json → String → Option (Option String) → Connections → Connections → Worked Json
  revoke message source_uid (some (some user_id)) users devices = record {
    verdict = handled;
    users = users;
    devices = devices;
    effects = close_sessions accepts user_id source_uid (non_empty message.target_sid) users;
  }
  revoke message source_uid _ users devices = drop users devices

  unfoldable pub relay : RedisMessage Json → String → Connections → Connections → Worked Json
  relay message source_uid users devices =
      if str_eq message.target_type "device"
      then to_devices users (send_message accepts message.target_id message source_uid devices)
      else if str_eq message.target_type "user"
      then to_users devices (send_message accepts message.target_id message source_uid users)
      else drop users devices

  unfoldable pub by_user :
      RedisMessage Json → String → Option (Option String) → Connections → Connections → Worked Json
  by_user message source_uid none users devices = drop users devices
  by_user message source_uid (some none) users devices =
      to_users devices (send_message_to_all accepts message source_uid users)
  by_user message source_uid (some (some user_id)) users devices =
      to_users devices (send_message accepts user_id message source_uid users)

  -- the routes, where the message is complete and its payload decoded
  unfoldable pub route :
      RedisMessage Json → String → String → Connections → Connections → Worked Json
  route message type_name source_uid users devices =
      if str_eq type_name "session_revoked"
      then revoke message source_uid message.user_id users devices
      else if str_eq type_name "session_relay"
      then relay message source_uid users devices
      else by_user message source_uid message.user_id users devices

  unfoldable pub with_data :
      RedisMessage Json
      → String
      → String
      → Option (Data Json)
      → Connections
      → Connections
      → Worked Json
  with_data message type_name source_uid none users devices = drop users devices
  with_data message type_name source_uid (some payload) users devices =
      route (record message { payload = some payload }) type_name source_uid users devices

  unfoldable pub complete :
      RedisMessage Json
      → Option String
      → Option String
      → Option (Data Json)
      → Option String
      → Connections
      → Connections
      → Worked Json
  complete message (some service) (some type_name) (some payload) (some source_uid) users devices =
      with_data message type_name source_uid (decoded payload) users devices
  complete message _ _ _ _ users devices = drop users devices

  unfoldable pub work : RedisMessage Json → Connections → Connections → Worked Json
  work message users devices =
      complete message message.service message.type_name message.payload message.source_uid users
        devices

  -- The manager between ticks.
  pub record Manager : Type 0 where
    pub users : Connections
    pub devices : Connections
    pub stream_last_id : String

  -- `process_messages` over the records of one read: the position moves past every message, whatever
  -- became of it
  unfoldable pub process_messages :
      List (String × RedisMessage Json) → Manager → Manager × List (Effect (RedisMessage Json))
  process_messages [] m = (m, [])
  process_messages ((message_id, message) ∷ messages) m =
      let w = work message m.users m.devices in
      let (m', effects) =
        process_messages messages
          (record { users = w.users; devices = w.devices; stream_last_id = message_id }) in
      (m', w.effects ++ effects)
