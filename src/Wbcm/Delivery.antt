-- ===== src/Wbcm/Delivery.antt =====
-- The fan-out of a message, and the position in the stream.
use py_app_runner.Prelude.{
  String, ◌≡◌, refl, ap, ◌≢◌, inl, inr, Bool, true, not, ◌&&◌, Option, List, [], ◌∷◌, ◌++◌, map,
  str_eq, str_eq-false, Bool-cases, filter, All,
}
use py_app_runner.Wbcm.Connections.{Conn, Connections, get_connections, remove_connection}
use py_app_runner.Wbcm.Messages.{
  Effect, written, Fanned, write_all, send_message, removed_or_raised,
}
use py_app_runner.Wbcm.Stream.{RedisMessage, Manager, process_messages}

module _ {Message : Type 0} (accepts : Conn → Bool) (source_uid : String) (message : Message) where
  -- The connections that a message is to reach: not its source, and with a loop that takes the call.
  pub reaches : Conn → Bool
  reaches conn = not (str_eq conn.uid source_uid) && accepts conn

  abbrev pub to_conn : Conn → Effect Message
  to_conn conn = written conn.uid message

  pub Delivers : List Conn → Fanned Message → Type 0
  Delivers conns f = (f.returned ≡ true) × (f.effects ≡ map to_conn (filter reaches conns))

  write_all-Delivers :
      (conns : List Conn) (c : Connections)
      → All (λ conn. conn.uid ≢ "") conns
      → Delivers conns (write_all accepts source_uid message conns c)
  unfolding write_all reaches Delivers removed_or_raised remove_connection
  write_all-Delivers [] c h = (refl, refl)
  write_all-Delivers (conn ∷ conns) c h = elim (Bool-cases (str_eq conn.uid source_uid)) [
    | inl q ↦ rw q (write_all-Delivers conns c h.1)
    | inr q ↦ elim (Bool-cases (accepts conn)) [
      | inl r ↦
          let ih = write_all-Delivers conns c h.1 in
          rw (q, r) (ih.0, ap (λ es. to_conn conn ∷ es) ih.1)
      | inr r ↦ rw (q, r, str_eq-false conn.uid "" h.0) (write_all-Delivers conns _ h.1)
    ]
  ]

  -- Where every connection has an id, sending to an owner returns, and what it schedules is the
  -- message, written once to each of the owner's live connections in their order, but not to its
  -- source nor to a connection whose loop does not take the call.
  pub send_message-Delivers :
      (owner : String) (c : Connections)
      → All (λ conn. conn.uid ≢ "") (get_connections owner c)
      → Delivers (get_connections owner c) (send_message accepts owner message source_uid c)
  unfolding send_message
  send_message-Delivers owner c h = write_all-Delivers (get_connections owner c) c h

module _ {Json : Type 0} (json_decode : String → Option Json) (accepts : Conn → Bool) where
  -- The stream position after a batch is the id of its last message, whatever its messages were and
  -- whether or not handling them raised, so no batch is read again.
  pub process_messages-position :
      (batch : List (String × RedisMessage Json)) (id : String) (message : RedisMessage Json)
      (m : Manager json_decode accepts)
      → (process_messages json_decode accepts (batch ++ (id, message) ∷ []) m).0.stream_last_id ≡ id
  unfolding process_messages
  process_messages-position [] id message m = refl
  process_messages-position ((_, _) ∷ batch) id message m =
      process_messages-position batch id message _
