-- ===== src/Wbcm/Tests.antt =====
-- The fan-out on concrete connections: two phones of ann, and one whose loop is closed.
use py_app_runner.Prelude.{
  ℕ, String, ◌≡◌, refl, ◌≢◌, Bool, true, not, Option, none, some, [], ◌∷◌, str_eq, str_eq-apart,
  All,
}
use py_app_runner.Wbcm.Connections.{
  Conn, Connections, holds_id, ids_of, assign_id, enlist, unassign, remove_id, unless_empty,
  is_kept, get_connections, live, unless_gone, remove_connection, unassign_connection,
}
use py_app_runner.Wbcm.Messages.{written, write_all, send_message, removed_or_raised}
use py_app_runner.Wbcm.Stream.{RedisMessage, null, Manager, process_messages}
use py_app_runner.Wbcm.Tidy.{NoRepeats, OnlyUnder, Absent}
use py_app_runner.Wbcm.Owners.{assign_id-OnlyUnder, remove_connection-Absent}
use py_app_runner.Wbcm.Delivery.{Delivers, send_message-Delivers, process_messages-position}

abbrev conn_of : String → Conn
conn_of uid = record { uid = uid; current_session_sid = none }

abbrev open_loop : Conn → Bool
open_loop conn = not (str_eq conn.uid "gone")

abbrev phones : Connections
phones = record {
  connections = conn_of "p1" ∷ conn_of "p2" ∷ conn_of "gone" ∷ [];
  id_map = record { owner = "ann"; conn_ids = "p1" ∷ "p2" ∷ "gone" ∷ [] } ∷ [];
}

-- a connection that signs in as bob leaves the list of ann
reassigned :
    (assign_id "p2" "bob" phones).id_map
    ≡ record { owner = "ann"; conn_ids = "p1" ∷ "gone" ∷ [] }
      ∷ record { owner = "bob"; conn_ids = "p2" ∷ [] }
      ∷ []
unfolding assign_id enlist unassign remove_id unless_empty is_kept holds_id
reassigned = refl

sent : (send_message {Message = ℕ} open_loop "ann" 5 "p1" phones).effects ≡ written "p2" 5 ∷ []
unfolding send_message write_all removed_or_raised remove_connection unassign_connection
    get_connections live unless_gone ids_of
sent = refl

p1_p2 : All (λ (x : String). "p1" ≢ x) ("p2" ∷ "gone" ∷ [])
p1_p2 = (str_eq-apart "p1" "p2" refl, (str_eq-apart "p1" "gone" refl, tt))

p2_gone : All (λ (x : String). "p2" ≢ x) ("gone" ∷ [])
p2_gone = (str_eq-apart "p2" "gone" refl, tt)

phones-NoRepeats : All NoRepeats phones.id_map
phones-NoRepeats = ((p1_p2, (p2_gone, (tt, tt))), tt)

assign_id-OnlyUnder_example :
    All NoRepeats (assign_id "p2" "bob" phones).id_map
    × All (OnlyUnder "p2" "bob") (assign_id "p2" "bob" phones).id_map
    × (holds_id "p2" (ids_of "bob" (assign_id "p2" "bob" phones).id_map) ≡ true)
assign_id-OnlyUnder_example = assign_id-OnlyUnder "p2" "bob" phones phones-NoRepeats

abbrev left_phones : Connections
left_phones = record {
  connections = conn_of "p1" ∷ conn_of "p2" ∷ [];
  id_map = record { owner = "ann"; conn_ids = "p1" ∷ "p2" ∷ [] } ∷ [];
}

gone_removed : remove_connection (conn_of "gone") phones ≡ some left_phones
unfolding remove_connection unassign_connection unassign remove_id unless_empty is_kept holds_id
gone_removed = refl

remove_connection-Absent_example :
    All NoRepeats left_phones.id_map
    × All (Absent "gone") left_phones.id_map
    × All (λ o. o.uid ≢ "gone") left_phones.connections
remove_connection-Absent_example =
    remove_connection-Absent (conn_of "gone") phones left_phones phones-NoRepeats gone_removed

named_conns : All (λ conn. conn.uid ≢ "") (get_connections "ann" phones)
unfolding get_connections live unless_gone ids_of
named_conns = (λ e. absurd (cc e), (λ e. absurd (cc e), (λ e. absurd (cc e), tt)))

send_message-Delivers_example :
    Delivers {Message = ℕ} open_loop "p1" 5
      (get_connections "ann" phones)
      (send_message open_loop "ann" 5 "p1" phones)
send_message-Delivers_example =
    send_message-Delivers {Message = ℕ} open_loop "p1" 5 "ann" phones named_conns

abbrev note : RedisMessage ℕ
note = record {
  service = some "s";
  type_name = some "note";
  payload = some null;
  source_uid = some "p1";
  user_id = none;
  target_sid = none;
  target_type = "";
  target_id = "";
}

abbrev decode : String → Option ℕ
decode t = none

abbrev manager : Manager decode open_loop
manager = record { users = phones; devices = phones; stream_last_id = "$" }

process_messages-position_example :
    (process_messages decode open_loop
      (("1-0", note) ∷ ("2-0", note) ∷ [])
      manager).0.stream_last_id
    ≡ "2-0"
process_messages-position_example =
    process_messages-position decode open_loop (("1-0", note) ∷ []) "2-0" note manager
