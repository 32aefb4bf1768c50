-- ===== src/Wbcm/Connections.antt =====
-- `UserConnections` of factory.py and `DeviceConnections` of device_connections.py, which have the
-- same code: `owner` is the user or the device.
use py_app_runner.Prelude.{
  String, Bool, false, not, Option, none, some, List, [], ◌∷◌, ◌++◌, str_eq, if◌then◌else◌, filter,
  any, find,
}

-- A live socket, as far as the manager reads it.
pub record Conn : Type 0 where
  pub uid : String
  pub current_session_sid : Option String

-- One entry of `user_id_map` or `device_id_map`.
pub record Entry : Type 0 where
  pub owner : String
  pub conn_ids : List String

pub record Connections : Type 0 where
  pub connections : List Conn
  pub id_map : List Entry

abbrev pub empty : Connections
empty = record { connections = []; id_map = [] }

-- `conn_id in conn_ids`
unfoldable pub holds_id : String → List String → Bool
holds_id conn_id conn_ids = any (str_eq conn_id) conn_ids

-- self.user_connections[conn.uid] = conn
unfoldable pub put : Conn → List Conn → List Conn
put conn [] = conn ∷ []
put conn (other ∷ others) =
    let rest = put conn others in if str_eq other.uid conn.uid then conn ∷ others else other ∷ rest

-- none where the assertion on the uid fails
unfoldable pub add_connection : Conn → Connections → Option Connections
add_connection conn c =
    if str_eq conn.uid "" then none else some (record c { connections = put conn c.connections })

-- conn_ids.remove(conn_id)
unfoldable pub remove_id : String → List String → List String
remove_id conn_id [] = []
remove_id conn_id (other ∷ others) =
    let rest = remove_id conn_id others in if str_eq conn_id other then others else other ∷ rest

unfoldable pub is_kept : Option String → String → Bool
is_kept none owner = false
is_kept (some kept) owner = str_eq owner kept

-- an entry that lost an id, or no entry where that was its last
unfoldable pub unless_empty : String → List String → List Entry → List Entry
unless_empty owner [] rest = rest
unless_empty owner (conn_id ∷ conn_ids) rest =
    record { owner = owner; conn_ids = conn_id ∷ conn_ids } ∷ rest

unfoldable pub unassign : String → Option String → List Entry → List Entry
unassign conn_id keep [] = []
unassign conn_id keep (e ∷ entries) =
    let rest = unassign conn_id keep entries in
    if is_kept keep e.owner
    then e ∷ rest
    else if holds_id conn_id e.conn_ids
    then unless_empty e.owner (remove_id conn_id e.conn_ids) rest
    else e ∷ rest

unfoldable pub unassign_connection : String → Option String → Connections → Connections
unassign_connection conn_id keep c = record c { id_map = unassign conn_id keep c.id_map }

unfoldable pub remove_connection : Conn → Connections → Option Connections
remove_connection conn c =
    if str_eq conn.uid ""
    then none
    else some (
        unassign_connection conn.uid none
          (record c { connections = filter (λ o. not (str_eq o.uid conn.uid)) c.connections }))

-- the id added to the owner's list, and the list added where there is none
unfoldable pub enlist : String → String → List Entry → List Entry
enlist conn_id owner [] = record { owner = owner; conn_ids = conn_id ∷ [] } ∷ []
enlist conn_id owner (e ∷ entries) =
    let rest = enlist conn_id owner entries in
    if str_eq e.owner owner
    then if holds_id conn_id e.conn_ids
      then e ∷ entries
      else record e { conn_ids = e.conn_ids ++ conn_id ∷ [] } ∷ entries
    else e ∷ rest

-- `assign_user_id` and `assign_device_id`
unfoldable pub assign_id : String → String → Connections → Connections
assign_id conn_id owner c = record c {
  id_map = enlist conn_id owner (unassign conn_id (some owner) c.id_map);
}

-- `remove_user_id` and `remove_device_id`
unfoldable pub remove_owner : String → Connections → Connections
remove_owner owner c = record c { id_map = filter (λ e. not (str_eq e.owner owner)) c.id_map }

unfoldable pub reset : Connections → Connections
reset c = empty

unfoldable pub ids_of : String → List Entry → List String
ids_of owner [] = []
ids_of owner (e ∷ entries) =
    let rest = ids_of owner entries in if str_eq e.owner owner then e.conn_ids else rest

unfoldable pub unless_gone : Option Conn → List Conn → List Conn
unless_gone none rest = rest
unless_gone (some conn) rest = conn ∷ rest

-- the connections of the ids that are still connected
unfoldable pub live : List Conn → List String → List Conn
live conns [] = []
live conns (conn_id ∷ conn_ids) =
    unless_gone (find (λ conn. str_eq conn.uid conn_id) conns) (live conns conn_ids)

-- `get_connections_by_user_id` and `get_connections_by_device_id`
unfoldable pub get_connections : String → Connections → List Conn
get_connections owner c = live c.connections (ids_of owner c.id_map)
