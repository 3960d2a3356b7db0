-- ===== src/Relay/Daemons.antt =====
-- The daemons of ConnectionManager in relaycore/connections.go. A *DaemonConn is its generation, which
-- is unique, and a store holds what each of them points to, replaced ones included, since a read
-- handler keeps its pointer. TryAddDaemonVersioned locks its own connection before it publishes it and
-- until it has notified, and whatever closes a connection locks it first, so what follows the
-- publication is one step with it.
use nekonest.Prelude.{
  ℕ, ◌+◌, ◌%◌, ◌^◌, Bool, true, false, not, ◌&&◌, ite, List, [], ◌∷◌, Option, none, some, Bytes,
  bytes_discrete, ℕ_discrete, ◌==◌, is_some, if◌then◌else◌, lookup, insert, delete, Result, ok, err,
}

-- What the manager reads of an AgentSession and of an AgentStartCapability; `body` is the rest.
pub record Session : Type 0 where
  pub id : Bytes
  pub agent_type : Bytes
  pub body : Bytes

pub record Capability : Type 0 where
  pub agent_type : Bytes
  pub body : Bytes

-- DaemonConn.
pub record DaemonConn : Type 0 where
  pub conn : ℕ
  pub device_id : Bytes
  pub app_version : Bytes
  pub sessions : List (Bytes × Session)
  pub capabilities : Option (List Capability)
  pub catalog_version : Bytes
  pub sealed_catalog : Option Bytes
  pub closed : Bool

pub record Daemons : Type 0 where
  pub live : List (Bytes × ℕ)
  pub store : List (ℕ × DaemonConn)
  pub next_generation : ℕ  -- uint64
  pub reject_new : Bool

-- The hooks that are called.
pub data Event : Type 0 where
  device_up version_change : Bytes → Bytes → Event
  device_down : Bytes → Event

pub data Error : Type 0 where
  device_already_connected device_offline : Error

abbrev pub find_live : Bytes → List (Bytes × ℕ) → Option ℕ
find_live = lookup bytes_discrete

abbrev pub find_dc : ℕ → List (ℕ × DaemonConn) → Option DaemonConn
find_dc = lookup ℕ_discrete

abbrev pub put_dc : ℕ → DaemonConn → List (ℕ × DaemonConn) → List (ℕ × DaemonConn)
put_dc = insert ℕ_discrete

abbrev pub str_eq : Bytes → Bytes → Bool
str_eq a b = ite (bytes_discrete a b) true false

abbrev pub new_daemon : ℕ → Bytes → Bytes → DaemonConn
new_daemon conn device version = record {
  conn = conn;
  device_id = device;
  app_version = version;
  sessions = [];
  capabilities = none;
  catalog_version = [];
  sealed_catalog = none;
  closed = false;
}

abbrev pub closed_dc : DaemonConn → DaemonConn
closed_dc dc = record dc { closed = true }

-- `old.closed = true`, if there is an old connection.
abbrev pub close_old : Option ℕ → List (ℕ × DaemonConn) → List (ℕ × DaemonConn)
close_old none store = store
close_old (some generation) store = elim (find_dc generation store) [
  | none ↦ store
  | some dc ↦ put_dc generation (closed_dc dc) store
]

-- What the pointer of the map points to.
abbrev pub deref : Option ℕ → List (ℕ × DaemonConn) → Option DaemonConn
deref none store = none
deref (some generation) store = find_dc generation store

abbrev pub is_open : Option DaemonConn → Bool
is_open none = false
is_open (some dc) = not dc.closed

abbrev pub publish : Daemons → ℕ → Bytes → Bytes → Option ℕ → Daemons
publish d conn device version old =
    let generation = (d.next_generation + 1) % 2 ^ 64 in
    record d {
      live = insert bytes_discrete device generation d.live;
      store = put_dc generation (new_daemon conn device version) (close_old old d.store);
      next_generation = generation;
    }

-- The notification: a device that was offline is up; one that was online may have another version.
abbrev pub announce : Bytes → Bytes → Option DaemonConn → List Event
announce device version none = device_up device version ∷ []
announce device version (some old) =
    if old.closed
    then device_up device version ∷ []
    else if str_eq old.app_version version
    then []
    else version_change device version ∷ []

-- TryAddDaemonVersioned: the manager, the events, and the new generation.
unfoldable pub try_add_daemon_versioned :
    Daemons → Bytes → ℕ → Bytes → Daemons × List Event × Result Error ℕ
try_add_daemon_versioned d device conn version =
    let old = find_live device d.live in
    if d.reject_new && is_open (deref old d.store) then (d, [], err device_already_connected) else (
      publish d conn device version old,
      announce device version (deref old d.store),
      ok ((d.next_generation + 1) % 2 ^ 64),
    )

abbrev pub take_down : Daemons → Bytes → ℕ → DaemonConn → Daemons
take_down d device generation dc = record d {
  live = delete bytes_discrete device d.live;
  store = put_dc generation (closed_dc dc) d.store;
}

abbrev pub remove_found : Daemons → Bytes → ℕ → ℕ → Option DaemonConn → Daemons × List Event
remove_found d device conn generation none = (d, [])
remove_found d device conn generation (some dc) =
    if not (dc.conn == conn)
    then (d, [])
    else if dc.closed
    then (d, [])
    else (take_down d device generation dc, device_down device ∷ [])

-- RemoveDaemon: the manager, and the hook that the call still has to make after it has released its
-- locks; other calls may come before that.
unfoldable pub remove_daemon : Daemons → Bytes → ℕ → Daemons × List Event
remove_daemon d device conn = elim (find_live device d.live) [
  | none ↦ (d, [])
  | some generation ↦ remove_found d device conn generation (find_dc generation d.store)
]

-- The loop of Close over the map.
unfoldable pub close_all : List (Bytes × ℕ) → List (ℕ × DaemonConn) → List (ℕ × DaemonConn)
close_all [] store = store
close_all ((device, generation) ∷ rest) store = close_all rest (close_old (some generation) store)

unfoldable pub close_daemons : Daemons → Daemons
close_daemons d = record d { live = []; store = close_all d.live d.store }

abbrev pub is_current : Daemons → ℕ → DaemonConn → Bool
is_current d generation dc = elim (find_live dc.device_id d.live) [
  | none ↦ false
  | some current ↦ current == generation
]

-- isLiveDaemonLocked.
unfoldable pub is_live_daemon : Daemons → ℕ → Bool
is_live_daemon d generation = elim (find_dc generation d.store) [
  | none ↦ false
  | some dc ↦ not dc.closed && is_current d generation dc
]

-- writeDaemonGeneration up to the socket: the connection to write to. Every connection has a socket, so
-- the test of a nil Conn is left out.
unfoldable pub write_daemon_generation : Daemons → ℕ → Result Error ℕ
write_daemon_generation d generation = elim (find_dc generation d.store) [
  | none ↦ err device_offline
  | some dc ↦ if dc.closed then err device_offline else ok dc.conn
]

-- SendToDaemon of an encoded message, up to the socket.
unfoldable pub send_to_daemon : Daemons → Bytes → Result Error ℕ
send_to_daemon d device = elim (find_live device d.live) [
  | none ↦ err device_offline
  | some generation ↦ write_daemon_generation d generation
]

unfoldable pub is_daemon_online : Daemons → Bytes → Bool
is_daemon_online d device = is_some (find_live device d.live)

unfoldable pub get_daemon_version : Daemons → Bytes → Bytes
get_daemon_version d device = elim (deref (find_live device d.live) d.store) [
  | none ↦ []
  | some dc ↦ dc.app_version
]

abbrev pub keys_of : List (Bytes × ℕ) → List Bytes
keys_of [] = []
keys_of ((device, generation) ∷ rest) = device ∷ keys_of rest

abbrev pub get_online_devices : Daemons → List Bytes
get_online_devices d = keys_of d.live
