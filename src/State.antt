-- ===== src/State.antt =====
-- src/state.rs: the shared state of the gateway and the registry of connections. Every field has a
-- lock of its own, held for the length of one operation here.
pub mod Registry
pub mod Reload
use rabb1t_claw.Base.{
  ℕ, ◌+◌, ◌%◌, ◌==◌, Bool, true, false, not, ◌&&◌, Option, none, some, List, [], ◌∷◌, ◌++◌,
  if◌then◌else◌, Text, text_eq, TextMap, lookup, insert, remove, unwrap_or, map_or, is_some,
  is_empty, retain,
}
use rabb1t_claw.Config.{GatewayConfig}
use rabb1t_claw.Devices.{Device, DeviceStore}
use rabb1t_claw.Session.{Sessions}
use rabb1t_claw.Tracker.{Tracker, CodeTaskStatus, SearchQueryStatus, AdvancedTaskStatus}

-- The `tx`, the `shutdown` flag and the `shutdown_notify` of a connection are its own, so its id
-- names them.
pub record ActiveConnection : Type 0 where
  pub conn_id : Text

abbrev pub ConnectionRegistry : Type 0
ConnectionRegistry = TextMap (List ActiveConnection)

-- the sender of the answer is named by the task
pub record PendingQuestion : Type 0 where
  pub prefix : Text
  pub task_id : ℕ

abbrev pub RunKey : Type 0
RunKey = Option Text × Text

pub record GatewayState : Type 0 where
  pub started_at : ℕ
  pub active_requests : List RunKey
  pub gateway_config : GatewayConfig
  pub device_store : DeviceStore
  pub active_connections : ConnectionRegistry
  pub sessions : Sessions
  pub code_tasks : Tracker CodeTaskStatus
  pub search_queries : Tracker SearchQueryStatus
  pub advanced_tasks : Tracker AdvancedTaskStatus
  pub advanced_questions : List PendingQuestion
  pub next_task_id : ℕ
  -- the connections whose flag is set and which are notified
  pub shutdown : List Text

abbrev pub new_state : GatewayConfig → DeviceStore → ℕ → GatewayState
new_state config store now = record {
  started_at = now;
  active_requests = [];
  gateway_config = config;
  device_store = store;
  active_connections = [];
  sessions = [];
  code_tasks = [];
  search_queries = [];
  advanced_tasks = [];
  advanced_questions = [];
  next_task_id = 1;
  shutdown = [];
}

-- `fetch_add(1)` on an `AtomicU32`, which wraps
unfoldable pub next_id : GatewayState → ℕ × GatewayState
next_id s = (s.next_task_id, record s { next_task_id = (s.next_task_id + 1) % 4294967296 })

unfoldable pub connections_of : ConnectionRegistry → Text → List ActiveConnection
connections_of connections token = unwrap_or (lookup token connections) []

unfoldable pub register_in : ConnectionRegistry → Text → Text → ConnectionRegistry
unfolding connections_of
register_in connections token conn_id =
    let conn : ActiveConnection = record { conn_id = conn_id } in
    insert token (connections_of connections token ++ conn ∷ []) connections

abbrev pub register_connection : GatewayState → Text → Text → GatewayState
register_connection s token conn_id = record s {
  active_connections = register_in s.active_connections token conn_id;
}

abbrev pub other_than : Text → ActiveConnection → Bool
other_than conn_id c = not (text_eq c.conn_id conn_id)

abbrev put_or_remove : ConnectionRegistry → Text → List ActiveConnection → ConnectionRegistry
put_or_remove connections token conns =
    if is_empty conns then remove token connections else insert token conns connections

unfoldable pub unregister_in : ConnectionRegistry → Text → Text → ConnectionRegistry
unregister_in connections token conn_id =
    map_or (lookup token connections) connections
      λ conns. put_or_remove connections token (retain (other_than conn_id) conns)

abbrev pub unregister_connection : GatewayState → Text → Text → GatewayState
unregister_connection s token conn_id = record s {
  active_connections = unregister_in s.active_connections token conn_id;
}

-- `tokens.iter().filter_map(|t| connections.get(t)).flatten()`
unfoldable pub targets : ConnectionRegistry → List Text → List ActiveConnection
unfolding connections_of
targets connections [] = []
targets connections (t ∷ tokens) = connections_of connections t ++ targets connections tokens

unfoldable pub signal_all : List Text → List ActiveConnection → List Text
signal_all flags [] = flags
signal_all flags (c ∷ conns) = signal_all (c.conn_id ∷ flags) conns

unfoldable pub disconnect_revoked_devices : GatewayState → List Text → GatewayState
unfolding signal_all targets
disconnect_revoked_devices s tokens = record s {
  shutdown = signal_all s.shutdown (targets s.active_connections tokens);
}

-- The loop over the new devices: those revoked now that were not before.
unfoldable pub newly_revoked : TextMap Device → TextMap Device → List Text
newly_revoked old [] = []
newly_revoked old ((id, d) ∷ new) =
    let rest = newly_revoked old new in
    if d.revoked && map_or (lookup id old) false (λ o. not o.revoked) then d.token ∷ rest else rest

-- The loop over the old devices: those that are gone.
unfoldable pub removed_tokens : TextMap Device → TextMap Device → List Text
removed_tokens new [] = []
removed_tokens new ((id, d) ∷ old) =
    let rest = removed_tokens new old in if is_some (lookup id new) then rest else d.token ∷ rest

abbrev pub revoked_tokens : DeviceStore → DeviceStore → List Text
revoked_tokens old new =
    newly_revoked old.devices new.devices ++ removed_tokens new.devices old.devices

abbrev pub with_store : GatewayState → DeviceStore → GatewayState
with_store s new = record s { device_store = new }

-- `new` is what `load_devices` read, or `none` when that failed.
unfoldable pub reload_devices : GatewayState → Option DeviceStore → GatewayState × Bool
unfolding newly_revoked removed_tokens disconnect_revoked_devices
reload_devices s none = (s, false)
reload_devices s (some new) =
    let tokens = revoked_tokens s.device_store new in
    let s' = with_store s new in
    (if is_empty tokens then s' else disconnect_revoked_devices s' tokens, true)

unfoldable pub reload_config : GatewayState → Option GatewayConfig → GatewayState × Bool
reload_config s none = (s, false)
reload_config s (some config) = (record s { gateway_config = config }, true)

abbrev mtime_eq : Option ℕ → Option ℕ → Bool
mtime_eq none none = true
mtime_eq (some a) (some b) = a == b
mtime_eq _ _ = false

-- `check_and_reload` of src/config/reload.rs, with the reload that it is given
unfoldable pub check_and_reload :
    Option ℕ
    → Option ℕ
    → (GatewayState → GatewayState × Bool)
    → GatewayState
    → GatewayState × Option ℕ
check_and_reload new_mtime cached_mtime reload s =
    let (s', done) = reload s in
    if mtime_eq new_mtime cached_mtime
    then (s, cached_mtime)
    else (s', if done then new_mtime else cached_mtime)
