-- ===== src/Connection/Reach.antt =====
-- The gateway as a state machine: what its tasks do to the shared state, with one step for each lock
-- that they take of the device store, the registry of connections and the flags.
pub mod Inv
pub mod Late
pub mod Whole
use rabb1t_claw.Base.{
  ℕ, Bool, true, false, Option, none, some, List, [], ◌∷◌, ◌++◌, map, inl, inr, ◌⊎◌, ◌≡◌, refl, sym,
  ap, ◌∙◌, subst, arith, Text, Occurs, Occurs-append_left, Occurs-append_right, Distinct,
  Option-cases, lookup,
}
use rabb1t_claw.Agent.Dispatch.{dispatch_method}
use rabb1t_claw.Agent.Request.{HandlerContext, StreamJob}
use rabb1t_claw.Agent.Shared.{shared, dispatch_method-shared}
use rabb1t_claw.Agent.Streaming.{StreamEnv, Ended, ChatStream, stream_agent_response}
use rabb1t_claw.Agent.Streaming.Outcome.{run-shared}
use rabb1t_claw.Auth.{ConnectAuth, ok, device_token, token_of, authorize_connect}
use rabb1t_claw.Auth.Sound.{authorize-Accepted}
use rabb1t_claw.Config.{GatewayConfig}
use rabb1t_claw.Connection.{SocketEnv, Socket, other_method, cleanup}
use rabb1t_claw.Devices.{DeviceStore}
use rabb1t_claw.Json.{Json}
use rabb1t_claw.Session.{Disk}
use rabb1t_claw.State.{
  GatewayState, ConnectionRegistry, ActiveConnection, new_state, connections_of,
  register_connection, reload_config, with_store, revoked_tokens, targets, signal_all,
}
use rabb1t_claw.State.Registry.{targets-Occurs, signal_all-keeps, signal_all-Occurs}
use rabb1t_claw.State.Reload.{
  IsPaired, TokensKept, IsPaired-or_revoked, EachConnection, register-each, unregister-each,
}

-- where the one task that reloads stands in `reload_devices`: it has compared the stores, has
-- replaced the store, or has chosen the connections that it will tell to shut down
pub data Reload : Type 0 where
  idle : Reload
  compared : DeviceStore → List Text → Reload
  replaced : List Text → Reload
  chosen : List ActiveConnection → Reload

-- The shared state, and what the tasks hold between their locks: the tokens and ids of the
-- handshakes that `authorize_connect` has accepted. `overtaken` is for the statement only: the ids
-- of the handshakes that had been accepted when the store was replaced.
pub record Moment : Type 0 where
  pub state : GatewayState
  pub accepted : List (Text × Text)
  pub overtaken : List Text
  pub reload : Reload

abbrev pub conn_ids : List (Text × Text) → List Text
conn_ids = map (λ h. h.1)

abbrev pub opened : GatewayConfig → DeviceStore → ℕ → Moment
opened config store now = record {
  state = new_state config store now;
  accepted = [];
  overtaken = [];
  reload = idle;
}

-- Any task may take the next step. A reload brings a store in which the devices that stay keep
-- their tokens. A handshake stays accepted, so it may be registered late, or even twice.
pub data Reachable : Moment → Type 1 where
  begin :
      (config : GatewayConfig) (store : DeviceStore) (now : ℕ) → Reachable (opened config store now)
  -- `handle_connect` under the lock of the store, and then under that of the registry
  accept :
      {w : Moment} (auth : Option ConnectAuth) (is_local : Bool) (token conn_id : Text)
      → authorize_connect w.state.device_store auth is_local ≡ ok device_token
      → token_of auth ≡ some token
      → Reachable w
      → Reachable (record w { accepted = (token, conn_id) ∷ w.accepted })
  enter :
      {w : Moment} (token conn_id : Text)
      → Occurs (token, conn_id) w.accepted
      → Reachable w
      → Reachable (record w { state = register_connection w.state token conn_id })
  -- a request of a socket, the cleanup of one, the end of a run
  request :
      {w : Moment} (env : SocketEnv) (k : Socket) (id method : Text) (params : Option Json)
      → Reachable w
      → Reachable
          (record w { state = (other_method env w.state k id method params k.connected).state })
  closed :
      {w : Moment} (k : Socket) → Reachable w → Reachable (record w { state = cleanup w.state k })
  run :
      {w : Moment} (env : StreamEnv) (job : StreamJob) (disk : Disk) (stream : ChatStream)
      (r : Ended)
      → stream_agent_response env job w.state disk stream ≡ some r
      → Reachable w
      → Reachable (record w { state = r.state })
  config :
      {w : Moment} (o : Option GatewayConfig)
      → Reachable w
      → Reachable (record w { state = (reload_config w.state o).0 })
  -- the four sections of `reload_devices`
  compare :
      {w : Moment} (new : DeviceStore)
      → w.reload ≡ idle
      → Distinct (λ e. e.0) w.state.device_store.devices
      → TokensKept w.state.device_store new
      → Reachable w
      → Reachable (record w { reload = compared new (revoked_tokens w.state.device_store new) })
  replace :
      {w : Moment} (new : DeviceStore) (tokens : List Text)
      → w.reload ≡ compared new tokens
      → Reachable w
      → Reachable (record w {
        state = with_store w.state new;
        overtaken = conn_ids w.accepted ++ w.overtaken;
        reload = replaced tokens;
      })
  choose :
      {w : Moment} (tokens : List Text)
      → w.reload ≡ replaced tokens
      → Reachable w
      → Reachable (record w { reload = chosen (targets w.state.active_connections tokens) })
  signal :
      {w : Moment} (conns : List ActiveConnection)
      → w.reload ≡ chosen conns
      → Reachable w
      → Reachable (record w {
        state = record w.state { shutdown = signal_all w.state.shutdown conns };
        reload = idle;
      })

-- the reload that is under way is about to tell the connection to shut down
abbrev pub IsDoomed : Reload → Text → ActiveConnection → Type 0
IsDoomed idle token c = ⊥
IsDoomed (compared new tokens) token c = ⊥
IsDoomed (replaced tokens) token c = Occurs token tokens
IsDoomed (chosen conns) token c = Occurs c conns

abbrev pub IsSafe : DeviceStore → List Text → List Text → Reload → Text → ActiveConnection → Type 0
IsSafe store flags overtaken reload token c =
    IsPaired store token
    ⊎ (Occurs c.conn_id flags ⊎ (Occurs c.conn_id overtaken ⊎ IsDoomed reload token c))

-- each registered connection is under a token that is paired and not revoked, is told to shut down
-- or about to be, or had been accepted before a reload replaced the store
abbrev pub Guarded : Moment → Type 0
Guarded w =
    EachConnection (IsSafe w.state.device_store w.state.shutdown w.overtaken w.reload)
      w.state.active_connections
