-- ===== src/Connection.antt =====
-- src/connection/handler.rs: a socket from the handshake to its cleanup.
pub mod Turns
pub mod Reach
use rabb1t_claw.Base.{
  ℕ, ◌+◌, Bool, true, false, Option, none, some, List, [], ◌∷◌, ◌++◌, if◌then◌else◌, Text, codes,
  text_eq, and_then, map_or,
}
use rabb1t_claw.Agent.Dispatch.{dispatch_method}
use rabb1t_claw.Agent.Request.{HandlerContext, Handled, RequestEnv, StreamJob}
use rabb1t_claw.Auth.{
  AuthFailure, AuthMethod, AuthResult, ConnectAuth, ok, failed, needs_pairing, local, device_token,
  authorize_connect, failure_text, token_of,
}
use rabb1t_claw.Json.{Json, str, num, object, array, opt_str}
use rabb1t_claw.Protocol.{
  IncomingFrame, request, OutgoingFrame, response, event, close, response_ok, response_error,
  invalid_request, unauthorized, internal, new_event, with_payload, with_seq, HelloOk, AuthInfo,
  protocol_version, default_features, default_policy,
}
use rabb1t_claw.State.{GatewayState, register_connection, unregister_connection}

abbrev auth_info : ℕ → Text → AuthInfo
auth_info now token = record { device_token = token; issued_at_ms = some now }

abbrev auth_of : ℕ → Option Text → Option AuthInfo
auth_of now none = none
auth_of now (some token) = some (auth_info now token)

-- `connect` parameters and frames are read by `serde_json`
pub data FrameResult : Type 0 where
  frame : IncomingFrame → FrameResult
  unreadable : Text → FrameResult

pub record SocketEnv : Type 0 where
  pub parse_frame : Text → FrameResult
  pub parse_connect : Json → Option (Option ConnectAuth)
  pub hello_json : HelloOk → Json
  pub version : Text
  pub config_path : Text
  pub state_dir : Text
  pub now : ℕ
  pub request_env : RequestEnv

unfoldable pub create_hello_ok : SocketEnv → Text → Option Text → HelloOk
create_hello_ok env conn_id token = record {
  protocol = protocol_version;
  server = record { version = env.version; conn_id = conn_id };
  features = default_features;
  snapshot = record { config_path = some env.config_path; state_dir = some env.state_dir };
  policy = default_policy;
  auth = auth_of env.now token;
}

-- the variables of the loop; `ticks` counts the tick tasks that were spawned for the socket
pub record Socket : Type 0 where
  pub conn_id : Text
  pub is_local : Bool
  pub connected : Bool
  pub authenticated_token : Option Text
  pub ticks : ℕ

abbrev pub new_socket : Text → Bool → Socket
new_socket conn_id is_local = record {
  conn_id = conn_id;
  is_local = is_local;
  connected = false;
  authenticated_token = none;
  ticks = 0;
}

-- what a turn of the loop leaves: `dispatched` is the request that was passed on, if one was
pub record Turn : Type 0 where
  pub state : GatewayState
  pub socket : Socket
  pub sent : List OutgoingFrame
  pub dispatched : Option HandlerContext
  pub job : Option StreamJob
  pub stop : Bool

abbrev pub quiet : GatewayState → Socket → List OutgoingFrame → Bool → Turn
quiet s socket sent stop = record {
  state = s;
  socket = socket;
  sent = sent;
  dispatched = none;
  job = none;
  stop = stop;
}

-- the token that names the session: that of a validated device, never raw input
abbrev pub session_token : AuthMethod → Option ConnectAuth → Option Text
session_token device_token auth = token_of auth
session_token local auth = none

abbrev registered : GatewayState → Text → Option Text → GatewayState
registered s conn_id none = s
registered s conn_id (some token) = register_connection s token conn_id

abbrev connect_accepted : SocketEnv → GatewayState → Socket → Text → Option Text → Turn
connect_accepted env s socket id token =
    quiet (registered s socket.conn_id token)
      (record socket { connected = true; authenticated_token = token; ticks = socket.ticks + 1 })
      (response (response_ok id (env.hello_json (create_hello_ok env socket.conn_id token))) ∷ [])
      false

-- `NeedsPairing` leaves the socket open, and the other failures close it
abbrev connect_refused : GatewayState → Socket → Text → AuthFailure → Turn
connect_refused s socket id failure =
    let e =
      response
        (response_error id (invalid_request (codes "unauthorized: " ++ failure_text failure))) in
    elim failure [
      | needs_pairing ↦ quiet s socket (e ∷ []) false
      | _ ↦ quiet s socket (e ∷ close 1008 (codes "auth_failed") ∷ []) true
    ]

abbrev connect_result :
    SocketEnv → GatewayState → Socket → Text → Option ConnectAuth → AuthResult → Turn
connect_result env s socket id auth (ok m) = connect_accepted env s socket id (session_token m auth)
connect_result env s socket id auth (failed failure) = connect_refused s socket id failure

-- the `auth` of the parameters, if they are there and can be read
abbrev pub auth_in : SocketEnv → Option Json → Option ConnectAuth
auth_in env params = and_then (and_then params env.parse_connect) (λ a. a)

unfoldable pub handle_connect : SocketEnv → GatewayState → Socket → Text → Option Json → Turn
unfolding create_hello_ok
handle_connect env s socket id params =
    let auth = auth_in env params in
    connect_result env s socket id auth (authorize_connect s.device_store auth socket.is_local)

abbrev error_frames : Text → Option Text → List OutgoingFrame
error_frames id none = []
error_frames id (some e) = response (response_error id (internal e)) ∷ []

abbrev passed_on : Socket → HandlerContext → Handled → Turn
passed_on socket ctx h = record {
  state = h.state;
  socket = socket;
  sent = h.sent ++ error_frames ctx.request_id h.error;
  dispatched = some ctx;
  job = h.job;
  stop = false;
}

-- any method but `connect`, by whether the socket is connected
abbrev pub other_method :
    SocketEnv → GatewayState → Socket → Text → Text → Option Json → Bool → Turn
other_method env s socket id method params true =
    let ctx : HandlerContext = record {
      request_id = id;
      device_token = socket.authenticated_token;
    } in
    passed_on socket ctx (dispatch_method env.request_env s ctx env.version method params)
other_method env s socket id method params false =
    quiet s socket
      (response (response_error id (unauthorized (codes "not connected, send 'connect' first")))
        ∷ [])
      false

unfoldable pub handle_request : SocketEnv → GatewayState → Socket → IncomingFrame → Turn
unfolding handle_connect
handle_request env s socket (request id method params) =
    if text_eq method (codes "connect")
    then handle_connect env s socket id params
    else other_method env s socket id method params socket.connected

pub data Incoming : Type 0 where
  text_message : Text → Incoming
  binary ping pong : Incoming
  close_message socket_error end_of_stream shutdown_signal : Incoming

abbrev handle_frame : SocketEnv → GatewayState → Socket → FrameResult → Turn
handle_frame env s socket (unreadable e) =
    quiet s socket
      (response (
          response_error (codes "unknown") (invalid_request (codes "failed to parse frame: " ++ e)))
        ∷ [])
      false
handle_frame env s socket (frame f) = handle_request env s socket f

-- one turn of the loop of `handle_socket`
unfoldable pub handle_incoming : SocketEnv → GatewayState → Socket → Incoming → Turn
unfolding handle_request
handle_incoming env s socket (text_message t) = handle_frame env s socket (env.parse_frame t)
handle_incoming env s socket binary = quiet s socket [] false
handle_incoming env s socket ping = quiet s socket [] false
handle_incoming env s socket pong = quiet s socket [] false
handle_incoming env s socket _ = quiet s socket [] true

unfoldable pub cleanup : GatewayState → Socket → GatewayState
cleanup s socket =
    map_or socket.authenticated_token s λ token. unregister_connection s token socket.conn_id

-- the `n`-th tick event of a tick task
abbrev pub tick_event : ℕ → ℕ → OutgoingFrame
tick_event now n =
    event
      (with_seq (with_payload (new_event (codes "tick")) (object ((codes "ts", num now) ∷ []))) n)
