-- ===== src/Protocol.antt =====
-- src/protocol.rs: the frames of the WebSocket protocol.
use rabb1t_claw.Base.{ℕ, ◌*◌, Bool, true, false, Option, none, some, List, [], ◌∷◌, Text, codes}
use rabb1t_claw.Json.{Json}

abbrev pub protocol_version : ℕ
protocol_version = 3

abbrev pub tick_interval_secs : ℕ
tick_interval_secs = 30

abbrev pub ws_max_payload : ℕ
ws_max_payload = 512 * 1024

abbrev pub ws_max_buffered : ℕ
ws_max_buffered = 1572864

pub data IncomingFrame : Type 0 where
  request : Text → Text → Option Json → IncomingFrame

pub record AgentParams : Type 0 where
  pub message : Text
  pub idempotency_key : Text

pub record ErrorShape : Type 0 where
  pub code : Text
  pub message : Text

abbrev pub invalid_request : Text → ErrorShape
invalid_request message = record { code = codes "INVALID_REQUEST"; message = message }

abbrev pub unauthorized : Text → ErrorShape
unauthorized message = record { code = codes "UNAUTHORIZED"; message = message }

abbrev pub not_found : Text → ErrorShape
not_found message = record { code = codes "NOT_FOUND"; message = message }

abbrev pub unavailable : Text → ErrorShape
unavailable message = record { code = codes "UNAVAILABLE"; message = message }

abbrev pub internal : Text → ErrorShape
internal message = record { code = codes "INTERNAL_ERROR"; message = message }

-- `frame_type` is "res"
pub record ResponseFrame : Type 0 where
  pub id : Text
  pub is_ok : Bool
  pub payload : Option Json
  pub error : Option ErrorShape

abbrev pub response_ok : Text → Json → ResponseFrame
response_ok id payload = record { id = id; is_ok = true; payload = some payload; error = none }

abbrev pub response_error : Text → ErrorShape → ResponseFrame
response_error id e = record { id = id; is_ok = false; payload = none; error = some e }

-- `frame_type` is "event"
pub record EventFrame : Type 0 where
  pub event : Text
  pub payload : Option Json
  pub seq : Option ℕ

abbrev pub new_event : Text → EventFrame
new_event event = record { event = event; payload = none; seq = none }

abbrev pub with_payload : EventFrame → Json → EventFrame
with_payload e payload = record e { payload = some payload }

abbrev pub with_seq : EventFrame → ℕ → EventFrame
with_seq e seq = record e { seq = some seq }

pub data OutgoingFrame : Type 0 where
  response : ResponseFrame → OutgoingFrame
  event : EventFrame → OutgoingFrame
  close : ℕ → Text → OutgoingFrame

pub record ServerInfo : Type 0 where
  pub version : Text
  pub conn_id : Text

pub record Features : Type 0 where
  pub methods : List Text
  pub events : List Text

abbrev pub default_features : Features
default_features = record {
  methods = codes "health" ∷ codes "agent" ∷ codes "chat.send" ∷ codes "chat.history" ∷ [];
  events = codes "agent" ∷ codes "chat" ∷ codes "tick" ∷ [];
}

pub record Snapshot : Type 0 where
  pub config_path : Option Text
  pub state_dir : Option Text

pub record Policy : Type 0 where
  pub max_payload : ℕ
  pub max_buffered_bytes : ℕ
  pub tick_interval_ms : ℕ

abbrev pub default_policy : Policy
default_policy = record {
  max_payload = ws_max_payload;
  max_buffered_bytes = ws_max_buffered;
  tick_interval_ms = tick_interval_secs * 1000;
}

pub record AuthInfo : Type 0 where
  pub device_token : Text
  pub issued_at_ms : Option ℕ

-- `frame_type` is "hello-ok"
pub record HelloOk : Type 0 where
  pub protocol : ℕ
  pub server : ServerInfo
  pub features : Features
  pub snapshot : Snapshot
  pub policy : Policy
  pub auth : Option AuthInfo
