-- ===== src/Auth.antt =====
-- src/connection/auth.rs: who may connect. `constant_time_eq` decides the equality of bytes.
pub mod Sound
pub mod Revoked
use rabb1t_claw.Base.{
  Bool, true, false, ◌&&◌, ◌||◌, Option, none, some, List, [], ◌∷◌, if◌then◌else◌, Text, codes,
  text_eq, values, starts_with, is_empty,
}
use rabb1t_claw.Devices.{Device, DeviceStore}

pub data AuthFailure : Type 0 where
  revoked invalid_token needs_pairing : AuthFailure

abbrev pub failure_text : AuthFailure → Text
failure_text revoked = codes "device_revoked"
failure_text invalid_token = codes "device_token_invalid"
failure_text needs_pairing = codes "device_token_missing"

pub data AuthMethod : Type 0 where
  local device_token : AuthMethod

pub data AuthResult : Type 0 where
  ok : AuthMethod → AuthResult
  failed : AuthFailure → AuthResult

-- `ConnectAuth` of src/protocol.rs
pub record ConnectAuth : Type 0 where
  pub token : Option Text

unfoldable pub is_loopback : Text → Bool
is_loopback addr =
    text_eq addr (codes "127.0.0.1")
    || starts_with addr (codes "127.")
    || text_eq addr (codes "::1")
    || starts_with addr (codes "::ffff:127.")
    || text_eq addr (codes "localhost")

unfoldable pub validate_among : List Device → Text → AuthResult
validate_among [] provided = failed invalid_token
validate_among (d ∷ ds) provided =
    if text_eq d.token provided
    then (if d.revoked then failed revoked else ok device_token)
    else validate_among ds provided

unfoldable pub validate_device_token : DeviceStore → Text → AuthResult
unfolding validate_among
validate_device_token store provided = validate_among (values store.devices) provided

abbrev pub token_of : Option ConnectAuth → Option Text
token_of none = none
token_of (some auth) = auth.token

abbrev check_token : DeviceStore → Option Text → AuthResult
check_token store (some token) = validate_device_token store token
check_token store none = failed needs_pairing

unfoldable pub authorize_connect : DeviceStore → Option ConnectAuth → Bool → AuthResult
authorize_connect store connect_auth is_local =
    if is_local && is_empty store.devices
    then ok local
    else check_token store (token_of connect_auth)
