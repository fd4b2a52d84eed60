-- ===== src/Devices.antt =====
-- src/config/devices.rs: the device store. `HashMap::values` is the iteration order of the map.
pub mod Prefixes
use rabb1t_claw.Base.{
  Bool, true, false, Option, none, some, List, [], ◌∷◌, if◌then◌else◌, Text, codes, text_eq,
  TextMap, lookup, insert, values, take, map, contains,
}

pub record Device : Type 0 where
  pub device_id : Text
  pub display_name : Text
  pub token : Text
  pub revoked : Bool

pub record DeviceStore : Type 0 where
  pub devices : TextMap Device

-- `token_prefix` of src/agent/session.rs: the tokens are ASCII, so this is the first eight bytes
unfoldable pub token_prefix : Text → Text
token_prefix token = take 8 token

abbrev pub taken_prefixes : DeviceStore → List Text
taken_prefixes store = map (λ d. token_prefix d.token) (values store.devices)

-- `repeat_with(generate_token).find(…)` over the tokens that are generated; `none` if they all
-- collide, and the search has not ended.
unfoldable pub fresh_token : List Text → List Text → Option Text
fresh_token taken [] = none
fresh_token taken (t ∷ tokens) =
    if contains taken (token_prefix t) then fresh_token taken tokens else some t

abbrev device_with : Text → Text → Option Text → Option Device
device_with device_id display_name none = none
device_with device_id display_name (some token) =
    some (record {
      device_id = device_id;
      display_name = display_name;
      token = token;
      revoked = false;
    })

-- `device_id` and `tokens` are what `generate_device_id` and `generate_token` return.
unfoldable pub create_device : DeviceStore → Text → Text → List Text → Option Device
unfolding fresh_token
create_device store display_name device_id tokens =
    device_with device_id display_name (fresh_token (taken_prefixes store) tokens)

unfoldable pub add_device : DeviceStore → Device → DeviceStore
add_device store device = record { devices = insert device.device_id device store.devices }

abbrev pub revoked_device : Device → Device
revoked_device d = record d { revoked = true }

-- `for device in store.devices.values_mut()`
unfoldable pub revoke_by_token : Text → TextMap Device → TextMap Device × Option Text
revoke_by_token token [] = ([], none)
revoke_by_token token ((id, d) ∷ m) =
    let (m', name) = revoke_by_token token m in
    if text_eq d.token token
    then ((id, revoked_device d) ∷ m, some d.display_name)
    else ((id, d) ∷ m', name)

abbrev pub revoke_found : TextMap Device → Text → Option Device → TextMap Device × Option Text
revoke_found m id_or_token (some d) = (insert id_or_token (revoked_device d) m, some d.display_name)
revoke_found m id_or_token none = revoke_by_token id_or_token m

unfoldable pub revoke_device : DeviceStore → Text → DeviceStore × Option Text
unfolding revoke_by_token
revoke_device store id_or_token =
    let (m, name) = revoke_found store.devices id_or_token (lookup id_or_token store.devices) in
    (record { devices = m }, name)
