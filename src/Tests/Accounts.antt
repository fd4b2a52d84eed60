-- ===== src/Tests/Accounts.antt =====
-- src/config, src/connection/auth.rs and src/cli/models.rs on a small configuration.
use rabb1t_claw.Base.{
  true, false, none, some, [], ◌∷◌, inl, inr, ◌≡◌, ◌↔◌, refl, arith, if◌then◌else◌, codes, contains,
  text_eq, text_eq_iff, lookup, insert, remove, is_some, values,
}
use rabb1t_claw.Config.{
  GatewayConfig, ModelConfig, ProviderConfig, default_config, label, code, model_agent_roles,
  agent_config,
}
use rabb1t_claw.Config.Resolve.{resolve_agent_model, model_key_of, roles-model_key}
use rabb1t_claw.Config.Edit.{
  ActiveExists, models_remove, models_set_active, providers_remove, edits-ActiveExists,
}
use rabb1t_claw.Devices.{
  Device, DeviceStore, create_device, add_device, fresh_token, token_prefix, revoke_device,
}
use rabb1t_claw.Devices.Prefixes.{PrefixesDistinct, create-add-PrefixesDistinct}
use rabb1t_claw.Auth.{
  authorize_connect, validate_device_token, validate_among, ok, failed, revoked, device_token,
}
use rabb1t_claw.Auth.Sound.{Accepted, authorize-Accepted, authorize-Occurs}
use rabb1t_claw.Auth.Revoked.{presenting, named_token, revoke-authorize}

abbrev pub a_model : ModelConfig
a_model = record {
  provider = codes "p";
  model_id = codes "gpt";
  max_tokens = none;
  temperature = none;
  top_p = none;
  frequency_penalty = none;
  presence_penalty = none;
  reasoning_effort = none;
  context_tokens = none;
  thinking = none;
}

abbrev pub a_provider : ProviderConfig
a_provider = record {
  api = codes "openai";
  base_url = codes "https://api.openai.com/v1/";
  api_key = codes "sk";
  name = none;
}

abbrev pub a_config : GatewayConfig
a_config = record default_config {
  providers = (codes "p", a_provider) ∷ [];
  models = (codes "m", a_model) ∷ (codes "n", a_model) ∷ [];
  active_model = some (codes "m");
}

resolve_run : is_some (resolve_agent_model a_config code) ≡ true
unfolding resolve_agent_model model_key_of agent_config lookup text_eq
resolve_run = refl

roles-model_key_example :
    (contains (model_agent_roles a_config (codes "m")) (label code) ≡ true)
    ↔ (model_key_of a_config code ≡ some (codes "m"))
roles-model_key_example = roles-model_key a_config (codes "m") code

abbrev without_m : GatewayConfig
without_m = record a_config { models = (codes "n", a_model) ∷ []; active_model = some (codes "n") }

edits-ActiveExists_example :
    (models_remove a_config (codes "m") ≡ some without_m → ActiveExists without_m)
    × (models_set_active a_config (codes "m") ≡ some without_m → ActiveExists without_m)
    × (providers_remove a_config (codes "m") ≡ some without_m → ActiveExists without_m)
edits-ActiveExists_example =
    edits-ActiveExists a_config without_m (codes "m")
      (λ key h. unfold lookup in ground (arith, text_eq_iff (codes "m") key))

models_remove_run : models_remove a_config (codes "m") ≡ some without_m
unfolding models_remove lookup remove text_eq
models_remove_run = refl

abbrev pub phone : Device
phone = record {
  device_id = codes "id1";
  display_name = codes "Phone";
  token = codes "aaaaaaaa11";
  revoked = false;
}

abbrev pub tablet : Device
tablet = record {
  device_id = codes "id2";
  display_name = codes "Tablet";
  token = codes "bbbbbbbb22";
  revoked = false;
}

abbrev pub a_store : DeviceStore
a_store = record { devices = (codes "id1", phone) ∷ [] }

abbrev pub two_devices : DeviceStore
two_devices = record { devices = (codes "id1", phone) ∷ (codes "id2", tablet) ∷ [] }

create-add-PrefixesDistinct_example : PrefixesDistinct (add_device a_store tablet)
create-add-PrefixesDistinct_example =
    create-add-PrefixesDistinct a_store (codes "Tablet") (codes "id2")
      (codes "aaaaaaaa99" ∷ codes "bbbbbbbb22" ∷ []) tablet (unfold values in (tt, tt))
      (unfold create_device fresh_token token_prefix values text_eq in refl)

authorize-Accepted_example : Accepted a_store (presenting (codes "aaaaaaaa11")) false device_token
authorize-Accepted_example =
    authorize-Accepted a_store (presenting (codes "aaaaaaaa11")) false {m = device_token}
      (unfold authorize_connect validate_device_token validate_among values text_eq in refl)

authorize-Occurs_example :
    authorize_connect two_devices (some (record { token = some tablet.token })) true
    ≡ (if tablet.revoked then failed revoked else ok device_token)
authorize-Occurs_example =
    authorize-Occurs two_devices tablet true (unfold values in ((λ e. ground arith, tt), (tt, tt)))
      (unfold values in inr (inl refl))

revoke-authorize_example :
    authorize_connect
      (revoke_device two_devices (codes "id2")).0
      (presenting (codes "bbbbbbbb22"))
      true
    ≡ (if text_eq (named_token two_devices (codes "id2")) (codes "bbbbbbbb22")
        then failed revoked
        else authorize_connect two_devices (presenting (codes "bbbbbbbb22")) true)
revoke-authorize_example =
    revoke-authorize two_devices (codes "id2") (codes "bbbbbbbb22") true {name = codes "Tablet"}
      (unfold values in ((λ e. ground arith, tt), (tt, tt)))
      (unfold revoke_device lookup insert text_eq in refl)
