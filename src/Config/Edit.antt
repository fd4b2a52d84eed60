-- ===== src/Config/Edit.antt =====
-- The edits of the configuration by src/cli/models.rs and src/cli/providers.rs: what is saved.
use rabb1t_claw.Base.{
  Bool, true, Option, none, some, [], ◌∷◌, if◌then◌else◌, ◌≡◌, arith, Text, text_eq, text_eq_iff,
  text_eq_refl, lookup, remove, TextMap, is_some, lookup-remove,
}
use rabb1t_claw.Config.{GatewayConfig, ModelConfig, is_text}

module _ {ℓ} {V : Type ℓ} where
  -- `keys().next().cloned()`
  abbrev pub first_key : TextMap V → Option Text
  first_key [] = none
  first_key ((k, v) ∷ m) = some k

-- `require_model`
unfoldable pub require_model : GatewayConfig → Text → Bool
require_model cfg key = is_some (lookup key cfg.models)

-- `none`: the model is not there, and nothing is saved
unfoldable pub models_remove : GatewayConfig → Text → Option GatewayConfig
unfolding require_model
models_remove cfg key =
    let models = remove key cfg.models in
    if require_model cfg key
    then some (record cfg {
      models = models;
      active_model = if is_text cfg.active_model key then first_key models else cfg.active_model;
    })
    else none

unfoldable pub models_set_active : GatewayConfig → Text → Option GatewayConfig
unfolding require_model
models_set_active cfg key =
    if require_model cfg key then some (record cfg { active_model = some key }) else none

-- the models of another provider, in their order
unfoldable pub without_provider : Text → TextMap ModelConfig → TextMap ModelConfig
without_provider name [] = []
without_provider name ((k, m) ∷ models) =
    let rest = without_provider name models in
    if text_eq m.provider name then rest else (k, m) ∷ rest

abbrev reactivate : Option Text → TextMap ModelConfig → Option Text
reactivate none models = none
reactivate (some active) models =
    if is_some (lookup active models) then some active else first_key models

unfoldable pub providers_remove : GatewayConfig → Text → Option GatewayConfig
unfolding without_provider
providers_remove cfg name =
    let models = without_provider name cfg.models in
    if is_some (lookup name cfg.providers)
    then some (record cfg {
      providers = remove name cfg.providers;
      models = models;
      active_model = reactivate cfg.active_model models;
    })
    else none

-- The active model, if there is one, is configured.
abbrev pub ActiveExists : GatewayConfig → Type 0
ActiveExists cfg =
    (key : Text) → cfg.active_model ≡ some key → is_some (lookup key cfg.models) ≡ true

first_key-lookup :
    (m : TextMap ModelConfig) (key : Text) → first_key m ≡ some key → is_some (lookup key m) ≡ true
unfolding lookup
first_key-lookup [] key h = cc
first_key-lookup ((k, v) ∷ m) key h = ground (arith, text_eq_iff k key)

reactivate-lookup :
    (o : Option Text) (m : TextMap ModelConfig) (key : Text)
    → reactivate o m ≡ some key
    → is_some (lookup key m) ≡ true
reactivate-lookup none m key h = cc
reactivate-lookup (some active) m key h = ground (arith, first_key-lookup m key)

models_remove-ActiveExists :
    (cfg cfg' : GatewayConfig) (key : Text)
    → ActiveExists cfg
    → models_remove cfg key ≡ some cfg'
    → ActiveExists cfg'
unfolding models_remove
models_remove-ActiveExists cfg cfg' key h saved active e = ground (
  arith,
  first_key-lookup (remove key cfg.models) active,
  lookup-remove key active cfg.models,
  h active,
  text_eq_iff key active,
  text_eq_refl key,
)

models_set_active-ActiveExists :
    (cfg cfg' : GatewayConfig) (key : Text)
    → models_set_active cfg key ≡ some cfg'
    → ActiveExists cfg'
unfolding models_set_active
models_set_active-ActiveExists cfg cfg' key saved active e = ground arith

providers_remove-ActiveExists :
    (cfg cfg' : GatewayConfig) (name : Text)
    → providers_remove cfg name ≡ some cfg'
    → ActiveExists cfg'
unfolding providers_remove
providers_remove-ActiveExists cfg cfg' name saved active e =
    ground (arith, reactivate-lookup cfg.active_model (without_provider name cfg.models) active)

-- Removing a model, choosing the active one and removing a provider each keep an active model that
-- is configured, whenever they save anything.
pub edits-ActiveExists :
    (cfg cfg' : GatewayConfig) (key : Text)
    → ActiveExists cfg
    → (models_remove cfg key ≡ some cfg' → ActiveExists cfg')
      × (models_set_active cfg key ≡ some cfg' → ActiveExists cfg')
      × (providers_remove cfg key ≡ some cfg' → ActiveExists cfg')
edits-ActiveExists cfg cfg' key h = (
  models_remove-ActiveExists cfg cfg' key h,
  models_set_active-ActiveExists cfg cfg' key,
  providers_remove-ActiveExists cfg cfg' key,
)
