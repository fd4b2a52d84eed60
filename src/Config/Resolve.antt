-- ===== src/Config/Resolve.antt =====
-- `resolve_agent_model` of src/agent/runner.rs, and `create_provider` of src/provider/mod.rs.
use rabb1t_claw.Base.{
  ℕ, true, false, Option, none, some, [], ◌∷◌, if◌then◌else◌, inl, inr, ◌≡◌, ◌↔◌, ◌||◌, ◌&&◌, ◌-◌,
  refl, arith, Text, codes, text_eq, text_eq_iff, lookup, unwrap_or, ◌<|>◌, and_then, leb,
  Option-cases, reverse, map_or, contains, is_some, ◌∙◌,
}
use rabb1t_claw.Config.{
  GatewayConfig, ModelConfig, AgentConfig, AgentKind, ThinkingConfig, ProviderConfig, agent_config,
  label, is_text, main, code, memory, search, advanced, model_agent_roles, uses_model,
}

-- which client `create_provider` makes
pub data ProviderKind : Type 0 where
  anthropic openai : ProviderKind

pub record LlmProvider : Type 0 where
  pub kind : ProviderKind
  pub base_url : Text
  pub api_key : Text

abbrev pub default_context_tokens : ℕ
default_context_tokens = 200000

pub record ResolvedAgentModel : Type 0 where
  pub provider : LlmProvider
  pub provider_name : Text
  pub model_id : Text
  pub max_tokens : Option ℕ
  pub temperature : Option ℕ
  pub top_p : Option ℕ
  pub frequency_penalty : Option ℕ
  pub presence_penalty : Option ℕ
  pub reasoning_effort : Option Text
  pub thinking : Option ThinkingConfig
  pub context_tokens : ℕ

-- `trim_end_matches('/')`, on the reversed text
abbrev trim_slashes : Text → Text
trim_slashes [] = []
trim_slashes (c ∷ cs) = elim (text_eq (c ∷ []) (codes "/")) [
  | true ↦ trim_slashes cs
  | false ↦ c ∷ cs
]

unfoldable pub create_provider : Text → Text → Text → LlmProvider
create_provider api_type base_url api_key = record {
  kind =
      if text_eq api_type (codes "anthropic-messages") || text_eq api_type (codes "anthropic")
      then anthropic
      else openai;
  base_url = reverse (trim_slashes (reverse base_url));
  api_key = api_key;
}

-- the first byte in upper case, if it is an ASCII letter
abbrev pub capitalize : Text → Text
capitalize [] = []
capitalize (c ∷ cs) = (if leb b'a' c && leb c b'z' then c - 32 else c) ∷ cs

-- the key of the model that an agent uses
unfoldable pub model_key_of : GatewayConfig → AgentKind → Option Text
model_key_of cfg kind = and_then (agent_config cfg kind) (λ a. a.model) <|> cfg.active_model

unfoldable pub resolve_with : Option AgentConfig → ModelConfig → ProviderConfig → ResolvedAgentModel
resolve_with agent_cfg mc pc = record {
  provider = create_provider pc.api pc.base_url pc.api_key;
  provider_name = unwrap_or pc.name (capitalize pc.api);
  model_id = mc.model_id;
  max_tokens = and_then agent_cfg (λ a. a.max_tokens) <|> mc.max_tokens;
  temperature = and_then agent_cfg (λ a. a.temperature) <|> mc.temperature;
  top_p = and_then agent_cfg (λ a. a.top_p) <|> mc.top_p;
  frequency_penalty = and_then agent_cfg (λ a. a.frequency_penalty) <|> mc.frequency_penalty;
  presence_penalty = and_then agent_cfg (λ a. a.presence_penalty) <|> mc.presence_penalty;
  reasoning_effort = and_then agent_cfg (λ a. a.reasoning_effort) <|> mc.reasoning_effort;
  thinking = and_then agent_cfg (λ a. a.thinking) <|> mc.thinking;
  context_tokens =
      unwrap_or (and_then agent_cfg (λ a. a.context_tokens) <|> mc.context_tokens)
        default_context_tokens;
}

unfoldable pub resolve_agent_model : GatewayConfig → AgentKind → Option ResolvedAgentModel
unfolding resolve_with
resolve_agent_model cfg kind = and_then (model_key_of cfg kind) λ model_key.
    and_then (lookup model_key cfg.models) λ mc.
      and_then (lookup mc.provider cfg.providers)
        λ pc. some (resolve_with (agent_config cfg kind) mc pc)

is_text_iff : (o : Option Text) (key : Text) → (is_text o key ≡ true) ↔ (o ≡ some key)
is_text_iff none key = ground arith
is_text_iff (some k) key = ground (arith, text_eq_iff k key)

map_or-is_text :
    (o p : Option Text) (key : Text)
    → map_or o (is_text p key) (λ m. text_eq m key) ≡ is_text (o <|> p) key
map_or-is_text none p key = refl
map_or-is_text (some m) p key = refl

uses_model_lem :
    (cfg : GatewayConfig) (key : Text) (kind : AgentKind)
    → uses_model cfg key kind ≡ is_text (model_key_of cfg kind) key
unfolding uses_model model_key_of
uses_model_lem cfg key kind =
    map_or-is_text (and_then (agent_config cfg kind) (λ a. a.model)) cfg.active_model key

contains-roles :
    (cfg : GatewayConfig) (key : Text) (kind : AgentKind)
    → contains (model_agent_roles cfg key) (label kind) ≡ uses_model cfg key kind
unfolding model_agent_roles text_eq
contains-roles cfg key main = ground arith
contains-roles cfg key code = ground arith
contains-roles cfg key memory = ground arith
contains-roles cfg key search = ground arith
contains-roles cfg key advanced = ground arith

-- The roles that the command line lists for a model are exactly the agents whose requests are
-- resolved with that model's key.
pub roles-model_key :
    (cfg : GatewayConfig) (key : Text) (kind : AgentKind)
    → (contains (model_agent_roles cfg key) (label kind) ≡ true)
      ↔ (model_key_of cfg kind ≡ some key)
roles-model_key cfg key kind =
    rw (contains-roles cfg key kind ∙ uses_model_lem cfg key kind)
      (is_text_iff (model_key_of cfg kind) key)

-- the key of the agent names a model, and the model a provider
abbrev pub Configured : GatewayConfig → AgentKind → Type 0
Configured cfg kind =
    (key : Text) × (mc : ModelConfig) × (pc : ProviderConfig) × (model_key_of cfg kind ≡ some key)
    × (lookup key cfg.models ≡ some mc)
    × (lookup mc.provider cfg.providers ≡ some pc)

resolved_parts :
    (cfg : GatewayConfig) (kind : AgentKind)
    → is_some (resolve_agent_model cfg kind) ≡ true
    → Configured cfg kind
unfolding resolve_agent_model
resolved_parts cfg kind h = elim (Option-cases (model_key_of cfg kind)) [
  | inl e ↦ ground arith
  | inr (key, e) ↦ elim (Option-cases (lookup key cfg.models)) [
    | inl f ↦ ground arith
    | inr (mc, f) ↦ elim (Option-cases (lookup mc.provider cfg.providers)) [
      | inl g ↦ ground arith
      | inr (pc, g) ↦ (key, mc, pc, e, f, g)
    ]
  ]
]

resolved_of_parts :
    (cfg : GatewayConfig) (kind : AgentKind)
    → Configured cfg kind
    → is_some (resolve_agent_model cfg kind) ≡ true
unfolding resolve_agent_model
resolved_of_parts cfg kind (key, mc, pc, e, f, g) = rw (e, f, g)

-- An agent is resolved exactly when its model key names a model whose provider is configured.
resolve_iff :
    (cfg : GatewayConfig) (kind : AgentKind)
    → (is_some (resolve_agent_model cfg kind) ≡ true) ↔ Configured cfg kind
resolve_iff cfg kind = (resolved_parts cfg kind, resolved_of_parts cfg kind)
