-- ===== src/Config.antt =====
-- src/config/native.rs: the configuration types, the access to an agent's block, and the roles
-- that a model has. An `f32` parameter is only copied: it is its bit pattern.
pub mod Defaults
pub mod Resolve
pub mod Edit
use rabb1t_claw.Base.{
  ℕ, Bool, true, false, Option, none, some, List, [], ◌∷◌, ◌++◌, if◌then◌else◌, Text, codes,
  text_eq, TextMap, and_then, map_or,
}

pub record GatewaySettings : Type 0 where
  pub port : ℕ
  pub bind : Text

abbrev pub default_port : ℕ
default_port = 18789

abbrev pub default_bind : Text
default_bind = codes "127.0.0.1"

abbrev pub default_settings : GatewaySettings
default_settings = record { port = default_port; bind = default_bind }

pub record ProviderConfig : Type 0 where
  pub api : Text
  pub base_url : Text
  pub api_key : Text
  pub name : Option Text

pub record ThinkingConfig : Type 0 where
  pub enabled : Bool
  pub budget_tokens : Option ℕ

pub record ModelConfig : Type 0 where
  pub provider : Text
  pub model_id : Text
  pub max_tokens : Option ℕ
  pub temperature : Option ℕ
  pub top_p : Option ℕ
  pub frequency_penalty : Option ℕ
  pub presence_penalty : Option ℕ
  pub reasoning_effort : Option Text
  pub context_tokens : Option ℕ
  pub thinking : Option ThinkingConfig

pub record AgentConfig : Type 0 where
  pub model : Option Text
  pub max_tokens : Option ℕ
  pub temperature : Option ℕ
  pub top_p : Option ℕ
  pub frequency_penalty : Option ℕ
  pub presence_penalty : Option ℕ
  pub reasoning_effort : Option Text
  pub thinking : Option ThinkingConfig
  pub max_concurrent : Option ℕ
  pub max_iterations : Option ℕ
  pub max_output_tokens : Option ℕ
  pub exec_timeout_secs : Option ℕ
  pub turn_interval : Option ℕ
  pub max_words : Option ℕ
  pub max_results : Option ℕ
  pub max_news : Option ℕ
  pub max_people_also_ask : Option ℕ
  pub max_total_tokens : Option ℕ
  pub max_total_tokens_thorough : Option ℕ
  pub max_page_tokens : Option ℕ
  pub fetch_timeout_secs : Option ℕ
  pub context_tokens : Option ℕ
  pub task_log_max_entries : Option ℕ

pub record AgentsSection : Type 0 where
  pub main : Option AgentConfig
  pub code : Option AgentConfig
  pub memory : Option AgentConfig
  pub search : Option AgentConfig
  pub advanced : Option AgentConfig

pub record GatewayConfig : Type 0 where
  pub gateway : GatewaySettings
  pub providers : TextMap ProviderConfig
  pub models : TextMap ModelConfig
  pub active_model : Option Text
  pub agents : Option AgentsSection

abbrev pub default_config : GatewayConfig
default_config = record {
  gateway = default_settings;
  providers = [];
  models = [];
  active_model = none;
  agents = none;
}

pub data AgentKind : Type 0 where
  main code memory search advanced : AgentKind

abbrev agent_of : AgentKind → AgentsSection → Option AgentConfig
agent_of main a = a.main
agent_of code a = a.code
agent_of memory a = a.memory
agent_of search a = a.search
agent_of advanced a = a.advanced

unfoldable pub agent_config : GatewayConfig → AgentKind → Option AgentConfig
agent_config cfg kind = and_then cfg.agents (agent_of kind)

abbrev pub label : AgentKind → Text
label main = codes "main"
label code = codes "code"
label memory = codes "memory"
label search = codes "search"
label advanced = codes "advanced"

abbrev pub is_text : Option Text → Text → Bool
is_text none key = false
is_text (some k) key = text_eq k key

-- `model.map_or(is_active, |m| m == model_key)`
unfoldable pub uses_model : GatewayConfig → Text → AgentKind → Bool
uses_model cfg model_key kind =
    map_or (and_then (agent_config cfg kind) (λ a. a.model)) (is_text cfg.active_model model_key)
      (λ m. text_eq m model_key)

abbrev pub all_kinds : List AgentKind
all_kinds = main ∷ code ∷ memory ∷ search ∷ advanced ∷ []

unfoldable pub roles_among : GatewayConfig → Text → List AgentKind → List Text
roles_among cfg model_key [] = []
roles_among cfg model_key (kind ∷ kinds) =
    if uses_model cfg model_key kind
    then label kind ∷ roles_among cfg model_key kinds
    else roles_among cfg model_key kinds

unfoldable pub model_agent_roles : GatewayConfig → Text → List Text
unfolding roles_among
model_agent_roles cfg model_key = roles_among cfg model_key all_kinds
