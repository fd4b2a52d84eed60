-- ===== src/Config/Defaults.antt =====
-- src/cli/defaults.rs: the parameters that a new model gets, and the limits that `init` writes for
-- the agents.
pub mod Limits
pub mod Kept
pub mod Rejected
use rabb1t_claw.Base.{
  ℕ, Bool, true, false, ◌&&◌, ◌||◌, Option, none, some, List, [], ◌∷◌, if◌then◌else◌, Text, codes,
  text_eq, starts_with, find, is_some, unwrap_or, ◌<|>◌,
}
use rabb1t_claw.Agent.Advanced.{
  default_advanced_max_steps, default_advanced_total_timeout_secs,
  default_advanced_code_max_output_tokens,
}
use rabb1t_claw.Agent.Background.{
  default_code_max_concurrent, default_search_max_concurrent, default_advanced_max_concurrent,
  default_task_log_max_entries,
}
use rabb1t_claw.Agent.Code.Loop.{
  default_code_max_iterations, default_code_max_output_tokens, default_code_exec_timeout_secs,
}
use rabb1t_claw.Agent.Memory.{default_memory_turn_interval, default_memory_max_words}
use rabb1t_claw.Agent.Search.Run.{
  default_search_max_results, default_search_max_news, default_search_max_people_also_ask,
  default_search_max_total_tokens, default_search_max_total_tokens_thorough,
  default_search_max_page_tokens, default_search_fetch_timeout_secs,
}
use rabb1t_claw.Config.{AgentConfig, AgentsSection, GatewayConfig, ModelConfig, ThinkingConfig}
use rabb1t_claw.Config.Resolve.{default_context_tokens}
use rabb1t_claw.Provider.Anthropic.{
  default_thinking_budget_tokens_anthropic, default_model_max_tokens,
}
use rabb1t_claw.Provider.OpenAi.{is_reasoning_model}

abbrev default_code_temperature : ℕ
default_code_temperature = 0

abbrev default_code_max_tokens : ℕ
default_code_max_tokens = 16384

abbrev default_memory_temperature : ℕ
default_memory_temperature = 0

abbrev default_memory_max_tokens : ℕ
default_memory_max_tokens = 1024

abbrev default_reasoning_max_tokens_openai : ℕ
default_reasoning_max_tokens_openai = 16384

abbrev default_thinking_max_tokens_anthropic : ℕ
default_thinking_max_tokens_anthropic = 16384

abbrev default_oss_reasoning_max_tokens : ℕ
default_oss_reasoning_max_tokens = 8192

abbrev default_reasoning_effort_openai : Text
default_reasoning_effort_openai = codes "medium"

pub data ModelTier : Type 0 where
  reasoning thinking oss_reasoning standard : ModelTier

abbrev any_prefix : List Text → Text → Bool
any_prefix [] id = false
any_prefix (m ∷ ms) id = starts_with id m || any_prefix ms id

abbrev removed : List Text
removed =
    codes "claude-opus-4-7"
    ∷ codes "claude-opus-4-8"
    ∷ codes "claude-opus-5"
    ∷ codes "claude-sonnet-5"
    ∷ codes "claude-haiku-5"
    ∷ codes "claude-fable-5"
    ∷ codes "claude-mythos-5"
    ∷ []

abbrev supported : List Text
supported =
    codes "claude-3-7"
    ∷ codes "claude-opus-4"
    ∷ codes "claude-sonnet-4"
    ∷ codes "claude-haiku-4"
    ∷ []

-- `to_lowercase` is Unicode's
module _ (to_lowercase : Text → Text) where
  unfoldable pub anthropic_supports_extended_thinking : Text → Bool
  anthropic_supports_extended_thinking model_id =
      let id = to_lowercase model_id in
      if any_prefix removed id then false else any_prefix supported id

  abbrev holds_text : Text → Text → Bool
  holds_text id part = is_some (find part id)

  unfoldable pub detect_tier : Text → Text → ModelTier
  detect_tier api_type model_id =
      let id = to_lowercase model_id in
      if text_eq api_type (codes "openai") && is_reasoning_model model_id
      then reasoning
      else if text_eq api_type (codes "anthropic")
      then (if anthropic_supports_extended_thinking model_id then thinking else standard)
      else if text_eq api_type (codes "openai")
          && (holds_text id (codes "deepseek-r1")
              || holds_text id (codes "qwq")
              || holds_text id (codes "kimi"))
      then oss_reasoning
      else standard

  abbrev with_tier : ModelTier → ModelConfig → ModelConfig
  with_tier reasoning mc = record mc {
    max_tokens = some default_reasoning_max_tokens_openai;
    reasoning_effort = some default_reasoning_effort_openai;
  }
  with_tier thinking mc = record mc {
    max_tokens = some default_thinking_max_tokens_anthropic;
    thinking =
        some (record {
          enabled = true;
          budget_tokens = some default_thinking_budget_tokens_anthropic;
        });
  }
  with_tier oss_reasoning mc = record mc {
    max_tokens = some default_oss_reasoning_max_tokens;
    thinking = some (record { enabled = true; budget_tokens = none });
  }
  with_tier standard mc = record mc { max_tokens = some default_model_max_tokens }

  unfoldable pub apply_smart_defaults : ModelConfig → Text → ModelConfig
  apply_smart_defaults mc api_type = with_tier (detect_tier api_type mc.model_id) mc

-- `Default::default()`
abbrev pub no_agent : AgentConfig
no_agent = record {
  model = none;
  max_tokens = none;
  temperature = none;
  top_p = none;
  frequency_penalty = none;
  presence_penalty = none;
  reasoning_effort = none;
  thinking = none;
  max_concurrent = none;
  max_iterations = none;
  max_output_tokens = none;
  exec_timeout_secs = none;
  turn_interval = none;
  max_words = none;
  max_results = none;
  max_news = none;
  max_people_also_ask = none;
  max_total_tokens = none;
  max_total_tokens_thorough = none;
  max_page_tokens = none;
  fetch_timeout_secs = none;
  context_tokens = none;
  task_log_max_entries = none;
}

abbrev pub no_agents : AgentsSection
no_agents = record { main = none; code = none; memory = none; search = none; advanced = none }

abbrev pub main_defaults : AgentConfig → AgentConfig
main_defaults a = record a {
  context_tokens = a.context_tokens <|> some default_context_tokens;
  reasoning_effort = a.reasoning_effort <|> some default_reasoning_effort_openai;
  task_log_max_entries = a.task_log_max_entries <|> some default_task_log_max_entries;
}

abbrev pub code_defaults : AgentConfig → AgentConfig
code_defaults a = record a {
  temperature = a.temperature <|> some default_code_temperature;
  max_tokens = a.max_tokens <|> some default_code_max_tokens;
  reasoning_effort = a.reasoning_effort <|> some default_reasoning_effort_openai;
  max_concurrent = a.max_concurrent <|> some default_code_max_concurrent;
  max_iterations = a.max_iterations <|> some default_code_max_iterations;
  max_output_tokens = a.max_output_tokens <|> some default_code_max_output_tokens;
  exec_timeout_secs = a.exec_timeout_secs <|> some default_code_exec_timeout_secs;
}

abbrev pub memory_defaults : AgentConfig → AgentConfig
memory_defaults a = record a {
  temperature = a.temperature <|> some default_memory_temperature;
  max_tokens = a.max_tokens <|> some default_memory_max_tokens;
  reasoning_effort = a.reasoning_effort <|> some default_reasoning_effort_openai;
  turn_interval = a.turn_interval <|> some default_memory_turn_interval;
  max_words = a.max_words <|> some default_memory_max_words;
}

abbrev pub search_defaults : AgentConfig → AgentConfig
search_defaults a = record a {
  reasoning_effort = a.reasoning_effort <|> some default_reasoning_effort_openai;
  max_concurrent = a.max_concurrent <|> some default_search_max_concurrent;
  max_results = a.max_results <|> some default_search_max_results;
  max_news = a.max_news <|> some default_search_max_news;
  max_people_also_ask = a.max_people_also_ask <|> some default_search_max_people_also_ask;
  max_total_tokens = a.max_total_tokens <|> some default_search_max_total_tokens;
  max_total_tokens_thorough =
      a.max_total_tokens_thorough <|> some default_search_max_total_tokens_thorough;
  max_page_tokens = a.max_page_tokens <|> some default_search_max_page_tokens;
  fetch_timeout_secs = a.fetch_timeout_secs <|> some default_search_fetch_timeout_secs;
}

abbrev pub advanced_defaults : AgentConfig → AgentConfig
advanced_defaults a = record a {
  reasoning_effort = a.reasoning_effort <|> some default_reasoning_effort_openai;
  max_concurrent = a.max_concurrent <|> some default_advanced_max_concurrent;
  max_iterations = a.max_iterations <|> some default_advanced_max_steps;
  exec_timeout_secs = a.exec_timeout_secs <|> some default_advanced_total_timeout_secs;
  max_output_tokens = a.max_output_tokens <|> some default_advanced_code_max_output_tokens;
}

abbrev pub agents_defaults : AgentsSection → AgentsSection
agents_defaults s = record {
  main = some (main_defaults (unwrap_or s.main no_agent));
  code = some (code_defaults (unwrap_or s.code no_agent));
  memory = some (memory_defaults (unwrap_or s.memory no_agent));
  search = some (search_defaults (unwrap_or s.search no_agent));
  advanced = some (advanced_defaults (unwrap_or s.advanced no_agent));
}

unfoldable pub populate_default_agents : GatewayConfig → GatewayConfig
populate_default_agents cfg = record cfg {
  agents = some (agents_defaults (unwrap_or cfg.agents no_agents));
}
