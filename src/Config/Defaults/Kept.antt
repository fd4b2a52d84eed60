-- ===== src/Config/Defaults/Kept.antt =====
-- What `init` leaves of the blocks of the agents.
use rabb1t_claw.Base.{ℕ, Option, none, List, [], ◌∷◌, All, ◌⊎◌, ◌≡◌, unwrap_or}
use rabb1t_claw.Config.{AgentConfig, GatewayConfig, AgentKind, agent_config}
use rabb1t_claw.Config.Defaults.{no_agent}

-- a value that is set stays
abbrev pub Stays : {A : Type 0} → Option A → Option A → Type 0
Stays before after = (before ≡ none) ⊎ (after ≡ before)

abbrev pub numbers : List (AgentConfig → Option ℕ)
numbers =
    (λ a. a.max_tokens)
    ∷ (λ a. a.temperature)
    ∷ (λ a. a.top_p)
    ∷ (λ a. a.frequency_penalty)
    ∷ (λ a. a.presence_penalty)
    ∷ (λ a. a.max_concurrent)
    ∷ (λ a. a.max_iterations)
    ∷ (λ a. a.max_output_tokens)
    ∷ (λ a. a.exec_timeout_secs)
    ∷ (λ a. a.turn_interval)
    ∷ (λ a. a.max_words)
    ∷ (λ a. a.max_results)
    ∷ (λ a. a.max_news)
    ∷ (λ a. a.max_people_also_ask)
    ∷ (λ a. a.max_total_tokens)
    ∷ (λ a. a.max_total_tokens_thorough)
    ∷ (λ a. a.max_page_tokens)
    ∷ (λ a. a.fetch_timeout_secs)
    ∷ (λ a. a.context_tokens)
    ∷ (λ a. a.task_log_max_entries)
    ∷ []

-- every value of an agent that is set stays
abbrev pub IsKept : AgentConfig → AgentConfig → Type 0
IsKept a b =
    All (λ f. Stays (f a) (f b)) numbers
    × (b.model ≡ a.model)
    × Stays a.reasoning_effort b.reasoning_effort
    × (b.thinking ≡ a.thinking)

-- the block of an agent, which is empty where it is missing
abbrev pub block_of : GatewayConfig → AgentKind → AgentConfig
block_of cfg kind = unwrap_or (agent_config cfg kind) no_agent

-- What is not of the agents stays.
abbrev pub SameModels : GatewayConfig → GatewayConfig → Type 0
SameModels cfg other =
    (other.providers ≡ cfg.providers)
    × (other.models ≡ cfg.models)
    × (other.active_model ≡ cfg.active_model)
