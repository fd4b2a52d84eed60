-- ===== src/Config/Defaults/Limits.antt =====
-- The limits that `init` writes are those that hold without them.
use rabb1t_claw.Base.{ℕ, Option, none, some, ◌≡◌, refl, and_then, unwrap_or, ◌<|>◌}
use rabb1t_claw.Agent.Advanced
use rabb1t_claw.Agent.Advanced.{AdvancedLimits}
use rabb1t_claw.Agent.Background.{limits_of}
use rabb1t_claw.Agent.Code.Loop
use rabb1t_claw.Agent.Code.Loop.{CodeLimits}
use rabb1t_claw.Agent.Memory
use rabb1t_claw.Agent.Search.Run.{from_config}
use rabb1t_claw.Config.{
  AgentConfig, AgentsSection, GatewayConfig, AgentKind, main, code, memory, search, advanced,
  agent_config,
}
use rabb1t_claw.Config.Defaults.{no_agent, no_agents, populate_default_agents}
use rabb1t_claw.Config.Resolve.{model_key_of}

-- a field that is set to its default if it is not set, and read with that default
field_lem :
    {A : Type 0} (f : AgentConfig → Option A) (o : Option AgentConfig) (d : A)
    → f no_agent ≡ none
    → unwrap_or (f (unwrap_or o no_agent) <|> some d) d ≡ unwrap_or (and_then o f) d
field_lem f none d h = rw h refl
field_lem f (some a) d h = or_default (f a) d
  where
    or_default : {A : Type 0} (x : Option A) (d : A) → unwrap_or (x <|> some d) d ≡ unwrap_or x d
    or_default none d = refl
    or_default (some x) d = refl

-- the block of an agent among those of a section that may be missing
pub block_lem :
    (f : AgentsSection → Option AgentConfig) (o : Option AgentsSection)
    → f no_agents ≡ none
    → f (unwrap_or o no_agents) ≡ and_then o f
block_lem f none h = h
block_lem f (some s) h = refl

or_default-twice : {A : Type 0} (x : Option A) (d : A) → (x <|> some d) <|> some d ≡ x <|> some d
or_default-twice none d = refl
or_default-twice (some x) d = refl

pub populate-twice :
    (cfg : GatewayConfig)
    → populate_default_agents (populate_default_agents cfg) ≡ populate_default_agents cfg
unfolding populate_default_agents
populate-twice cfg = simp or_default-twice refl

-- a limit of an agent after `init` and before
limit_lem :
    (cfg : GatewayConfig) (block : AgentsSection → Option AgentConfig) (f : AgentConfig → Option ℕ)
    (d : ℕ)
    → block no_agents ≡ none
    → f no_agent ≡ none
    → unwrap_or (f (unwrap_or (block (unwrap_or cfg.agents no_agents)) no_agent) <|> some d) d
      ≡ unwrap_or (and_then (and_then cfg.agents block) f) d
limit_lem cfg block f d b h =
    rw (block_lem block cfg.agents b) (field_lem f (and_then cfg.agents block) d h)

-- the limits under which the agents run
pub record SameLimits (cfg other : GatewayConfig) : Type 0 where
  background : limits_of other ≡ limits_of cfg
  code : Loop.read_limits other ≡ Loop.read_limits cfg
  memory : Memory.read_limits other ≡ Memory.read_limits cfg
  search : from_config other ≡ from_config cfg
  advanced : Advanced.read_limits other ≡ Advanced.read_limits cfg

model_lem : (o : Option AgentConfig) → (unwrap_or o no_agent).model ≡ and_then o (λ a. a.model)
model_lem none = refl
model_lem (some a) = refl

pub model_key_lem :
    (cfg : GatewayConfig) (kind : AgentKind)
    → model_key_of (populate_default_agents cfg) kind ≡ model_key_of cfg kind
unfolding populate_default_agents model_key_of agent_config
model_key_lem cfg main =
    rw (block_lem (λ s. s.main) cfg.agents refl)
      (rw (model_lem (and_then cfg.agents (λ s. s.main))) refl)
model_key_lem cfg code =
    rw (block_lem (λ s. s.code) cfg.agents refl)
      (rw (model_lem (and_then cfg.agents (λ s. s.code))) refl)
model_key_lem cfg memory =
    rw (block_lem (λ s. s.memory) cfg.agents refl)
      (rw (model_lem (and_then cfg.agents (λ s. s.memory))) refl)
model_key_lem cfg search =
    rw (block_lem (λ s. s.search) cfg.agents refl)
      (rw (model_lem (and_then cfg.agents (λ s. s.search))) refl)
model_key_lem cfg advanced =
    rw (block_lem (λ s. s.advanced) cfg.agents refl)
      (rw (model_lem (and_then cfg.agents (λ s. s.advanced))) refl)

pub populate-SameLimits : (cfg : GatewayConfig) → SameLimits cfg (populate_default_agents cfg)
unfolding populate_default_agents limits_of Loop.read_limits Memory.read_limits Advanced.read_limits
    from_config agent_config
populate-SameLimits cfg =
    let limit = limit_lem cfg in
    record {
      background = λ i. record {
        code_max = limit (λ s. s.code) (λ a. a.max_concurrent) 2 refl refl i;
        search_max = limit (λ s. s.search) (λ a. a.max_concurrent) 3 refl refl i;
        advanced_max = limit (λ s. s.advanced) (λ a. a.max_concurrent) 1 refl refl i;
        task_log_max = limit (λ s. s.main) (λ a. a.task_log_max_entries) 50 refl refl i;
      };
      code = λ i. record {
        max_iterations = limit (λ s. s.code) (λ a. a.max_iterations) 5 refl refl i;
        max_output_tokens = limit (λ s. s.code) (λ a. a.max_output_tokens) 500 refl refl i;
        exec_timeout_secs = limit (λ s. s.code) (λ a. a.exec_timeout_secs) 120 refl refl i;
      };
      memory = λ i. (
        limit (λ s. s.memory) (λ a. a.turn_interval) 5 refl refl i,
        limit (λ s. s.memory) (λ a. a.max_words) 500 refl refl i,
      );
      search = λ i. record {
        max_results = limit (λ s. s.search) (λ a. a.max_results) 10 refl refl i;
        max_news = limit (λ s. s.search) (λ a. a.max_news) 5 refl refl i;
        max_people_also_ask = limit (λ s. s.search) (λ a. a.max_people_also_ask) 5 refl refl i;
        max_total_tokens = limit (λ s. s.search) (λ a. a.max_total_tokens) 16000 refl refl i;
        max_total_tokens_thorough =
            limit (λ s. s.search) (λ a. a.max_total_tokens_thorough) 32000 refl refl i;
        max_page_tokens = limit (λ s. s.search) (λ a. a.max_page_tokens) 4000 refl refl i;
        fetch_timeout_secs = limit (λ s. s.search) (λ a. a.fetch_timeout_secs) 15 refl refl i;
      };
      advanced = λ i. record {
        max_steps = limit (λ s. s.advanced) (λ a. a.max_iterations) 20 refl refl i;
        total_timeout_secs = limit (λ s. s.advanced) (λ a. a.exec_timeout_secs) 900 refl refl i;
        code_max_output = limit (λ s. s.advanced) (λ a. a.max_output_tokens) 500 refl refl i;
      };
    }
