-- ===== src/Config/Defaults/Rejected.antt =====
-- The memory agent of a configuration that `init` wrote, with a model that thinks.
use rabb1t_claw.Base.{
  ◌≤◌, true, Option, none, some, List, ◌≡◌, refl, arith, ap, ◌∙◌, and_then, unwrap_or, Text, codes,
  text_eq, lookup,
}
use rabb1t_claw.Agent.Request.{chat_request}
use rabb1t_claw.Budget.{ChatMessage}
use rabb1t_claw.Config.{
  AgentConfig, GatewayConfig, ModelConfig, ProviderConfig, AgentKind, memory, agent_config,
}
use rabb1t_claw.Config.Defaults.{
  thinking, with_tier, detect_tier, anthropic_supports_extended_thinking, apply_smart_defaults,
  populate_default_agents, no_agent, memory_defaults,
}
use rabb1t_claw.Config.Defaults.Limits.{model_key_lem, block_lem}
use rabb1t_claw.Config.Resolve.{ResolvedAgentModel, resolve_agent_model, resolve_with, model_key_of}
use rabb1t_claw.Provider.Anthropic.{AnthropicThinking, anthropic_body}

smart_lem :
    (to_lowercase : Text → Text) (mc : ModelConfig)
    → anthropic_supports_extended_thinking to_lowercase mc.model_id ≡ true
    → apply_smart_defaults to_lowercase mc (codes "anthropic") ≡ with_tier to_lowercase thinking mc
unfolding apply_smart_defaults detect_tier text_eq
smart_lem to_lowercase mc h = rw h refl

-- Thinking is on, and its budget is not below the tokens of the whole answer, which the API of Anthropic
-- rejects.
abbrev pub IsOverBudget : ResolvedAgentModel → List ChatMessage → Option Text → Type 0
IsOverBudget r messages system =
    let body = anthropic_body (chat_request r messages system) in
    (t : AnthropicThinking) × (body.thinking ≡ some t) × (body.max_tokens ≤ t.budget_tokens)

unset_lem :
    {A : Type 0} (f : AgentConfig → Option A) (o : Option AgentConfig)
    → f no_agent ≡ none
    → and_then o f ≡ none
    → f (unwrap_or o no_agent) ≡ none
unset_lem f none h e = h
unset_lem f (some a) h e = e

memory_config :
    (cfg : GatewayConfig)
    → agent_config (populate_default_agents cfg) memory
      ≡ some (memory_defaults (unwrap_or (agent_config cfg memory) no_agent))
unfolding agent_config populate_default_agents
memory_config cfg =
    ap (λ (o : Option AgentConfig). some (memory_defaults (unwrap_or o no_agent)))
      (block_lem (λ s. s.memory) cfg.agents refl)

-- what the memory agent's parameters come to
over_budget :
    (to_lowercase : Text → Text) (mc : ModelConfig) (pc : ProviderConfig) (a : AgentConfig)
    (messages : List ChatMessage) (system : Option Text)
    → a.max_tokens ≡ none
    → a.thinking ≡ none
    → IsOverBudget
        (resolve_with (some (memory_defaults a)) (with_tier to_lowercase thinking mc) pc)
        messages
        system
unfolding resolve_with anthropic_body chat_request
over_budget to_lowercase mc pc a messages system e f =
    rw (e, f) (record { thinking_type = codes "enabled"; budget_tokens = 10000 }, refl, omega arith)

resolve_lem :
    (cfg : GatewayConfig) (kind : AgentKind) (key : Text) (mc : ModelConfig) (pc : ProviderConfig)
    → model_key_of cfg kind ≡ some key
    → lookup key cfg.models ≡ some mc
    → lookup mc.provider cfg.providers ≡ some pc
    → resolve_agent_model cfg kind ≡ some (resolve_with (agent_config cfg kind) mc pc)
unfolding resolve_agent_model
resolve_lem cfg kind key mc pc k m p = rw (k, m, p) refl

-- Where a model of Anthropic that supports extended thinking was added with the smart defaults, the memory
-- agent uses it, and nothing is configured of the agent's tokens and thinking, the agent that `init` has
-- written the default limits for is resolved, and every request of it has thinking on with a budget that is not
-- below the tokens of the whole answer.
pub populate-IsOverBudget :
    (to_lowercase : Text → Text) (cfg : GatewayConfig) (key : Text) (mc : ModelConfig)
    (pc : ProviderConfig) (messages : List ChatMessage) (system : Option Text)
    → anthropic_supports_extended_thinking to_lowercase mc.model_id ≡ true
    → model_key_of cfg memory ≡ some key
    → lookup key cfg.models ≡ some (apply_smart_defaults to_lowercase mc (codes "anthropic"))
    → lookup mc.provider cfg.providers ≡ some pc
    → and_then (agent_config cfg memory) (λ a. a.max_tokens) ≡ none
    → and_then (agent_config cfg memory) (λ a. a.thinking) ≡ none
    → (r : ResolvedAgentModel) × (resolve_agent_model (populate_default_agents cfg) memory ≡ some r)
      × IsOverBudget r messages system
unfolding populate_default_agents
populate-IsOverBudget to_lowercase cfg key mc pc messages system h k m p t u =
    let a : AgentConfig = unwrap_or (agent_config cfg memory) no_agent in
    let smart : ModelConfig = with_tier to_lowercase thinking mc in
    let added : lookup key cfg.models ≡ some smart = m ∙ ap some (smart_lem to_lowercase mc h) in
    (
      resolve_with (some (memory_defaults a)) smart pc,
      resolve_lem (populate_default_agents cfg) memory key smart pc (model_key_lem cfg memory ∙ k)
            added p
          ∙ ap (λ (o : Option AgentConfig). some (resolve_with o smart pc)) (memory_config cfg),
      over_budget to_lowercase mc pc a messages system
          (unset_lem (λ c. c.max_tokens) (agent_config cfg memory) refl t)
          (unset_lem (λ c. c.thinking) (agent_config cfg memory) refl u),
    )
