-- ===== src/Tests/Defaults.antt =====
-- src/cli/defaults.rs on a small configuration.
use rabb1t_claw.Base.{none, some, [], ◌∷◌, ◌≡◌, refl, Text, codes, lookup, text_eq, starts_with}
use rabb1t_claw.Agent.Advanced.Compress.{user_message}
use rabb1t_claw.Config.{GatewayConfig, ModelConfig, default_config, memory, agent_config}
use rabb1t_claw.Config.Defaults.{
  populate_default_agents, apply_smart_defaults, anthropic_supports_extended_thinking,
}
use rabb1t_claw.Config.Defaults.Rejected.{IsOverBudget, populate-IsOverBudget}
use rabb1t_claw.Config.Resolve.{ResolvedAgentModel, resolve_agent_model, model_key_of}
use rabb1t_claw.Tests.Accounts.{a_model, a_provider}

abbrev same : Text → Text
same t = t

abbrev a_claude : ModelConfig
a_claude = record a_model { model_id = codes "claude-sonnet-4-20250514" }

abbrev claude_config : GatewayConfig
claude_config = record default_config {
  providers = (codes "p", a_provider) ∷ [];
  models = (codes "m", apply_smart_defaults same a_claude (codes "anthropic")) ∷ [];
  active_model = some (codes "m");
}

populate-IsOverBudget_example :
    (r : ResolvedAgentModel) × (resolve_agent_model (populate_default_agents claude_config) memory
      ≡ some r)
    × IsOverBudget r (user_message (codes "Hi") ∷ []) none
populate-IsOverBudget_example =
    populate-IsOverBudget same claude_config (codes "m") a_claude a_provider
      (user_message (codes "Hi") ∷ []) none
      (unfold anthropic_supports_extended_thinking starts_with in refl)
      (unfold model_key_of agent_config in refl) (unfold lookup text_eq in refl)
      (unfold lookup text_eq in refl) (unfold agent_config in refl) (unfold agent_config in refl)
