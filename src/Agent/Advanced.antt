-- ===== src/Agent/Advanced.antt =====
-- src/agent/advanced/agent.rs: the directives of an advanced agent, its limits, and what its model
-- and its sandbox are told of the API keys. The log file of a task is only written.
pub mod Compress
pub mod Directives
pub mod Run
use rabb1t_claw.Base.{
  ℕ, zero, suc, ◌+◌, Bool, true, false, Option, none, some, List, [], ◌∷◌, ◌++◌, if◌then◌else◌, ltb,
  Text, codes, text_eq, find, trim, join, map, unwrap_or, and_then, map_or, contains, length, take,
  drop, is_empty, TextMap,
}
use rabb1t_claw.Agent.Request.{replace}
use rabb1t_claw.Config.{GatewayConfig, ProviderConfig, agent_config, advanced}

pub data Directive : Type 0 where
  code search question done : Text → Directive

abbrev pub content_of : Directive → Text
content_of (code s) = s
content_of (search s) = s
content_of (question s) = s
content_of (done s) = s

abbrev pub label : Directive → Text
label (code s) = codes "code"
label (search s) = codes "search"
label (question s) = codes "question"
label (done s) = codes "done"

abbrev pub fence : Text
fence = codes "```"

-- the directive of a fence of some type, if it is one
unfoldable pub directive_of : Text → Text → Option Directive
directive_of fence_type content =
    if text_eq fence_type (codes "code")
    then some (code content)
    else if text_eq fence_type (codes "search")
    then some (search content)
    else if text_eq fence_type (codes "question")
    then some (question content)
    else if text_eq fence_type (codes "done")
    then some (done content)
    else none

abbrev pub pushed : Option Directive → List Directive → List Directive
pushed none rest = rest
pushed (some d) rest = d ∷ rest

-- the length of the line behind a fence, and where the content begins
abbrev pub type_end_of : Text → ℕ
type_end_of after_fence = unwrap_or (find (codes "\n") after_fence) (length after_fence)

abbrev pub content_start_of : Text → ℕ
content_start_of after_fence =
    let type_end = type_end_of after_fence in
    if ltb type_end (length after_fence) then type_end + 1 else type_end

-- the loop, over the text from `search_from` on; each round passes a fence
unfoldable pub directives_from : ℕ → Text → List Directive
directives_from zero remaining = []
directives_from (suc fuel) remaining = elim (find fence remaining) [
  | none ↦ []
  | some fence_start ↦
      let after_fence = drop (fence_start + 3) remaining in
      let behind = drop (content_start_of after_fence) after_fence in
      elim (find fence behind) [
        | none ↦ directives_from fuel after_fence
        | some close ↦
            pushed
              (directive_of (trim (take (type_end_of after_fence) after_fence))
                (trim (take close behind)))
              (directives_from fuel (drop (close + 3) behind))
      ]
]

unfoldable pub parse_directives : Text → List Directive
parse_directives response = directives_from (suc (length response)) response

abbrev pub default_advanced_max_steps : ℕ
default_advanced_max_steps = 20

abbrev pub default_advanced_total_timeout_secs : ℕ
default_advanced_total_timeout_secs = 900

abbrev pub default_advanced_code_max_output_tokens : ℕ
default_advanced_code_max_output_tokens = 500

pub record AdvancedLimits : Type 0 where
  pub max_steps : ℕ
  pub total_timeout_secs : ℕ
  pub code_max_output : ℕ

unfoldable pub read_limits : GatewayConfig → AdvancedLimits
read_limits cfg =
    let ac = agent_config cfg advanced in
    record {
      max_steps = unwrap_or (and_then ac (λ a. a.max_iterations)) default_advanced_max_steps;
      total_timeout_secs =
          unwrap_or (and_then ac (λ a. a.exec_timeout_secs)) default_advanced_total_timeout_secs;
      code_max_output =
          unwrap_or (and_then ac (λ a. a.max_output_tokens))
            default_advanced_code_max_output_tokens;
    }

-- `to_uppercase` is Unicode's; `env` is the environment of the process.
module _ (to_uppercase : Text → Text) (env : Text → Option Text) where
  unfoldable pub provider_vars : TextMap ProviderConfig → List (Text × Text)
  provider_vars [] = []
  provider_vars ((name, provider) ∷ providers) =
      (replace (to_uppercase name) (codes "-") (codes "_") ++ codes "_API_KEY", provider.api_key)
      ∷ provider_vars providers

  -- the loop over the common names
  unfoldable pub with_common : List Text → List (Text × Text) → List (Text × Text)
  with_common [] vars = vars
  with_common (key ∷ keys) vars = with_common keys (
      map_or (env key) vars
        λ value. if contains (map (λ v. v.0) vars) key then vars else vars ++ (key, value) ∷ [])

  unfoldable pub collect_api_env_vars : GatewayConfig → List (Text × Text)
  unfolding provider_vars with_common
  collect_api_env_vars cfg =
      with_common (codes "OPENAI_API_KEY" ∷ codes "ANTHROPIC_API_KEY" ∷ codes "SERP_API_KEY" ∷ [])
        (provider_vars cfg.providers)

abbrev key_lines : List (Text × Text) → Text
key_lines [] = []
key_lines ((key, value) ∷ vars) = codes "- `" ++ (key ++ (codes "`\n" ++ key_lines vars))

unfoldable pub format_api_availability : List (Text × Text) → Text
format_api_availability vars =
    if is_empty vars
    then codes "No API keys are available in the sandbox environment."
    else codes
        "The following API keys are available as environment variables in the code sandbox:\n"
      ++ key_lines vars

unfoldable pub format_error_with_progress : Text → List Text → Text
format_error_with_progress base progress =
    if is_empty progress
    then base
    else base ++ (codes " — progress: " ++ join (codes "; ") progress)
