-- ===== src/Provider/Anthropic.antt =====
-- src/provider/anthropic.rs: the events of an Anthropic stream and the body of a request. An event
-- is what `serde_json` reads from its text.
use rabb1t_claw.Base.{
  ℕ, Bool, true, false, Option, none, some, List, [], ◌∷◌, if◌then◌else◌, Text, codes, text_eq,
  unwrap_or, and_then, is_some,
}
use rabb1t_claw.Agent.Request.{ChatRequest}
use rabb1t_claw.Budget.{ChatMessage}
use rabb1t_claw.Config.{ThinkingConfig, is_text}
use rabb1t_claw.Provider.OpenAi.{is_system, text_chunk}
use rabb1t_claw.Stream.{StreamChunk, done}

abbrev pub default_thinking_budget_tokens_anthropic : ℕ
default_thinking_budget_tokens_anthropic = 10000

abbrev pub default_model_max_tokens : ℕ
default_model_max_tokens = 4096

pub record AnthropicDelta : Type 0 where
  pub delta_type : Option Text
  pub delta_text : Option Text

pub record AnthropicContentBlock : Type 0 where
  pub block_type : Text

pub record AnthropicStreamEvent : Type 0 where
  pub event_type : Text
  pub delta : Option AnthropicDelta
  pub content_block : Option AnthropicContentBlock

-- the text of a delta that is not the model's thinking
abbrev pub delta_chunk : AnthropicDelta → Option StreamChunk
delta_chunk delta =
    if is_text delta.delta_type (codes "thinking_delta")
    then none
    else and_then delta.delta_text text_chunk

abbrev pub event_chunk : AnthropicStreamEvent → Option StreamChunk
event_chunk event =
    if text_eq event.event_type (codes "content_block_start")
    then none
    else if text_eq event.event_type (codes "content_block_delta")
    then and_then event.delta delta_chunk
    else if text_eq event.event_type (codes "message_stop")
    then some done
    else none

unfoldable pub parse_anthropic_sse :
    (Text → Option AnthropicStreamEvent) → Text → Option StreamChunk
parse_anthropic_sse from_str event = and_then (from_str event) event_chunk

pub record AnthropicThinking : Type 0 where
  pub thinking_type : Text
  pub budget_tokens : ℕ

-- an `AnthropicMessage` is a `ChatMessage` here
pub record AnthropicRequest : Type 0 where
  pub model : Text
  pub messages : List ChatMessage
  pub max_tokens : ℕ
  pub system : Option Text
  pub temperature : Option ℕ
  pub top_p : Option ℕ
  pub thinking : Option AnthropicThinking
  pub stream : Bool

-- the loop over the messages: one of the role `system` replaces the system prompt
unfoldable pub split_system : Option Text → List ChatMessage → Option Text × List ChatMessage
split_system system [] = (system, [])
split_system system (m ∷ ms) = elim (is_system m) [
  | true ↦ split_system (some m.content) ms
  | false ↦ (let (last, rest) = split_system system ms in (last, m ∷ rest))
]

abbrev thinking_of : Option ThinkingConfig → Option AnthropicThinking
thinking_of none = none
thinking_of (some t) =
    if t.enabled
    then some (record {
      thinking_type = codes "enabled";
      budget_tokens = unwrap_or t.budget_tokens default_thinking_budget_tokens_anthropic;
    })
    else none

unfoldable pub anthropic_body : ChatRequest → AnthropicRequest
unfolding split_system
anthropic_body request =
    let (system, messages) = split_system request.system request.messages in
    let thinking = thinking_of request.thinking in
    record {
      model = request.model;
      messages = messages;
      max_tokens = unwrap_or request.max_tokens default_model_max_tokens;
      system = system;
      temperature = if is_some thinking then none else request.temperature;
      top_p = request.top_p;
      thinking = thinking;
      stream = true;
    }
