-- ===== src/Provider/Client.antt =====
-- `chat_stream` of src/provider/openai.rs and src/provider/anthropic.rs: what the channel of a run
-- delivers, for a reply of the network.
use rabb1t_claw.Base.{Option, Text, codes}
use rabb1t_claw.Agent.Request.{ChatRequest}
use rabb1t_claw.Agent.Streaming.{ChatStream, opened}
use rabb1t_claw.Config.Resolve.{LlmProvider, ProviderKind}
use rabb1t_claw.Provider.{Reply, send_and_stream}
use rabb1t_claw.Provider.OpenAi.{OpenAiStreamChunk, OpenAiRequest, parse_openai_sse, openai_body}
use rabb1t_claw.Provider.Anthropic.{
  AnthropicStreamEvent, AnthropicRequest, parse_anthropic_sse, anthropic_body,
}
use rabb1t_claw.Stream.{StreamChunk}

-- `serde_json::from_str` at the two types of events
pub record Serde : Type 0 where
  pub openai_event : Text → Option OpenAiStreamChunk
  pub anthropic_event : Text → Option AnthropicStreamEvent

pub data Body : Type 0 where
  openai : OpenAiRequest → Body
  anthropic : AnthropicRequest → Body

unfoldable pub parse_data_of : Serde → ProviderKind → Text → Option StreamChunk
parse_data_of serde ProviderKind.openai = parse_openai_sse serde.openai_event
parse_data_of serde ProviderKind.anthropic = parse_anthropic_sse serde.anthropic_event

abbrev pub name_of : ProviderKind → Text
name_of ProviderKind.openai = codes "OpenAI"
name_of ProviderKind.anthropic = codes "Anthropic"

abbrev pub body_of : ProviderKind → ChatRequest → Body
body_of ProviderKind.openai request = Body.openai (openai_body request)
body_of ProviderKind.anthropic request = Body.anthropic (anthropic_body request)

-- the server's reply depends on the body
unfoldable pub chat_stream : Serde → LlmProvider → (Body → Reply) → ChatRequest → ChatStream
chat_stream serde provider network request = opened (
    send_and_stream (parse_data_of serde provider.kind) (name_of provider.kind)
      (network (body_of provider.kind request)))
