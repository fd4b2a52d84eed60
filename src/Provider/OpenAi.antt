-- ===== src/Provider/OpenAi.antt =====
-- src/provider/openai.rs: the events of an OpenAI-compatible stream and the body of a request. An
-- event is what `serde_json` reads from its text, of which the gateway looks only at `content`.
use rabb1t_claw.Base.{
  ℕ, ◌+◌, Bool, true, not, ◌&&◌, ◌||◌, Option, none, some, List, [], ◌∷◌, ◌++◌, if◌then◌else◌, map,
  Text, codes, text_eq, starts_with, ◌>>=◌, is_empty, leb, map_or,
}
use rabb1t_claw.Agent.Request.{ChatRequest}
use rabb1t_claw.Budget.{ChatMessage}
use rabb1t_claw.Stream.{StreamChunk, text, done}

pub record OpenAiDelta : Type 0 where
  pub content : Option Text
  pub reasoning_content : Option Text

pub record OpenAiStreamChoice : Type 0 where
  pub delta : Option OpenAiDelta

pub record OpenAiStreamChunk : Type 0 where
  pub choices : List OpenAiStreamChoice

abbrev first : List OpenAiStreamChoice → Option OpenAiStreamChoice
first [] = none
first (c ∷ cs) = some c

abbrev pub text_chunk : Text → Option StreamChunk
text_chunk content = if is_empty content then none else some (text content)

unfoldable pub parse_openai_sse : (Text → Option OpenAiStreamChunk) → Text → Option StreamChunk
parse_openai_sse from_str event = if text_eq event (codes "[DONE]") then some done else (do
  parsed ← from_str event
  choice ← first parsed.choices
  delta ← choice.delta
  content ← delta.content
  text_chunk content)

-- `to_lowercase`, for the ASCII prefixes that are compared: no other character is lowered to one
-- of their letters
abbrev lower : ℕ → ℕ
lower c = if leb b'A' c && leb c b'Z' then c + 32 else c

unfoldable pub is_reasoning_model : Text → Bool
is_reasoning_model model =
    let m = map lower model in
    starts_with m (codes "o1")
    || starts_with m (codes "o3")
    || starts_with m (codes "o4")
    || starts_with m (codes "gpt-5")

pub record ChatTemplateKwargs : Type 0 where
  pub enable_thinking : Bool

-- an `OpenAiMessage` is a `ChatMessage` here
pub record OpenAiRequest : Type 0 where
  pub model : Text
  pub messages : List ChatMessage
  pub max_tokens : Option ℕ
  pub max_completion_tokens : Option ℕ
  pub temperature : Option ℕ
  pub top_p : Option ℕ
  pub frequency_penalty : Option ℕ
  pub presence_penalty : Option ℕ
  pub reasoning_effort : Option Text
  pub chat_template_kwargs : Option ChatTemplateKwargs
  pub stream : Bool

abbrev pub is_system : ChatMessage → Bool
is_system m = text_eq m.role (codes "system")

-- the loop over the messages, which leaves out those of the role `system`
unfoldable pub pushed : List ChatMessage → List ChatMessage
pushed [] = []
pushed (m ∷ ms) = if not (is_system m) then m ∷ pushed ms else pushed ms

abbrev pub system_message : Option Text → List ChatMessage
system_message none = []
system_message (some system) = record { role = codes "system"; content = system } ∷ []

unfoldable pub openai_body : ChatRequest → OpenAiRequest
unfolding pushed
openai_body request =
    let reasoning = is_reasoning_model request.model in
    record {
      model = request.model;
      messages = system_message request.system ++ pushed request.messages;
      max_tokens = if reasoning then none else request.max_tokens;
      max_completion_tokens = if reasoning then request.max_tokens else none;
      temperature = if reasoning then none else request.temperature;
      top_p = request.top_p;
      frequency_penalty = request.frequency_penalty;
      presence_penalty = request.presence_penalty;
      reasoning_effort = if reasoning then request.reasoning_effort else none;
      chat_template_kwargs =
          map_or request.thinking none λ t. some (record { enable_thinking = t.enabled });
      stream = true;
    }
