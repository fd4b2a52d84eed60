-- ===== src/Tests/Providers.antt =====
-- src/provider: the stream of an answer, the bodies of a request, and a run over a provider.
use rabb1t_claw.Base.{
  List, trim, trim_start, trim_end, is_whitespace, starts_with, strip_prefix, from_utf8_lossy,
  text_eq, none, some, Option, [], ◌∷◌, ◌++◌, ◌≡◌, refl, Text, codes,
}
use rabb1t_claw.Agent.Request.{ChatRequest}
use rabb1t_claw.Agent.Streaming.{start_progress, stream_agent_response}
use rabb1t_claw.Agent.Streaming.Answered.{Answered, run-Answered}
use rabb1t_claw.Budget.{ChatMessage}
use rabb1t_claw.Config.Resolve.{LlmProvider}
use rabb1t_claw.Provider.{
  Piece, bytes, Reply, accepted, process_pieces, scan_lines, position, line_chunk,
  process_sse_stream, send_and_stream,
}
use rabb1t_claw.Provider.Anthropic.{anthropic_body}
use rabb1t_claw.Provider.Bodies.{bodies_agree, spoken, instructions, last_or}
use rabb1t_claw.Provider.Client.{Serde, Body, chat_stream, parse_data_of, name_of, body_of}
use rabb1t_claw.Provider.Ends.{Terminated, send_and_stream-Terminated, parse_openai_sse-Quiet}
use rabb1t_claw.Provider.Lines.{events_then, delivered, ending, process-events}
use rabb1t_claw.Provider.OpenAi.{OpenAiStreamChunk, parse_openai_sse, openai_body, system_message}
use rabb1t_claw.Stream.{text, done}
use rabb1t_claw.Tests.Fixtures.{a_job, a_stream_env}
use rabb1t_claw.Tests.Runs.{a_state}

-- an event with its own text as the content
abbrev echoed : Text → Option OpenAiStreamChunk
echoed t = some (record {
  choices = record { delta = some (record { content = some t; reasoning_content = none }) } ∷ [];
})

-- two events in three pieces, the second one cut in its line
abbrev some_pieces : List Piece
some_pieces =
    bytes (codes ": hello\ndata: Hi\n\nda")
    ∷ bytes (codes "ta: [DONE]")
    ∷ bytes (codes "\r\nignored")
    ∷ []

process-events_example :
    process_sse_stream (parse_openai_sse echoed) some_pieces
    ≡ events_then
        (parse_openai_sse echoed)
        []
        (delivered some_pieces)
        (λ l. ending some_pieces ∷ [])
process-events_example = process-events (parse_openai_sse echoed) some_pieces

process_run :
    process_sse_stream (parse_openai_sse echoed) some_pieces ≡ text (codes "Hi") ∷ done ∷ []
unfolding process_sse_stream process_pieces scan_lines position line_chunk parse_openai_sse trim
    trim_start trim_end is_whitespace starts_with strip_prefix from_utf8_lossy text_eq
process_run = refl

send_and_stream-Terminated_example :
    Terminated (send_and_stream (parse_openai_sse echoed) (codes "OpenAI") (accepted some_pieces))
send_and_stream-Terminated_example =
    send_and_stream-Terminated (parse_openai_sse echoed) (parse_openai_sse-Quiet echoed)
      (codes "OpenAI") (accepted some_pieces)

abbrev says : Text → Text → ChatMessage
says role content = record { role = role; content = content }

abbrev a_request : ChatRequest
a_request = record (a_job none).request {
  system = some (codes "Be brief.");
  messages =
      says (codes "user") (codes "Hi")
      ∷ says (codes "system") (codes "Be kind.")
      ∷ says (codes "assistant") (codes "Hello")
      ∷ [];
}

bodies_agree_example :
    ((openai_body a_request).messages
      ≡ system_message a_request.system ++ spoken a_request.messages)
    × ((anthropic_body a_request).messages ≡ spoken a_request.messages)
    × ((anthropic_body a_request).system
        ≡ last_or a_request.system (instructions a_request.messages))
bodies_agree_example = bodies_agree a_request

abbrev a_serde : Serde
a_serde = record { openai_event = echoed; anthropic_event = λ t. none }

abbrev a_provider : LlmProvider
a_provider = (a_job none).provider

abbrev a_network : Body → Reply
a_network body = accepted some_pieces

run-Answered_example :
    Answered
      (a_job none)
      start_progress
      (send_and_stream
        (parse_data_of a_serde a_provider.kind)
        (name_of a_provider.kind)
        (a_network (body_of a_provider.kind a_request)))
      (stream_agent_response a_stream_env
        (a_job none)
        a_state
        []
        (chat_stream a_serde a_provider a_network a_request))
run-Answered_example =
    run-Answered a_serde a_provider a_network a_request a_stream_env (a_job none) a_state []
