-- ===== src/Provider/Ends.antt =====
-- How the stream of a provider ends.
use rabb1t_claw.Base.{
  none, some, Option, List, [], ◌∷◌, ◌++◌, inl, inr, ◌≡◌, ◌≢◌, refl, sym, subst, arith, ◌==◌,
  Bool-cases, Option-cases, Bytes, Text, strip_prefix, trim, from_utf8_lossy, codes,
}
use rabb1t_claw.Provider.{
  Piece, bytes, failed, line_chunk, Reply, unreachable, refused, accepted, send_and_stream,
}
use rabb1t_claw.Provider.Lines.{sent_then, events_then, delivered, ending, process-events}
use rabb1t_claw.Provider.OpenAi.{OpenAiStreamChunk, parse_openai_sse}
use rabb1t_claw.Provider.Anthropic.{AnthropicStreamEvent, parse_anthropic_sse}
use rabb1t_claw.Stream.{StreamChunk, text, done, error}

-- texts, and then `Done` or an error, which is the last
abbrev pub Terminated : List StreamChunk → Type 0
Terminated [] = ⊥
Terminated (text t ∷ chunks) = Terminated chunks
Terminated (done ∷ chunks) = chunks ≡ []
Terminated (error e ∷ chunks) = chunks ≡ []

-- the events of a provider are texts and `Done`
abbrev pub Quiet : (Text → Option StreamChunk) → Type 0
Quiet parse_data = (t e : Text) → parse_data t ≢ some (error e)

pub parse_openai_sse-Quiet :
    (from_str : Text → Option OpenAiStreamChunk) → Quiet (parse_openai_sse from_str)
unfolding parse_openai_sse
parse_openai_sse-Quiet from_str t e h = ground arith

pub parse_anthropic_sse-Quiet :
    (from_str : Text → Option AnthropicStreamEvent) → Quiet (parse_anthropic_sse from_str)
unfolding parse_anthropic_sse
parse_anthropic_sse-Quiet from_str t e h = ground arith

module _ (parse_data : Text → Option StreamChunk) (quiet : Quiet parse_data) where
  line_chunk-Quiet : (raw : Bytes) (e : Text) → line_chunk parse_data raw ≢ some (error e)
  unfolding line_chunk
  line_chunk-Quiet raw e h =
      elim (Option-cases (strip_prefix (trim (from_utf8_lossy raw)) (codes "data: "))) [
        | inl other ↦ ground (arith, other, h)
        | inr (event, found) ↦ ground (arith, found, h, quiet event e)
      ]

  sent_then-Terminated :
      (o : Option StreamChunk) (rest : List StreamChunk)
      → ((e : Text) → o ≢ some (error e))
      → Terminated rest
      → Terminated (sent_then o rest)
  sent_then-Terminated none rest q h = h
  sent_then-Terminated (some (text t)) rest q h = h
  sent_then-Terminated (some done) rest q h = refl
  sent_then-Terminated (some (error e)) rest q h = absurd (q e refl)

  events_then-Terminated :
      (line bs : Bytes) (after : Bytes → List StreamChunk)
      → ((l : Bytes) → Terminated (after l))
      → Terminated (events_then parse_data line bs after)
  unfolding events_then
  events_then-Terminated line [] after h = h line
  events_then-Terminated line (b ∷ bs) after h = elim (Bool-cases (b == 10)) [
    | inl e ↦
        rw (events_then, e)
          (sent_then-Terminated (line_chunk parse_data line) (events_then parse_data [] bs after)
            (line_chunk-Quiet line) (events_then-Terminated [] bs after h))
    | inr e ↦ rw (events_then, e) (events_then-Terminated (line ++ b ∷ []) bs after h)
  ]

  ending-Terminated : (pieces : List Piece) → Terminated (ending pieces ∷ [])
  unfolding ending
  ending-Terminated [] = refl
  ending-Terminated (bytes chunk ∷ pieces) = ending-Terminated pieces
  ending-Terminated (failed e ∷ pieces) = refl

  -- Whatever the network and the server do, what is sent to the channel is texts, and then exactly
  -- one `Done` or error, behind which nothing is sent, where no event parses to an error.
  pub send_and_stream-Terminated :
      (provider_name : Text) (reply : Reply)
      → Terminated (send_and_stream parse_data provider_name reply)
  unfolding send_and_stream
  send_and_stream-Terminated provider_name (unreachable e) = refl
  send_and_stream-Terminated provider_name (refused status body) = refl
  send_and_stream-Terminated provider_name (accepted pieces) =
      subst Terminated (sym (process-events parse_data pieces)) (
        events_then-Terminated [] (delivered pieces) (λ l. ending pieces ∷ [])
          (λ l. ending-Terminated pieces))
