-- ===== src/Agent/Streaming/Answered.antt =====
-- The responses of a run over the stream of a provider.
use rabb1t_claw.Base.{
  ℕ, none, some, Option, List, [], ◌∷◌, ◌++◌, inl, inr, ◌≡◌, refl, ap, ◌∙◌, sym, subst,
  Option-cases, Text, ◌+◌, length,
}
use rabb1t_claw.Agent.Request.{StreamJob, ChatRequest}
use rabb1t_claw.Agent.Streaming.{
  Progress, StreamEnv, Ended, start_progress, on_text, finish, final_text, run_chunks,
  stream_agent_response, also_sent, cleaned, emit_deltas, last_deltas,
}
use rabb1t_claw.Agent.Streaming.Shown.{after_texts}
use rabb1t_claw.Config.Resolve.{LlmProvider, ProviderKind, openai, anthropic}
use rabb1t_claw.Events.{emit_stream_delta, emit_stream_done, emit_run_error}
use rabb1t_claw.Markers.{strip_task_markers}
use rabb1t_claw.Protocol.{OutgoingFrame, response, event, close}
use rabb1t_claw.Provider.{Reply, send_and_stream}
use rabb1t_claw.Provider.Client.{Serde, Body, chat_stream, parse_data_of, name_of, body_of}
use rabb1t_claw.Provider.Ends.{
  Terminated, Quiet, send_and_stream-Terminated, parse_openai_sse-Quiet, parse_anthropic_sse-Quiet,
}
use rabb1t_claw.Session.{Disk}
use rabb1t_claw.State.{GatewayState}
use rabb1t_claw.Stream.{StreamChunk, text, done, error}

-- the requests that some frames answer
unfoldable pub answered_ids : List OutgoingFrame → List Text
answered_ids [] = []
answered_ids (response r ∷ frames) = r.id ∷ answered_ids frames
answered_ids (event e ∷ frames) = answered_ids frames
answered_ids (close c reason ∷ frames) = answered_ids frames

answered_ids-append :
    (xs ys : List OutgoingFrame) → answered_ids (xs ++ ys) ≡ answered_ids xs ++ answered_ids ys
unfolding answered_ids
answered_ids-append [] ys = refl
answered_ids-append (response r ∷ xs) ys = ap (r.id ∷◌) (answered_ids-append xs ys)
answered_ids-append (event e ∷ xs) ys = answered_ids-append xs ys
answered_ids-append (close c reason ∷ xs) ys = answered_ids-append xs ys

-- the texts of a stream, up to its end
abbrev pub streamed : List Text → List StreamChunk
streamed [] = done ∷ []
streamed (t ∷ ts) = text t ∷ streamed ts

-- The stream is texts and an end without an error, and stripping the whole of them panics.
abbrev pub Panics : Progress → List StreamChunk → Type 0
Panics p chunks =
    (ts : List Text) × (chunks ≡ streamed ts)
    × (strip_task_markers (final_text (after_texts p ts)) ≡ none)

-- one response, to the request of the run, or the panic of stripping its own text
abbrev pub Answered : StreamJob → Progress → List StreamChunk → Option Ended → Type 0
Answered job p chunks none = Panics p chunks
Answered job p chunks (some r) = answered_ids r.sent ≡ job.request_id ∷ []

module _ (env : StreamEnv) (job : StreamJob) where
  emit_deltas-answered :
      (now seq : ℕ) (deltas : List Text) → answered_ids (emit_deltas job now seq deltas) ≡ []
  unfolding emit_deltas answered_ids emit_stream_delta
  emit_deltas-answered now seq [] = refl
  emit_deltas-answered now seq (d ∷ deltas) = emit_deltas-answered now (seq + 1) deltas

  text-Answered :
      (p : Progress) (t : Text) (chunks : List StreamChunk) (frames : List OutgoingFrame)
      (o : Option Ended)
      → answered_ids frames ≡ []
      → Answered job (on_text p t).0 chunks o
      → Answered job p (text t ∷ chunks) (also_sent frames o)
  unfolding after_texts
  text-Answered p t chunks frames none e (ts, same, panics) = (t ∷ ts, ap (text t ∷◌) same, panics)
  text-Answered p t chunks frames (some r) e h =
      answered_ids-append frames r.sent ∙ (ap (◌++ answered_ids r.sent) e ∙ h)

  finish-Answered :
      (s : GatewayState) (disk : Disk) (p : Progress)
      → Answered job p (done ∷ []) (finish env job s disk p)
  unfolding finish emit_stream_done answered_ids after_texts
  finish-Answered s disk p = elim (Option-cases (strip_task_markers (final_text p))) [
    | inl e ↦ rw (e, Answered) ([], refl, e)
    | inr (clean, e) ↦
        rw (e, Answered)
          (let sent = emit_deltas job env.now p.seq (last_deltas p) in
            answered_ids-append sent (
              emit_stream_done job.run_id job.request_id job.session_key
                (p.seq + length (last_deltas p)) env.started_at env.now clean)
            ∙ ap (◌++ job.request_id ∷ []) (emit_deltas-answered env.now p.seq (last_deltas p)))
  ]

  run_chunks-Answered :
      (s : GatewayState) (disk : Disk) (p : Progress) (chunks : List StreamChunk)
      → Terminated chunks
      → Answered job p chunks (run_chunks env job s disk p chunks)
  unfolding run_chunks emit_run_error answered_ids
  run_chunks-Answered s disk p [] h = absurd h
  run_chunks-Answered s disk p (text t ∷ chunks) h =
      let (p', deltas) = on_text p t in
      text-Answered p t chunks (emit_deltas job env.now p.seq deltas)
        (run_chunks env job s disk p' chunks) (emit_deltas-answered env.now p.seq deltas)
        (run_chunks-Answered s disk p' chunks h)
  run_chunks-Answered s disk p (done ∷ chunks) h =
      subst (λ cs. Answered job p (done ∷ cs) (finish env job s disk p)) (sym h)
        (finish-Answered s disk p)
  run_chunks-Answered s disk p (error e ∷ chunks) h = refl

  Answered-cleaned :
      (at : ℕ) (p : Progress) (chunks : List StreamChunk) (o : Option Ended)
      → Answered job p chunks o
      → Answered job p chunks (cleaned job at o)
  unfolding answered_ids
  Answered-cleaned at p chunks none h = h
  Answered-cleaned at p chunks (some r) h = h

parse_data_of-Quiet : (serde : Serde) (kind : ProviderKind) → Quiet (parse_data_of serde kind)
unfolding parse_data_of
parse_data_of-Quiet serde openai = parse_openai_sse-Quiet serde.openai_event
parse_data_of-Quiet serde anthropic = parse_anthropic_sse-Quiet serde.anthropic_event

-- Whatever a provider's server and the network do, the run over its stream sends exactly one
-- response, to the request of its job; or the stream is texts and its end, without an error, and
-- the run panics in stripping the text that it has put together of them.
pub run-Answered :
    (serde : Serde) (provider : LlmProvider) (network : Body → Reply) (request : ChatRequest)
    (env : StreamEnv) (job : StreamJob) (s : GatewayState) (disk : Disk)
    → Answered job start_progress
        (send_and_stream
          (parse_data_of serde provider.kind)
          (name_of provider.kind)
          (network (body_of provider.kind request)))
        (stream_agent_response env job s disk (chat_stream serde provider network request))
unfolding stream_agent_response chat_stream
run-Answered serde provider network request env job s disk =
    let sent =
      send_and_stream (parse_data_of serde provider.kind) (name_of provider.kind)
        (network (body_of provider.kind request)) in
    Answered-cleaned env job env.started_at start_progress sent
      (run_chunks env job s disk start_progress sent)
      (run_chunks-Answered env job s disk start_progress sent (
        send_and_stream-Terminated (parse_data_of serde provider.kind)
          (parse_data_of-Quiet serde provider.kind) (name_of provider.kind)
          (network (body_of provider.kind request))))
