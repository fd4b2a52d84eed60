-- ===== src/Agent/Streaming/Outcome.antt =====
-- What a run leaves behind: the keys of the runs in flight.
use mathlib.Core.Option.{some-injective, none-ne-some}
use rabb1t_claw.Base.{
  false, Option, none, some, List, [], ◌∷◌, if◌then◌else◌, inl, inr, ◌≡◌, refl, sym, ap, ◌∙◌, arith,
  Text, Option-cases,
}
use rabb1t_claw.Agent.Untouched.{dispatch-core, Core}
use rabb1t_claw.Agent.Request.{StreamJob, key_eq, in_flight, release}
use rabb1t_claw.Agent.Request.Keys.{key_eq_iff, key_eq_refl}
use rabb1t_claw.Agent.Streaming.{
  Progress, StreamEnv, Ended, ChatStream, opened, refused, start_progress, on_text, finish,
  keep_exchange, final_text, run_chunks, run_stream, stream_agent_response, record_exchange,
  with_sessions, also_sent, cleaned, emit_deltas,
}
use rabb1t_claw.Agent.Shared.{shared}
use rabb1t_claw.Devices.{DeviceStore}
use rabb1t_claw.Markers.{strip_task_markers}
use rabb1t_claw.Protocol.{OutgoingFrame}
use rabb1t_claw.Session.{Disk}
use rabb1t_claw.State.{GatewayState, RunKey, ConnectionRegistry}
use rabb1t_claw.Stream.{StreamChunk, text, done, error}

release-in_flight :
    (keys : List RunKey) (key k : RunKey)
    → in_flight (release keys key) k ≡ (if key_eq key k then false else in_flight keys k)
unfolding in_flight
release-in_flight [] key k = ground arith
release-in_flight (j ∷ keys) key k = ground (
  arith,
  key_eq_iff j key,
  key_eq_iff j k,
  key_eq_iff key k,
  key_eq_refl k,
  release-in_flight keys key k,
)

abbrev kept : GatewayState → List RunKey × (DeviceStore × ConnectionRegistry × List Text)
kept s = (s.active_requests, shared s)

abbrev OnSome : (Ended → Type 0) → Option Ended → Type 0
OnSome P none = Unit
OnSome P (some r) = P r

module _ (env : StreamEnv) (job : StreamJob) where
  -- nothing of this is changed before the end of a run
  abbrev Keeps : GatewayState → Ended → Type 0
  Keeps s r = kept r.state ≡ kept s

  keep_exchange-Keeps :
      (s : GatewayState) (disk : Disk) (token : Option Text) (full clean : Text)
      → Keeps s (keep_exchange env job s disk token full clean)
  unfolding keep_exchange
  keep_exchange-Keeps s disk none full clean = refl
  keep_exchange-Keeps s disk (some token) full clean =
      let recorded = record_exchange env job token (s.sessions, disk) clean in
      ap (λ (c : Core). (c.active_requests, (c.device_store, c.active_connections, c.shutdown)))
        (dispatch-core env.parse_json token env.now (with_sessions s recorded.0) full)

  finish-Keeps :
      (s : GatewayState) (disk : Disk) (p : Progress) → OnSome (Keeps s) (finish env job s disk p)
  unfolding finish
  finish-Keeps s disk p = elim (Option-cases (strip_task_markers (final_text p))) [
    | inl e ↦ rw (e, OnSome) tt
    | inr (clean, e) ↦
        rw (e, OnSome) (keep_exchange-Keeps s disk job.device_token (final_text p) clean)
  ]

  OnSome-also_sent :
      (s : GatewayState) (frames : List OutgoingFrame) (o : Option Ended)
      → OnSome (Keeps s) o
      → OnSome (Keeps s) (also_sent frames o)
  OnSome-also_sent s frames none h = tt
  OnSome-also_sent s frames (some r) h = h

  run_chunks-Keeps :
      (s : GatewayState) (disk : Disk) (p : Progress) (chunks : List StreamChunk)
      → OnSome (Keeps s) (run_chunks env job s disk p chunks)
  unfolding run_chunks
  run_chunks-Keeps s disk p [] = refl
  run_chunks-Keeps s disk p (text t ∷ chunks) =
      OnSome-also_sent s (emit_deltas job env.now p.seq (on_text p t).1)
        (run_chunks env job s disk (on_text p t).0 chunks)
        (run_chunks-Keeps s disk (on_text p t).0 chunks)
  run_chunks-Keeps s disk p (done ∷ chunks) = finish-Keeps s disk p
  run_chunks-Keeps s disk p (error e ∷ chunks) = refl

  run_stream-Keeps :
      (s : GatewayState) (disk : Disk) (stream : ChatStream)
      → OnSome (Keeps s) (run_stream env job s disk stream)
  run_stream-Keeps s disk (opened chunks) = run_chunks-Keeps s disk start_progress chunks
  run_stream-Keeps s disk (refused e) = refl

  cleaned-keys :
      (s : GatewayState) (o : Option Ended) (r : Ended) (k : RunKey)
      → OnSome (Keeps s) o
      → cleaned job env.started_at o ≡ some r
      → in_flight r.state.active_requests k
        ≡ (if key_eq job.dedup_key k then false else in_flight s.active_requests k)
  cleaned-keys s none r k h e = absurd (none-ne-some r e)
  cleaned-keys s (some q) r k h e =
      ap (λ (x : Ended). in_flight x.state.active_requests k) (sym (some-injective _ r e))
      ∙ ap (λ x. in_flight (release x.0 job.dedup_key) k) h
      ∙ release-in_flight s.active_requests job.dedup_key k

  -- However a run ends, by the end of the stream, an error, a refusal or a closed channel: unless it
  -- panics, its key is no longer in flight, and every other key is in flight as before.
  pub run-releases :
      (s : GatewayState) (disk : Disk) (stream : ChatStream) (r : Ended) (k : RunKey)
      → stream_agent_response env job s disk stream ≡ some r
      → in_flight r.state.active_requests k
        ≡ (if key_eq job.dedup_key k then false else in_flight s.active_requests k)
  unfolding stream_agent_response
  run-releases s disk stream r k e =
      cleaned-keys s (run_stream env job s disk stream) r k (run_stream-Keeps s disk stream) e

  cleaned-shared :
      (s : GatewayState) (o : Option Ended) (r : Ended)
      → OnSome (Keeps s) o
      → cleaned job env.started_at o ≡ some r
      → shared r.state ≡ shared s
  cleaned-shared s none r h e = absurd (none-ne-some r e)
  cleaned-shared s (some q) r h e =
      ap (λ (x : Ended). shared x.state) (sym (some-injective _ r e)) ∙ ap (λ x. x.1) h

  pub run-shared :
      (s : GatewayState) (disk : Disk) (stream : ChatStream) (r : Ended)
      → stream_agent_response env job s disk stream ≡ some r
      → shared r.state ≡ shared s
  unfolding stream_agent_response
  run-shared s disk stream r e =
      cleaned-shared s (run_stream env job s disk stream) r (run_stream-Keeps s disk stream) e
