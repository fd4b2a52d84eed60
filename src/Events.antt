-- ===== src/Events.antt =====
-- src/agent/events.rs: the frames of a streamed response, in the order in which they are sent.
use rabb1t_claw.Base.{ℕ, ◌+◌, List, [], ◌∷◌, Text, codes}
use rabb1t_claw.Json.{Json, str, num, object, array}
use rabb1t_claw.Protocol.{
  OutgoingFrame, response, event, new_event, with_payload, response_ok, response_error, unavailable,
}

abbrev pub default_session_key : Text
default_session_key = codes "default:main"

abbrev payload_event : Text → List (Text × Json) → OutgoingFrame
payload_event name entries = event (with_payload (new_event name) (object entries))

unfoldable pub emit_stream_delta : Text → Text → ℕ → ℕ → Text → List OutgoingFrame
emit_stream_delta run_id session_key seq now delta =
    payload_event (codes "agent") (
      (codes "runId", str run_id)
      ∷ (codes "seq", num seq)
      ∷ (codes "stream", str (codes "assistant"))
      ∷ (codes "ts", num now)
      ∷ (codes "data", object ((codes "delta", str delta) ∷ []))
      ∷ [])
    ∷ payload_event (codes "chat") (
        (codes "runId", str run_id)
        ∷ (codes "sessionKey", str session_key)
        ∷ (codes "seq", num seq)
        ∷ (codes "state", str (codes "delta"))
        ∷ (codes "delta", str delta)
        ∷ [])
    ∷ []

unfoldable pub emit_stream_done : Text → Text → Text → ℕ → ℕ → ℕ → Text → List OutgoingFrame
emit_stream_done run_id request_id session_key seq started_at ended_at full_response =
    payload_event (codes "agent") (
      (codes "runId", str run_id)
      ∷ (codes "seq", num seq)
      ∷ (codes "stream", str (codes "lifecycle"))
      ∷ (codes "ts", num ended_at)
      ∷ (
        codes "data",
        object (
            (codes "phase", str (codes "end"))
            ∷ (codes "startedAt", num started_at)
            ∷ (codes "endedAt", num ended_at)
            ∷ []),
      )
      ∷ [])
    ∷ payload_event (codes "chat") (
        (codes "runId", str run_id)
        ∷ (codes "sessionKey", str session_key)
        ∷ (codes "seq", num (seq + 1))
        ∷ (codes "state", str (codes "final"))
        ∷ (
          codes "message",
          object (
              (codes "role", str (codes "assistant"))
              ∷ (
                codes "content",
                array (
                    object
                      ((codes "type", str (codes "text")) ∷ (codes "text", str full_response) ∷ [])
                    ∷ []),
              )
              ∷ (codes "timestamp", num ended_at)
              ∷ []),
        )
        ∷ [])
    ∷ response (
        response_ok request_id (
          object (
            (codes "runId", str run_id)
            ∷ (codes "status", str (codes "ok"))
            ∷ (codes "summary", str (codes "completed"))
            ∷ (
              codes "result",
              object ((codes "assistantTexts", array (str full_response ∷ [])) ∷ []),
            )
            ∷ [])))
    ∷ []

unfoldable pub emit_run_error : Text → Text → ℕ → ℕ → Text → List OutgoingFrame
emit_run_error run_id request_id seq ended_at error_msg =
    payload_event (codes "agent") (
      (codes "runId", str run_id)
      ∷ (codes "seq", num seq)
      ∷ (codes "stream", str (codes "lifecycle"))
      ∷ (codes "ts", num ended_at)
      ∷ (
        codes "data",
        object ((codes "phase", str (codes "error")) ∷ (codes "error", str error_msg) ∷ []),
      )
      ∷ [])
    ∷ payload_event (codes "chat") (
        (codes "runId", str run_id)
        ∷ (codes "sessionKey", str default_session_key)
        ∷ (codes "seq", num (seq + 1))
        ∷ (codes "state", str (codes "error"))
        ∷ (codes "errorMessage", str error_msg)
        ∷ [])
    ∷ response (response_error request_id (unavailable error_msg))
    ∷ []
