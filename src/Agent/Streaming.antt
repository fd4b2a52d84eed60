-- ===== src/Agent/Streaming.antt =====
-- `stream_agent_response` of src/agent/runner.rs: a run over the chunks that its provider's channel
-- delivers. `none` is the panic of `strip_task_markers`, which ends the task there.
pub mod Outcome
pub mod Shown
pub mod Sent
pub mod Answered
use rabb1t_claw.Base.{
  Bytes, ℕ, ◌+◌, Bool, true, false, not, ◌&&◌, Option, none, some, List, [], ◌∷◌, ◌++◌,
  if◌then◌else◌, Text, codes, is_empty, length,
}
use rabb1t_claw.Agent.Background.{Background, Spawned, dispatch_background_agents}
use rabb1t_claw.Agent.Request.{StreamJob, release}
use rabb1t_claw.Events.{emit_stream_delta, emit_stream_done, emit_run_error}
use rabb1t_claw.Json.{Json, str, num, object}
use rabb1t_claw.Markers.{strip_task_markers}
use rabb1t_claw.Protocol.{OutgoingFrame, event, new_event, with_payload}
use rabb1t_claw.Session.{ConversationSession, Sessions, Disk, record_message}
use rabb1t_claw.Session.Encoding.{Codec}
use rabb1t_claw.State.{GatewayState}
use rabb1t_claw.Stream.{
  ThinkResult, pending, pass_through, stripped, check_think_block, MarkerFilter, new_filter, drain,
  flush, StreamChunk, text, done, error, Collected, err, collect_stream,
}

-- the variables of the loop
pub record Progress : Type 0 where
  pub full_response : Text
  pub think_buf : Text
  pub think_done : Bool
  pub marker_filter : MarkerFilter
  pub seq : ℕ

abbrev pub start_progress : Progress
start_progress = record {
  full_response = [];
  think_buf = [];
  think_done = false;
  marker_filter = new_filter;
  seq = 1;
}

abbrev checked : Progress → Text → ThinkResult → Progress
checked p buf pending = record p { think_buf = buf }
checked p buf pass_through = record p {
  think_done = true;
  think_buf = [];
  full_response = p.full_response ++ buf;
}
checked p buf (stripped remainder) = record p {
  think_done = true;
  think_buf = [];
  full_response = p.full_response ++ remainder;
}

-- the chunk's text in the full response, or in the buffer while a think block is open
unfoldable pub feed : Progress → Text → Progress
feed p chunk =
    if p.think_done
    then record p { full_response = p.full_response ++ chunk }
    else checked p (p.think_buf ++ chunk) (check_think_block (p.think_buf ++ chunk))

-- A chunk that leaves the check pending goes on to the next one, without draining.
unfoldable pub on_text : Progress → Text → Progress × List Text
unfolding feed
on_text p chunk =
    let fed = feed p chunk in
    let (deltas, filter) = drain fed.marker_filter fed.full_response in
    if fed.think_done
    then (record fed { marker_filter = filter; seq = fed.seq + length deltas }, deltas)
    else (fed, [])

module _ (job : StreamJob) (now : ℕ) where
  -- one pair of events for each delta, numbered from `seq`
  unfoldable pub emit_deltas : ℕ → List Text → List OutgoingFrame
  emit_deltas seq [] = []
  emit_deltas seq (delta ∷ deltas) =
      emit_stream_delta job.run_id job.session_key seq now delta ++ emit_deltas (seq + 1) deltas

  abbrev pub start_event : OutgoingFrame
  start_event = event (
      with_payload (new_event (codes "agent")) (
        object (
          (codes "runId", str job.run_id)
          ∷ (codes "seq", num 0)
          ∷ (codes "stream", str (codes "lifecycle"))
          ∷ (codes "ts", num now)
          ∷ (
            codes "data",
            object ((codes "phase", str (codes "start")) ∷ (codes "startedAt", num now) ∷ []),
          )
          ∷ [])))

-- what the file system and the cipher give to one `record_message`
pub record Write : Type 0 where
  pub nonce : Bytes
  pub accepts : Bool

pub record StreamEnv : Type 0 where
  pub codec : Codec ConversationSession
  pub parse_json : Text → Option (List Json)
  pub started_at : ℕ
  pub now : ℕ
  pub user_write : Write
  pub assistant_write : Write

pub record Ended : Type 0 where
  pub state : GatewayState
  pub disk : Disk
  pub sent : List OutgoingFrame
  pub spawned : List Spawned
  pub logged : List Text

-- the full response at the end of the stream: a think buffer that was never decided is part of it
abbrev pub final_text : Progress → Text
final_text p =
    if not p.think_done && not (is_empty p.think_buf)
    then p.full_response ++ p.think_buf
    else p.full_response

abbrev pub flushed : MarkerFilter → Text → List Text
flushed m full = elim (flush m full).0 [ none ↦ [] | some remaining ↦ remaining ∷ [] ]

abbrev pub last_deltas : Progress → List Text
last_deltas p = flushed p.marker_filter (final_text p)

abbrev pub with_sessions : GatewayState → Sessions → GatewayState
with_sessions s sessions = record s { sessions = sessions }

abbrev also_sent : List OutgoingFrame → Option Ended → Option Ended
also_sent frames none = none
also_sent frames (some r) = some (record r { sent = frames ++ r.sent })

abbrev cleaned : StreamJob → ℕ → Option Ended → Option Ended
cleaned j started_at none = none
cleaned j started_at (some r) = some (record r {
  state = record r.state { active_requests = release r.state.active_requests j.dedup_key };
  sent = start_event j started_at ∷ r.sent;
})

-- what `chat_stream` returned
pub data ChatStream : Type 0 where
  opened : List StreamChunk → ChatStream
  refused : Text → ChatStream

-- what an agent without streaming makes of it: `chat_stream`, and then `collect_stream`
abbrev pub collected : ChatStream → Collected
collected (opened chunks) = collect_stream chunks
collected (refused e) = err e

module _ (env : StreamEnv) (job : StreamJob) where
  -- the exchange as a pair
  unfoldable pub record_exchange : Text → Sessions × Disk → Text → Sessions × Disk
  record_exchange token m clean =
      let user =
        record_message env.codec env.user_write.nonce env.user_write.accepts env.now m token
          (codes "user") job.user_message (some job.run_id) in
      record_message env.codec env.assistant_write.nonce env.assistant_write.accepts env.now user
        token (codes "assistant") clean (some job.run_id)

  -- for a paired device: the exchange is recorded, and the background agents are dispatched
  unfoldable pub keep_exchange : GatewayState → Disk → Option Text → Text → Text → Ended
  unfolding record_exchange
  keep_exchange s disk none full clean = record {
    state = s;
    disk = disk;
    sent = [];
    spawned = [];
    logged = [];
  }
  keep_exchange s disk (some token) full clean =
      let (sessions, disk') = record_exchange token (s.sessions, disk) clean in
      let b =
        dispatch_background_agents env.parse_json token env.now (with_sessions s sessions) full in
      record { state = b.state; disk = disk'; sent = []; spawned = b.spawned; logged = b.logged }

  unfoldable pub finish : GatewayState → Disk → Progress → Option Ended
  unfolding keep_exchange
  finish s disk p =
      let deltas = last_deltas p in
      elim (strip_task_markers (final_text p)) [
        | none ↦ none
        | some clean ↦
            let kept = keep_exchange s disk job.device_token (final_text p) clean in
            some (record kept {
              sent =
                  emit_deltas job env.now p.seq deltas
                  ++ emit_stream_done job.run_id job.request_id job.session_key
                      (p.seq + length deltas) env.started_at env.now clean;
            })
      ]

  abbrev pub failed_run : GatewayState → Disk → ℕ → Text → Ended
  failed_run s disk seq e = record {
    state = s;
    disk = disk;
    sent = emit_run_error job.run_id job.request_id seq env.now e;
    spawned = [];
    logged = [];
  }

  -- The loop. A channel that closes without `Done` or an error ends the run silently.
  unfoldable pub run_chunks : GatewayState → Disk → Progress → List StreamChunk → Option Ended
  unfolding on_text finish
  run_chunks s disk p [] =
      some (record { state = s; disk = disk; sent = []; spawned = []; logged = [] })
  run_chunks s disk p (text t ∷ chunks) =
      let (p', deltas) = on_text p t in
      also_sent (emit_deltas job env.now p.seq deltas) (run_chunks s disk p' chunks)
  run_chunks s disk p (done ∷ chunks) = finish s disk p
  run_chunks s disk p (error e ∷ chunks) = some (failed_run s disk p.seq e)

  abbrev run_stream : GatewayState → Disk → ChatStream → Option Ended
  run_stream s disk (opened chunks) = run_chunks s disk start_progress chunks
  run_stream s disk (refused e) = some (failed_run s disk 1 e)

  unfoldable pub stream_agent_response : GatewayState → Disk → ChatStream → Option Ended
  unfolding run_chunks
  stream_agent_response s disk stream = cleaned job env.started_at (run_stream s disk stream)
