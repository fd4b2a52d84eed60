-- ===== src/Tests/Runs.antt =====
-- src/agent/runner.rs: a request, a run and its background agents.
use rabb1t_claw.Base.{
  false, none, some, List, [], ◌∷◌, if◌then◌else◌, ◌≡◌, refl, Text, codes, text_eq, concat, find,
  starts_with, trim_start, strip_prefix,
}
use rabb1t_claw.Agent.Background.{dispatch_background_agents, limits_of}
use rabb1t_claw.Agent.Capacity.{Accounted, dispatch-Accounted}
use rabb1t_claw.Agent.Request.{HandlerContext, handle_agent, in_flight, key_eq}
use rabb1t_claw.Agent.Request.Keys.{KeysKept, handle_agent-KeysKept}
use rabb1t_claw.Agent.Streaming.{
  Ended, opened, refused, start_event, stream_agent_response, on_text, feed, failed_run,
}
use rabb1t_claw.Agent.Streaming.Outcome.{run-releases}
use rabb1t_claw.Agent.Streaming.Shown.{after_texts}
use rabb1t_claw.Agent.Streaming.Sent.{text_chunks, run_frames, run-sends}
use rabb1t_claw.Devices.{token_prefix}
use rabb1t_claw.Json.{null}
use rabb1t_claw.Markers.{strip_task_markers, strip_from}
use rabb1t_claw.State.{GatewayState, new_state}
use rabb1t_claw.Stream.{check_think_block, check_trimmed}
use rabb1t_claw.Tests.Accounts.{a_config, two_devices, phone}
use rabb1t_claw.Tests.Fixtures.{a_request_env, a_job, a_stream_env}

abbrev pub a_state : GatewayState
a_state = new_state a_config two_devices 0

abbrev from_phone : HandlerContext
from_phone = record { request_id = codes "1"; device_token = some (codes "aaaaaaaa11") }

handle_agent-KeysKept_example :
    KeysKept a_state (handle_agent a_request_env a_state from_phone (some null))
handle_agent-KeysKept_example = handle_agent-KeysKept a_request_env a_state from_phone (some null)

dispatch-Accounted_example :
    Accounted
      (limits_of a_state.gateway_config)
      (token_prefix phone.token)
      a_state
      (dispatch_background_agents (λ t. none) phone.token 9 a_state (codes "@@dispatch\n[]\n@@end"))
dispatch-Accounted_example =
    dispatch-Accounted (λ t. none) phone.token 9 a_state (codes "@@dispatch\n[]\n@@end")

abbrev busy : GatewayState
busy = record a_state { active_requests = (none, codes "run-1") ∷ (none, codes "run-2") ∷ [] }

abbrev freed : GatewayState
freed = record a_state { active_requests = (none, codes "run-2") ∷ [] }

abbrev refused_run : Ended
refused_run =
    let failed = failed_run a_stream_env (a_job none) freed [] 1 (codes "no route") in
    record failed { sent = start_event (a_job none) 8 ∷ failed.sent }

run-releases_example : in_flight freed.active_requests (none, codes "run-2") ≡ (
    if key_eq (none, codes "run-1") (none, codes "run-2")
    then false
    else in_flight busy.active_requests (none, codes "run-2"))
run-releases_example =
    run-releases a_stream_env (a_job none) busy [] (refused (codes "no route")) refused_run
      (none, codes "run-2") (unfold stream_agent_response text_eq in refl)

abbrev greeting : List Text
greeting = codes "Hi" ∷ codes " there" ∷ []

run-sends_example :
    (r : Ended) × (deltas : List Text) × (stream_agent_response a_stream_env
        (a_job none)
        a_state
        []
        (opened (text_chunks greeting))
      ≡ some r)
    × (r.sent ≡ run_frames a_stream_env (a_job none) deltas (codes "Hi there"))
    × (concat deltas ≡ codes "Hi there")
run-sends_example =
    run-sends a_stream_env (a_job none) a_state [] greeting (codes "Hi there")
      (unfold after_texts on_text feed check_think_block check_trimmed find starts_with strip_prefix
          trim_start in
        refl)
      (unfold after_texts on_text feed check_think_block check_trimmed find starts_with strip_prefix
          trim_start in
        refl)
      (unfold after_texts on_text feed check_think_block check_trimmed find starts_with strip_prefix
          trim_start strip_task_markers strip_from in
        refl)
