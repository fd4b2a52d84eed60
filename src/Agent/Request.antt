-- ===== src/Agent/Request.antt =====
-- `handle_agent` of src/agent/runner.rs, up to the task that it spawns.
pub mod Keys
use rabb1t_claw.Base.{
  ℕ, zero, suc, ◌+◌, Bool, true, false, not, ◌&&◌, ◌||◌, Option, none, some, List, [], ◌∷◌, ◌++◌,
  if◌then◌else◌, Text, codes, text_eq, is_empty, trim, starts_with, drop, length, map, map_or,
  retain, unwrap_or,
}
use rabb1t_claw.Agent.Memory.{load_session_memory}
use rabb1t_claw.TaskLog.Block.{build_task_context}
use rabb1t_claw.Agent.Background.{Limits, limits_of, decimal}
use rabb1t_claw.Budget.{ChatMessage, trim_pairs_to_budget}
use rabb1t_claw.Config.{ThinkingConfig, main}
use rabb1t_claw.Config.Resolve.{LlmProvider, ResolvedAgentModel, resolve_agent_model}
use rabb1t_claw.Devices.{token_prefix}
use rabb1t_claw.Events.{default_session_key, emit_run_error}
use rabb1t_claw.Json.{Json, str, num, object}
use rabb1t_claw.Protocol.{
  AgentParams, OutgoingFrame, response, response_ok, response_error, invalid_request, ErrorShape,
}
use rabb1t_claw.Session.{ConversationTurn, get_history}
use rabb1t_claw.State.{GatewayState, RunKey}

-- `ChatRequest` of src/provider/mod.rs
pub record ChatRequest : Type 0 where
  pub model : Text
  pub messages : List ChatMessage
  pub system : Option Text
  pub max_tokens : Option ℕ
  pub temperature : Option ℕ
  pub top_p : Option ℕ
  pub frequency_penalty : Option ℕ
  pub presence_penalty : Option ℕ
  pub reasoning_effort : Option Text
  pub thinking : Option ThinkingConfig

unfoldable pub chat_request : ResolvedAgentModel → List ChatMessage → Option Text → ChatRequest
chat_request r messages system = record {
  model = r.model_id;
  messages = messages;
  system = system;
  max_tokens = r.max_tokens;
  temperature = r.temperature;
  top_p = r.top_p;
  frequency_penalty = r.frequency_penalty;
  presence_penalty = r.presence_penalty;
  reasoning_effort = r.reasoning_effort;
  thinking = r.thinking;
}

-- the `tx` and the `state` of the job are those of the connection and of the gateway
pub record StreamJob : Type 0 where
  pub provider : LlmProvider
  pub request : ChatRequest
  pub run_id : Text
  pub request_id : Text
  pub session_key : Text
  pub device_token : Option Text
  pub user_message : Text
  pub prefix : Text
  pub provider_name : Text
  pub model_id : Text
  pub dedup_key : RunKey

pub record HandlerContext : Type 0 where
  pub request_id : Text
  pub device_token : Option Text

-- `text.replace(from, to)` for a `from` that is not empty
unfoldable pub replace_from : ℕ → Text → Text → Text → Text
replace_from zero from to t = t
replace_from (suc fuel) from to [] = []
replace_from (suc fuel) from to (c ∷ cs) = elim (starts_with (c ∷ cs) from) [
  | true ↦ to ++ replace_from fuel from to (drop (length from) (c ∷ cs))
  | false ↦ c ∷ replace_from fuel from to cs
]

abbrev pub replace : Text → Text → Text → Text
replace t from to = replace_from (length t) from to t

-- What comes from outside: the time, its rendering, the files of the memory and of the tasks of the
-- device, and whether the connection's channel is open. `parse` gives the error's text when it
-- fails.
pub data Parsed : Type 0 where
  ok : AgentParams → Parsed
  bad : Text → Parsed

pub record RequestEnv : Type 0 where
  pub parse : Json → Parsed
  pub count_tokens : Text → ℕ
  pub default_prompt : Text
  pub accepted_at : ℕ
  pub current_time : Text
  pub time_of : ℕ → Option Text
  -- the files of the device, and the clock of the tasks
  pub memory : Option Text
  pub task_log : Option Text
  pub now_secs : ℕ
  pub tx_open : Bool

unfoldable pub stamp_message : (ℕ → Option Text) → ℕ → Text → Text
stamp_message time_of ms content =
    map_or (time_of ms) content λ ts. codes "[" ++ (ts ++ (codes "] " ++ content))

unfoldable pub system_prompt : RequestEnv → Limits → ℕ → Option Text → Text
unfolding replace_from
system_prompt env limits context_tokens device_token =
    let p1 = replace env.default_prompt (codes "{code_max_concurrent}") (decimal limits.code_max) in
    let p2 = replace p1 (codes "{search_max_concurrent}") (decimal limits.search_max) in
    let p3 = replace p2 (codes "{advanced_max_concurrent}") (decimal limits.advanced_max) in
    let p4 = replace p3 (codes "{context_tokens}") (decimal context_tokens) in
    let p5 = replace p4 (codes "{task_log_max_entries}") (decimal limits.task_log_max) in
    let timed = p5 ++ (codes "\n\nCurrent time: " ++ env.current_time) in
    map_or device_token timed λ token.
      map_or (load_session_memory env.memory) timed
        λ m. timed ++ (codes "\n\n## Session Memory\n" ++ m)

abbrev stamped_turn : (ℕ → Option Text) → ConversationTurn → ChatMessage
stamped_turn time_of t = record {
  role = t.role;
  content = stamp_message time_of t.timestamp_ms t.content;
}

abbrev llm_message : RequestEnv → GatewayState → Option Text → Text → Text
llm_message env s device_token message =
    let stamped = stamp_message env.time_of env.accepted_at message in
    map_or device_token stamped λ token.
      map_or
        (build_task_context s env.task_log (token_prefix token)
          (limits_of s.gateway_config).task_log_max env.now_secs)
        stamped λ ctx. codes "@@task\n" ++ (ctx ++ (codes "\n@@end\n\n" ++ stamped))

-- the history of the device and the new message, before trimming
unfoldable pub all_messages : RequestEnv → GatewayState → Option Text → Text → List ChatMessage
unfolding stamp_message
all_messages env s device_token message =
    let history = map_or device_token [] λ token. get_history s.sessions token in
    map (stamped_turn env.time_of) history
    ++ record { role = codes "user"; content = llm_message env s device_token message } ∷ []

unfoldable pub build_job :
    RequestEnv → GatewayState → HandlerContext → Text → Text → ResolvedAgentModel → StreamJob
unfolding all_messages system_prompt chat_request
build_job env s ctx run_id message resolved =
    let messages =
      trim_pairs_to_budget env.count_tokens (all_messages env s ctx.device_token message)
        resolved.context_tokens in
    let prompt =
      system_prompt env (limits_of s.gateway_config) resolved.context_tokens ctx.device_token in
    record {
      provider = resolved.provider;
      request = chat_request resolved messages (some prompt);
      run_id = run_id;
      request_id = ctx.request_id;
      session_key = default_session_key;
      device_token = ctx.device_token;
      user_message = message;
      prefix = map_or ctx.device_token [] token_prefix;
      provider_name = resolved.provider_name;
      model_id = resolved.model_id;
      dedup_key = (ctx.device_token, run_id);
    }

-- `error` is what the function returns when it fails, and `job` what it spawns
pub record Handled : Type 0 where
  pub state : GatewayState
  pub sent : List OutgoingFrame
  pub job : Option StreamJob
  pub error : Option Text

abbrev token_eq : Option Text → Option Text → Bool
token_eq none none = true
token_eq (some a) (some b) = text_eq a b
token_eq _ _ = false

abbrev pub key_eq : RunKey → RunKey → Bool
key_eq (t, k) (u, j) = token_eq t u && text_eq k j

unfoldable pub in_flight : List RunKey → RunKey → Bool
in_flight [] key = false
in_flight (k ∷ keys) key = if key_eq k key then true else in_flight keys key

abbrev pub release : List RunKey → RunKey → List RunKey
release keys key = retain (λ k. not (key_eq k key)) keys

-- `respond` and `respond_error`, which fail when the channel is closed
abbrev pub reply : RequestEnv → GatewayState → OutgoingFrame → Handled
reply env s frame = record {
  state = s;
  sent = if env.tx_open then frame ∷ [] else [];
  job = none;
  error = if env.tx_open then none else some (codes "channel closed");
}

abbrev pub reply_error : RequestEnv → GatewayState → HandlerContext → ErrorShape → Handled
reply_error env s ctx e = reply env s (response (response_error ctx.request_id e))

abbrev accepted : RequestEnv → HandlerContext → Text → OutgoingFrame
accepted env ctx run_id = response (
    response_ok ctx.request_id (
      object (
        (codes "runId", str run_id)
        ∷ (codes "status", str (codes "accepted"))
        ∷ (codes "acceptedAt", num env.accepted_at)
        ∷ [])))

-- behind the claim of the key: `s` has it, and `before` are the keys without it
abbrev pub start_run :
    RequestEnv → GatewayState → HandlerContext → Text → Text → Option ResolvedAgentModel → Handled
start_run env s ctx run_id message none = record {
  state = record s { active_requests = release s.active_requests (ctx.device_token, run_id) };
  sent =
      accepted env ctx run_id
      ∷ emit_run_error run_id ctx.request_id 0 env.accepted_at (codes "no LLM model configured");
  job = none;
  error = none;
}
start_run env s ctx run_id message (some resolved) = record {
  state = s;
  sent = accepted env ctx run_id ∷ [];
  job = some (build_job env s ctx run_id message resolved);
  error = none;
}

abbrev pub claim : GatewayState → RunKey → GatewayState
claim s key = record s { active_requests = key ∷ s.active_requests }

-- with a message that is not empty
unfoldable pub accept_run : RequestEnv → GatewayState → HandlerContext → Text → Text → Handled
unfolding in_flight build_job
accept_run env s ctx run_id message =
    let key : RunKey = (ctx.device_token, run_id) in
    let claimed = claim s key in
    if not env.tx_open || in_flight s.active_requests key
    then reply env s (accepted env ctx run_id)
    else start_run env claimed ctx run_id message (resolve_agent_model s.gateway_config main)

abbrev pub handle_parsed : RequestEnv → GatewayState → HandlerContext → Parsed → Handled
handle_parsed env s ctx (bad e) = record {
  state = s;
  sent = [];
  job = none;
  error = some (codes "invalid agent params: " ++ e);
}
handle_parsed env s ctx (ok params) =
    let message = trim params.message in
    if is_empty message
    then reply_error env s ctx (invalid_request (codes "message is empty"))
    else accept_run env s ctx params.idempotency_key message

unfoldable pub handle_agent : RequestEnv → GatewayState → HandlerContext → Option Json → Handled
unfolding accept_run
handle_agent env s ctx none = reply_error env s ctx (invalid_request (codes "missing params"))
handle_agent env s ctx (some p) = handle_parsed env s ctx (env.parse p)
