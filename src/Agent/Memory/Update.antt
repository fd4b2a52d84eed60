-- ===== src/Agent/Memory/Update.antt =====
-- src/agent/memory.rs: when the memory of a device is updated, and with what.
use rabb1t_claw.Base.{
  ℕ, ◌-◌, ◌*◌, ◌%◌, Bool, false, ◌||◌, Option, none, some, List, [], ◌∷◌, ◌++◌, if◌then◌else◌, ltb,
  ◌==◌, Text, codes, text_eq, trim, is_empty, length, drop,
}
use rabb1t_claw.Agent.Advanced.Compress.{user_message}
use rabb1t_claw.Agent.Memory.{empty_sentinel, read_limits, load_session_memory, enforce_word_limit}
use rabb1t_claw.Agent.Request.{ChatRequest, chat_request}
use rabb1t_claw.Agent.Streaming.{ChatStream, collected}
use rabb1t_claw.Config.{GatewayConfig, memory}
use rabb1t_claw.Config.Resolve.{ResolvedAgentModel, resolve_agent_model}
use rabb1t_claw.Session.{ConversationTurn, get_history, turn_count}
use rabb1t_claw.State.{GatewayState}
use rabb1t_claw.Stream.{Collected, ok, err}

-- `a % b` is only reached with `b` that is not zero
unfoldable pub is_due : ℕ → ℕ → Bool
is_due turns turn_interval =
    if turns == 0 || turn_interval == 0 then false else turns % turn_interval == 0

unfoldable pub recent : ℕ → List ConversationTurn → List ConversationTurn
recent turn_interval history =
    let tail_count = turn_interval * 2 in
    if ltb tail_count (length history) then drop (length history - tail_count) history else history

abbrev pub turn_lines : List ConversationTurn → Text
turn_lines [] = []
turn_lines (t ∷ ts) =
    codes "**" ++ (t.role ++ (codes "**: " ++ (t.content ++ (codes "\n\n" ++ turn_lines ts))))

abbrev pub existing : Option Text → Text
existing none = []
existing (some mem) = codes "## Existing Memory\n\n" ++ (mem ++ codes "\n\n---\n\n")

unfoldable pub format_turns_for_subagent : List ConversationTurn → Option Text → Text
format_turns_for_subagent turns existing_memory =
    existing existing_memory ++ (codes "## Recent Exchanges\n\n" ++ turn_lines turns)

-- the model, the prompt, and whether the write is accepted
pub record MemoryEnv : Type 0 where
  pub chat : ChatRequest → ChatStream
  pub prompt : Text
  pub accepts : Bool

-- nothing worth remembering
abbrev pub is_nothing : Text → Bool
is_nothing raw = text_eq (trim raw) empty_sentinel || is_empty (trim raw)

module _ (env : MemoryEnv) where
  abbrev pub memory_request :
      ResolvedAgentModel → ℕ → List ConversationTurn → Option Text → ChatRequest
  memory_request resolved turn_interval history file =
      chat_request resolved
        (user_message
            (format_turns_for_subagent (recent turn_interval history) (load_session_memory file))
          ∷ [])
        (some env.prompt)

  -- the file after the answer of the model
  abbrev pub remembered : ℕ → Option Text → Collected → Option Text
  remembered max_words file (err e) = file
  remembered max_words file (ok raw) =
      if is_nothing raw
      then file
      else if env.accepts
      then some (enforce_word_limit (trim raw) max_words)
      else file

  abbrev pub updated :
      ℕ → ℕ → List ConversationTurn → Option Text → Option ResolvedAgentModel → Option Text
  updated turn_interval max_words history file none = file
  updated turn_interval max_words history file (some resolved) =
      remembered max_words file
        (collected (env.chat (memory_request resolved turn_interval history file)))

  unfoldable pub run_memory_subagent :
      GatewayConfig → List ConversationTurn → Option Text → ℕ → ℕ → Option Text
  run_memory_subagent cfg history file turn_interval max_words =
      updated turn_interval max_words history file (resolve_agent_model cfg memory)

  -- the memory file of the device afterwards
  unfoldable pub maybe_run_memory_subagent : GatewayState → Text → Option Text → Option Text
  maybe_run_memory_subagent s token file =
      let (turn_interval, max_words) = read_limits s.gateway_config in
      if is_due (turn_count s.sessions token) turn_interval
      then run_memory_subagent s.gateway_config (get_history s.sessions token) file turn_interval
          max_words
      else file
