-- ===== src/Tests/Memory.antt =====
-- src/agent/memory.rs on a device with five exchanges.
use rabb1t_claw.Base.{
  none, some, List, [], ◌∷◌, ◌≡◌, refl, codes, true, lookup, text_eq, trim, trim_start, trim_end,
  is_whitespace,
}
use rabb1t_claw.Agent.Memory.{read_limits, enforce_word_limit, word_ends, last}
use rabb1t_claw.Agent.Memory.Update.{
  MemoryEnv, maybe_run_memory_subagent, run_memory_subagent, is_due,
}
use rabb1t_claw.Agent.Memory.Updated.{IsUpdated, maybe_run-IsUpdated}
use rabb1t_claw.Agent.Streaming.{opened}
use rabb1t_claw.Config.Resolve.{resolve_agent_model, model_key_of}
use rabb1t_claw.Session.{ConversationTurn, turn_count}
use rabb1t_claw.State.{GatewayState}
use rabb1t_claw.Stream.{text, done}
use rabb1t_claw.Tests.Fixtures.{said}
use rabb1t_claw.Tests.Runs.{a_state}

abbrev five_turns : List ConversationTurn
five_turns =
    said (codes "Tea?")
    ∷ said (codes "Rain?")
    ∷ said (codes "Sun?")
    ∷ said (codes "Cake?")
    ∷ said (codes "Jam?")
    ∷ []

abbrev after_five : GatewayState
after_five = record a_state { sessions = (codes "aaaaaaaa11", record { turns = five_turns }) ∷ [] }

abbrev a_memory_env : MemoryEnv
a_memory_env = record {
  chat = λ request. opened (text (codes " likes tea\n") ∷ done ∷ []);
  prompt = codes "Remember.";
  accepts = true;
}

maybe_run-IsUpdated_example :
    IsUpdated a_memory_env after_five
      (codes "aaaaaaaa11")
      none
      (maybe_run_memory_subagent a_memory_env after_five (codes "aaaaaaaa11") none)
maybe_run-IsUpdated_example = maybe_run-IsUpdated a_memory_env after_five (codes "aaaaaaaa11") none

memory_run :
    maybe_run_memory_subagent a_memory_env after_five (codes "aaaaaaaa11") none
    ≡ some (codes "likes tea")
unfolding maybe_run_memory_subagent run_memory_subagent is_due read_limits resolve_agent_model
    model_key_of lookup text_eq trim trim_start trim_end is_whitespace enforce_word_limit word_ends
    last turn_count rabb1t_claw.Config.agent_config rabb1t_claw.Stream.collect_stream
memory_run = refl
