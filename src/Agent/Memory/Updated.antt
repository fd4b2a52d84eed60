-- ===== src/Agent/Memory/Updated.antt =====
-- src/agent/memory.rs: what an update of a device's memory leaves.
use rabb1t_claw.Base.{
  Bool, true, false, ◌⊎◌, Option, none, some, List, [], ◌∷◌, inl, inr, ◌≡◌, refl, sym, ap,
  if◌then◌else◌, Text, trim,
}
use rabb1t_claw.Agent.Advanced.Compress.{user_message}
use rabb1t_claw.Agent.Memory.{read_limits, load_session_memory, enforce_word_limit}
use rabb1t_claw.Agent.Memory.Update.{
  MemoryEnv, is_due, recent, is_nothing, memory_request, remembered, updated, run_memory_subagent,
  maybe_run_memory_subagent,
}
use rabb1t_claw.Agent.Memory.Words.{IsLimited, enforce_word_limit-IsLimited}
use rabb1t_claw.Agent.Request.{ChatRequest, chat_request}
use rabb1t_claw.Agent.Streaming.{collected}
use rabb1t_claw.Config.{memory}
use rabb1t_claw.Config.Resolve.{ResolvedAgentModel, resolve_agent_model}
use rabb1t_claw.Session.{ConversationTurn, get_history, turn_count}
use rabb1t_claw.State.{GatewayState}
use rabb1t_claw.Stream.{Collected, ok, err}
use rabb1t_claw.Agent.Memory.Due.{
  IsDue, IsEarly, is_due-true, is_due-false, AreRecent, recent-AreRecent, question_of, format_lem,
  IsNothing, is_nothing-true, is_nothing-false,
}

module _ (env : MemoryEnv) where
  abbrev pub asked_request : ResolvedAgentModel → List ConversationTurn → Option Text → ChatRequest
  asked_request r turns file =
      chat_request r (user_message (question_of turns (load_session_memory file)) ∷ [])
        (some env.prompt)

  -- An update is due, the agent has a model, and it was asked about the recent turns: what it said.
  abbrev pub Asked : GatewayState → Text → Option Text → Collected → Type 0
  Asked s token file result =
      (r : ResolvedAgentModel) × (turns : List ConversationTurn) × IsDue
        (turn_count s.sessions token) (read_limits s.gateway_config).0
      × (resolve_agent_model s.gateway_config memory ≡ some r)
      × AreRecent (read_limits s.gateway_config).0 (get_history s.sessions token) turns
      × (collected (env.chat (asked_request r turns file)) ≡ result)

  -- why the file stays: no update is due, there is no model, the model failed or had nothing to
  -- say, or the write is refused
  abbrev pub IsKept : GatewayState → Text → Option Text → Type 0
  IsKept s token file =
      IsEarly (turn_count s.sessions token) (read_limits s.gateway_config).0
      ⊎ ((resolve_agent_model s.gateway_config memory ≡ none)
          ⊎ (((e : Text) × Asked s token file (err e))
              ⊎ ((raw : Text) × Asked s token file (ok raw)
                  × (IsNothing raw ⊎ (env.accepts ≡ false)))))

  -- the file holds the first words of what the model said
  abbrev pub IsWritten : GatewayState → Text → Option Text → Text → Type 0
  IsWritten s token file out =
      (raw : Text) × Asked s token file (ok raw)
      × (IsNothing raw → ⊥)
      × (env.accepts ≡ true)
      × IsLimited (trim raw) (read_limits s.gateway_config).1 out

  abbrev pub IsUpdated : GatewayState → Text → Option Text → Option Text → Type 0
  IsUpdated s token file after =
      ((after ≡ file) × IsKept s token file)
      ⊎ ((out : Text) × (after ≡ some out) × IsWritten s token file out)

  accepted-IsUpdated :
      (s : GatewayState) (token raw : Text) (file : Option Text)
      → Asked s token file (ok raw)
      → (n : Bool) → is_nothing raw ≡ n
      → (a : Bool) → env.accepts ≡ a
      → IsUpdated s token file (
          if n
          then file
          else if a
          then some (enforce_word_limit (trim raw) (read_limits s.gateway_config).1)
          else file)
  accepted-IsUpdated s token raw file asked true nothing a e =
      inl (refl, inr (inr (inr (raw, asked, inl (is_nothing-true raw nothing)))))
  accepted-IsUpdated s token raw file asked false something false refused =
      inl (refl, inr (inr (inr (raw, asked, inr refused))))
  accepted-IsUpdated s token raw file asked false something true taken =
      let max_words = (read_limits s.gateway_config).1 in
      inr (
        enforce_word_limit (trim raw) max_words,
        refl,
        (
          raw,
          asked,
          is_nothing-false raw something,
          taken,
          enforce_word_limit-IsLimited (trim raw) max_words,
        ),
      )

  remembered-IsUpdated :
      (s : GatewayState) (token : Text) (file : Option Text) (c : Collected)
      → Asked s token file c
      → IsUpdated s token file (remembered env (read_limits s.gateway_config).1 file c)
  remembered-IsUpdated s token file (err e) asked = inl (refl, inr (inr (inl (e, asked))))
  remembered-IsUpdated s token file (ok raw) asked =
      accepted-IsUpdated s token raw file asked (is_nothing raw) refl env.accepts refl

  updated-IsUpdated :
      (s : GatewayState) (token : Text) (file : Option Text)
      → (is_due (turn_count s.sessions token) (read_limits s.gateway_config).0 ≡ true)
      → (m : Option ResolvedAgentModel) → resolve_agent_model s.gateway_config memory ≡ m
      → IsUpdated s token file (
          updated env
            (read_limits s.gateway_config).0
            (read_limits s.gateway_config).1
            (get_history s.sessions token)
            file
            m)
  updated-IsUpdated s token file due none found = inl (refl, inr (inl found))
  updated-IsUpdated s token file due (some r) found =
      let (interval, max_words) = read_limits s.gateway_config in
      let history = get_history s.sessions token in
      let request = memory_request env r interval history file in
      let same =
        ap (λ q. chat_request r (user_message q ∷ []) (some env.prompt))
          (format_lem (recent interval history) (load_session_memory file)) in
      remembered-IsUpdated s token file (collected (env.chat request)) (
        r,
        recent interval history,
        is_due-true (turn_count s.sessions token) interval due,
        found,
        recent-AreRecent interval history,
        ap (λ q. collected (env.chat q)) (sym same),
      )

  due-IsUpdated :
      (s : GatewayState) (token : Text) (file : Option Text) (due : Bool)
      → is_due (turn_count s.sessions token) (read_limits s.gateway_config).0 ≡ due
      → IsUpdated s token file (
          if due
          then run_memory_subagent env s.gateway_config
              (get_history s.sessions token)
              file
              (read_limits s.gateway_config).0
              (read_limits s.gateway_config).1
          else file)
  unfolding run_memory_subagent
  due-IsUpdated s token file false idle =
      inl (
        refl,
        inl (is_due-false (turn_count s.sessions token) (read_limits s.gateway_config).0 idle),
      )
  due-IsUpdated s token file true due =
      updated-IsUpdated s token file due (resolve_agent_model s.gateway_config memory) refl

  -- After the memory agent ran on a device, its memory is as it was, and the turns are none or no
  -- multiple of the interval, there is no model, the model failed or had nothing to say, or the
  -- write was refused; or the turns are a multiple of the interval, the model was asked with the
  -- last turns, twice as many as the interval or all, and the memory before, it said something, the
  -- write was accepted, and the memory is what the word limit leaves of the answer, trimmed.
  pub maybe_run-IsUpdated :
      (s : GatewayState) (token : Text) (file : Option Text)
      → IsUpdated s token file (maybe_run_memory_subagent env s token file)
  unfolding maybe_run_memory_subagent
  maybe_run-IsUpdated s token file =
      due-IsUpdated s token file
        (is_due (turn_count s.sessions token) (read_limits s.gateway_config).0) refl
