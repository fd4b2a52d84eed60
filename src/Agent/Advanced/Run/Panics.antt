-- ===== src/Agent/Advanced/Run/Panics.antt =====
-- A run of an advanced task panics only in a subtask of search.
use rabb1t_claw.Base.{
  ℕ, zero, suc, ◌+◌, Option, none, some, List, [], ◌∷◌, inl, inr, ◌≡◌, refl, leb, Bool-cases, Text,
}
use rabb1t_claw.Agent.Advanced.{
  AdvancedLimits, Directive, code, search, question, done, parse_directives, read_limits,
}
use rabb1t_claw.Agent.Advanced.Run.{
  RunEnv, Next, stop, go, Finished, completed, failed, panicked, Action, Ran, LoopState, Subtask,
  on_directive, on_directives, on_response, run_step, run_loop, run_resolved, run_inner, ran_after,
  start_loop, code_feedback, search_feedback, answer_feedback, compressed_next, with_response,
}
use rabb1t_claw.Agent.Request.{chat_request}
use rabb1t_claw.Agent.Streaming.{collected}
use rabb1t_claw.Budget.{ChatMessage}
use rabb1t_claw.Config.{GatewayConfig, advanced}
use rabb1t_claw.Config.Resolve.{ResolvedAgentModel, resolve_agent_model}
use rabb1t_claw.Stream.{Collected, ok, err}

-- where a run panicked, a search panicked in that step
abbrev pub HasCause : RunEnv → Finished → Type 0
HasCause env (completed summary step) = Unit
HasCause env (failed e step) = Unit
HasCause env (panicked step) = (id : Text) × (query : Text) × (env.run_search step id query ≡ none)

module _ (env : RunEnv) (task_id : ℕ) where
  abbrev NextHasCause : Next → Type 0
  NextHasCause (stop f) = HasCause env f
  NextHasCause (go l) = Unit

  code_feedback-NextHasCause :
      (l : LoopState) (step : ℕ) (desc : Text) (r : Subtask)
      → NextHasCause (code_feedback env task_id l step desc r)
  code_feedback-NextHasCause l step desc (ok output) = tt
  code_feedback-NextHasCause l step desc (err e) = tt

  search_feedback-NextHasCause :
      (l : LoopState) (step : ℕ) (id query : Text) (r : Option Subtask)
      → env.run_search step id query ≡ r
      → NextHasCause (search_feedback env task_id l step query r)
  search_feedback-NextHasCause l step id query (some (ok context)) e = tt
  search_feedback-NextHasCause l step id query (some (err x)) e = tt
  search_feedback-NextHasCause l step id query none e = (id, query, e)

  answer_feedback-NextHasCause :
      (l : LoopState) (step remaining : ℕ) (answer : Option Text)
      → NextHasCause (answer_feedback env task_id l step remaining answer)
  answer_feedback-NextHasCause l step remaining none = tt
  answer_feedback-NextHasCause l step remaining (some answer) = tt

  on_directive-NextHasCause :
      (timeout step : ℕ) (l : LoopState) (d : Directive)
      → NextHasCause (on_directive env task_id timeout step l d).0
  unfolding on_directive
  on_directive-NextHasCause timeout step l (done summary) = tt
  on_directive-NextHasCause timeout step l (code desc) = code_feedback-NextHasCause l step desc _
  on_directive-NextHasCause timeout step l (search query) =
      search_feedback-NextHasCause l step _ query _ refl
  on_directive-NextHasCause timeout step l (question text) = answer_feedback-NextHasCause l step _ _

  compressed_next-NextHasCause :
      (step : ℕ) (next : Next)
      → NextHasCause next
      → NextHasCause (compressed_next env task_id step next)
  compressed_next-NextHasCause step (stop f) h = h
  compressed_next-NextHasCause step (go l) h = tt

  on_directives-NextHasCause :
      (timeout step : ℕ) (l : LoopState) (ds : List Directive)
      → NextHasCause (on_directives env task_id timeout step l ds).0
  unfolding on_directives
  on_directives-NextHasCause timeout step l [] = tt
  on_directives-NextHasCause timeout step l (d ∷ ds) =
      compressed_next-NextHasCause step (on_directive env task_id timeout step l d).0
        (on_directive-NextHasCause timeout step l d)

  on_response-NextHasCause :
      (timeout step : ℕ) (l : LoopState) (c : Collected)
      → NextHasCause (on_response env task_id timeout step l c).0
  unfolding on_response
  on_response-NextHasCause timeout step l (err e) = tt
  on_response-NextHasCause timeout step l (ok t) =
      on_directives-NextHasCause timeout step (with_response env task_id step l t)
        (parse_directives t)

  ran_after-HasCause :
      (n : Next) (actions : List Action) (asked : List (List ChatMessage)) (rest : LoopState → Ran)
      → NextHasCause n
      → ((l : LoopState) → HasCause env (rest l).finished)
      → HasCause env (ran_after env task_id n actions asked rest).finished
  ran_after-HasCause (stop f) actions asked rest h k = h
  ran_after-HasCause (go l) actions asked rest h k = k l

  run_loop-HasCause :
      (resolved : ResolvedAgentModel) (limits : AdvancedLimits) (prompt : Text) (left step : ℕ)
      (l : LoopState)
      → HasCause env (run_loop env task_id resolved limits prompt left step l).finished
  unfolding run_loop run_step
  run_loop-HasCause resolved limits prompt zero step l = tt
  run_loop-HasCause resolved limits prompt (suc left) step l =
      elim (Bool-cases (leb limits.total_timeout_secs (env.elapsed step))) [
        | inl e ↦ rw e tt
        | inr e ↦
            let c = collected (env.chat step (chat_request resolved l.messages (some prompt))) in
            let (next, actions) = on_response env task_id limits.total_timeout_secs step l c in
            rw e (
              ran_after-HasCause next _ (l.messages ∷ [])
                (run_loop env task_id resolved limits prompt left (step + 1))
                (on_response-NextHasCause limits.total_timeout_secs step l c)
                (run_loop-HasCause resolved limits prompt left (step + 1)))
      ]

  run_resolved-HasCause :
      (o : Option ResolvedAgentModel) (limits : AdvancedLimits) (prompt description : Text)
      → HasCause env (run_resolved env task_id o limits prompt description).finished
  run_resolved-HasCause none limits prompt description = tt
  run_resolved-HasCause (some r) limits prompt description =
      run_loop-HasCause r limits prompt limits.max_steps 1 (start_loop description)

  pub run_inner-HasCause :
      (cfg : GatewayConfig) (description : Text)
      → HasCause env (run_inner env task_id cfg description).finished
  unfolding run_inner
  run_inner-HasCause cfg description =
      run_resolved-HasCause (resolve_agent_model cfg advanced) (read_limits cfg) _ description
