-- ===== src/Agent/Advanced/Run.antt =====
-- `run_inner` and `run_advanced_task` of src/agent/advanced/agent.rs. What a task does to the shared
-- state while it runs is a list of actions, since other tasks run between them.
pub mod Plan
pub mod Panics
pub mod Settled
mod Turns
mod Loop
use rabb1t_claw.Base.{
  ℕ, zero, suc, ◌+◌, ◌-◌, Bool, true, false, not, Option, none, some, List, [], ◌∷◌, ◌++◌,
  if◌then◌else◌, ltb, leb, ◌==◌, Text, codes, retain, map_or,
}
use rabb1t_claw.Agent.Advanced.{
  Directive, code, search, question, done, parse_directives, AdvancedLimits, read_limits,
  collect_api_env_vars, format_api_availability, format_error_with_progress,
}
use rabb1t_claw.Agent.Advanced.Compress.{user_message, assistant_message, compress_context}
use rabb1t_claw.Agent.Background.{decimal}
use rabb1t_claw.Agent.Request.{ChatRequest, chat_request, replace}
use rabb1t_claw.Agent.Streaming.{ChatStream, collected}
use rabb1t_claw.Budget.{ChatMessage}
use rabb1t_claw.Config.{GatewayConfig, advanced}
use rabb1t_claw.Config.Resolve.{ResolvedAgentModel, resolve_agent_model}
use rabb1t_claw.State.{GatewayState, PendingQuestion}
use rabb1t_claw.Stream.{Collected, ok, err, collect_stream}
use rabb1t_claw.Tracker.{AdvancedTaskStatus, advanced_status, update_status, complete}
use rabb1t_claw.Tracker.Truncate.{truncate}

abbrev pub context_compress_chars : ℕ
context_compress_chars = 80000

abbrev pub context_keep_recent : ℕ
context_keep_recent = 4

-- the bytes of a character in UTF-8
abbrev utf8_len : ℕ → ℕ
utf8_len c = if ltb c 0x80 then 1 else if ltb c 0x800 then 2 else if ltb c 0x10000 then 3 else 4

abbrev text_len : Text → ℕ
text_len [] = 0
text_len (c ∷ cs) = utf8_len c + text_len cs

unfoldable pub total_chars : List ChatMessage → ℕ
total_chars [] = 0
total_chars (m ∷ ms) = text_len m.content + total_chars ms

-- the `Result` of a subtask has the type of `collect_stream`
abbrev pub Subtask : Type 0
Subtask = Collected

-- What the loop meets outside, by its steps (a search that panics gives `none`): the seconds since the start when a step begins, and,
-- rounded up, when a question has been asked, the model, the subtasks, the user's answer if one arrives in
-- time, the model's summary, and the configuration when the keys are read again.
pub record RunEnv : Type 0 where
  pub encode : Text → List ℕ
  pub decode : List ℕ → Option Text
  pub to_uppercase : Text → Text
  pub env_var : Text → Option Text
  pub prompt : Text
  pub elapsed : ℕ → ℕ
  pub waited : ℕ → ℕ
  pub chat : ℕ → ChatRequest → ChatStream
  pub config_at : ℕ → GatewayConfig
  pub run_code : ℕ → List (Text × Text) → Text → Subtask
  pub run_search : ℕ → Text → Text → Option Subtask
  pub answer : ℕ → Text → Option Text
  pub summarize : ℕ → Text → Option Text

-- `Ok((summary, step))` and `Err((error, step))`, and a panic, which ends the thread of the task
pub data Finished : Type 0 where
  completed : Text → ℕ → Finished
  failed : Text → ℕ → Finished
  panicked : ℕ → Finished

pub data Action : Type 0 where
  set_status : AdvancedTaskStatus → Action
  -- the status, the line of the task log and the pending question
  ask : Text → Action

-- the variables of the loop
pub record LoopState : Type 0 where
  pub messages : List ChatMessage
  pub pinned_count : ℕ
  pub progress : List Text

abbrev pub start_loop : Text → LoopState
start_loop description = record {
  messages = user_message (codes "## Task\n\n" ++ description) ∷ [];
  pinned_count = 1;
  progress = [];
}

-- what a step does: it ends the loop or goes on
pub data Next : Type 0 where
  stop : Finished → Next
  go : LoopState → Next

pub record Stepped : Type 0 where
  pub next : Next
  pub actions : List Action
  -- the messages of the request to the model, if one was made
  pub asked : List (List ChatMessage)

pub record Ran : Type 0 where
  pub finished : Finished
  pub actions : List Action
  pub asked : List (List ChatMessage)

module _ (env : RunEnv) (task_id : ℕ) where
  abbrev short : Text → ℕ → Text
  short t n = truncate env.encode env.decode t n

  abbrev step_line : ℕ → Text → Text
  step_line step rest = codes "step " ++ (decimal step ++ rest)

  abbrev with_feedback : LoopState → Text → Text → Next
  with_feedback l note feedback = go (record l {
    messages = l.messages ++ user_message feedback ∷ [];
    progress = l.progress ++ note ∷ [];
  })

  abbrev code_feedback : LoopState → ℕ → Text → Subtask → Next
  code_feedback l step desc (ok output) =
      with_feedback l (step_line step (codes " code ok: " ++ short desc 50))
        (codes "**Code task succeeded.**\n\nOutput:\n" ++ output)
  code_feedback l step desc (err e) =
      with_feedback l (step_line step (codes " code failed: " ++ short e 50))
        (codes "**Code task failed:** " ++ e)

  abbrev search_feedback : LoopState → ℕ → Text → Option Subtask → Next
  search_feedback l step query (some (ok context)) =
      with_feedback l (step_line step (codes " search ok: " ++ short query 50))
        (codes "**Search results for \"" ++ (query ++ (codes "\":**\n\n" ++ context)))
  search_feedback l step query (some (err e)) =
      with_feedback l (step_line step (codes " search failed: " ++ short e 50))
        (codes "**Search failed for \"" ++ (query ++ (codes "\":** " ++ e)))
  search_feedback l step query none = stop (panicked step)

  abbrev answer_feedback : LoopState → ℕ → ℕ → Option Text → Next
  answer_feedback l step remaining none = stop (
      failed
        (format_error_with_progress (codes "no answer within " ++ (decimal remaining ++ codes "s"))
          l.progress)
        step)
  answer_feedback l step remaining (some answer) =
      with_feedback l (step_line step (codes " question answered"))
        (codes "**User answer:** " ++ answer)

  abbrev running_status : ℕ → Text → Action
  running_status step detail = set_status (AdvancedTaskStatus.running step detail)

  -- the first directive of a response, carried out
  unfoldable pub on_directive : ℕ → ℕ → LoopState → Directive → Next × List Action
  on_directive total_timeout_secs step l (done summary) = (stop (completed summary step), [])
  on_directive total_timeout_secs step l (code desc) = (
    code_feedback l step desc (
        env.run_code step (collect_api_env_vars env.to_uppercase env.env_var (env.config_at step))
          desc),
    running_status step (codes "running code: " ++ short desc 50) ∷ [],
  )
  on_directive total_timeout_secs step l (search query) = (
    search_feedback l step query (
        env.run_search step (codes "adv" ++ (decimal task_id ++ (codes "s" ++ decimal step)))
          query),
    running_status step (codes "searching: " ++ short query 50) ∷ [],
  )
  on_directive total_timeout_secs step l (question text) = (
    answer_feedback l step (total_timeout_secs - env.waited step) (env.answer step text),
    ask text ∷ [],
  )

  abbrev compressed : ℕ → LoopState → LoopState
  compressed step l =
      if ltb context_compress_chars (total_chars l.messages)
      then record l {
        messages =
            compress_context (env.summarize step) l.messages l.pinned_count context_keep_recent;
      }
      else l

  abbrev compressed_next : ℕ → Next → Next
  compressed_next step (stop f) = stop f
  compressed_next step (go l) = go (compressed step l)

  abbrev continue_message : ChatMessage
  continue_message =
      user_message (codes "Continue. Emit a ```code, ```search, ```question, or ```done directive.")

  -- with the directives of the response; without one the model is told to go on
  unfoldable pub on_directives : ℕ → ℕ → LoopState → List Directive → Next × List Action
  unfolding on_directive
  on_directives total_timeout_secs step l [] =
      (go (record l { messages = l.messages ++ continue_message ∷ [] }), [])
  on_directives total_timeout_secs step l (d ∷ ds) =
      let (next, actions) = on_directive total_timeout_secs step l d in
      (compressed_next step next, actions)

  -- The response joins the messages; the first one is pinned as the plan.
  abbrev with_response : ℕ → LoopState → Text → LoopState
  with_response step l response = record l {
    messages = l.messages ++ assistant_message response ∷ [];
    pinned_count = if step == 1 then 2 else l.pinned_count;
  }

  unfoldable pub on_response : ℕ → ℕ → LoopState → Collected → Next × List Action
  unfolding on_directives
  on_response total_timeout_secs step l (err e) = (stop (failed e step), [])
  on_response total_timeout_secs step l (ok response) =
      on_directives total_timeout_secs step (with_response step l response)
        (parse_directives response)

  abbrev detail_of : ℕ → Text
  detail_of step = if step == 1 then codes "planning" else codes "executing"

  unfoldable pub run_step : ResolvedAgentModel → AdvancedLimits → Text → ℕ → LoopState → Stepped
  unfolding on_response
  run_step resolved limits system_prompt step l =
      if leb limits.total_timeout_secs (env.elapsed step)
      then record {
        next = stop (
            failed
              (format_error_with_progress
                (codes "total timeout ("
                  ++ (decimal limits.total_timeout_secs ++ codes "s) exceeded"))
                l.progress)
              step);
        actions = [];
        asked = [];
      }
      else (let request = chat_request resolved l.messages (some system_prompt) in
          let (next, actions) =
            on_response limits.total_timeout_secs step l (collected (env.chat step request)) in
          record {
            next = next;
            actions = running_status step (detail_of step) ∷ actions;
            asked = l.messages ∷ [];
          })

  abbrev ran_after : Next → List Action → List (List ChatMessage) → (LoopState → Ran) → Ran
  ran_after (stop f) actions asked rest = record { finished = f; actions = actions; asked = asked }
  ran_after (go l) actions asked rest =
      let r = rest l in
      record { finished = r.finished; actions = actions ++ r.actions; asked = asked ++ r.asked }

  -- the loop, by the steps that are left
  unfoldable pub run_loop : ResolvedAgentModel → AdvancedLimits → Text → ℕ → ℕ → LoopState → Ran
  run_loop resolved limits system_prompt zero step l = record {
    finished =
        failed
          (format_error_with_progress
            (codes "max steps (" ++ (decimal limits.max_steps ++ codes ") exceeded")) l.progress)
          limits.max_steps;
    actions = [];
    asked = [];
  }
  run_loop resolved limits system_prompt (suc left) step l =
      let s = run_step resolved limits system_prompt step l in
      ran_after s.next s.actions s.asked (run_loop resolved limits system_prompt left (step + 1))

  abbrev run_resolved : Option ResolvedAgentModel → AdvancedLimits → Text → Text → Ran
  run_resolved none limits system_prompt description = record {
    finished = failed (codes "no model configured for advanced agent") 0;
    actions = [];
    asked = [];
  }
  run_resolved (some resolved) limits system_prompt description =
      run_loop resolved limits system_prompt limits.max_steps 1 (start_loop description)

  unfoldable pub run_inner : GatewayConfig → Text → Ran
  unfolding run_loop
  run_inner cfg description =
      let api_info =
        format_api_availability (collect_api_env_vars env.to_uppercase env.env_var cfg) in
      run_resolved (resolve_agent_model cfg advanced) (read_limits cfg)
        (replace env.prompt (codes "{available_apis}") api_info) description

-- one action on the shared state, and the lines of the task log
unfoldable pub apply_action : Text → ℕ → GatewayState → Action → GatewayState × List Text
apply_action prefix task_id s (set_status status) =
    (record s { advanced_tasks = update_status s.advanced_tasks prefix task_id status }, [])
apply_action prefix task_id s (ask text) = (
  record s {
    advanced_tasks =
        update_status s.advanced_tasks prefix task_id (AdvancedTaskStatus.needs_input text);
    advanced_questions = s.advanced_questions ++ record { prefix = prefix; task_id = task_id } ∷ [];
  },
  (codes "asking #" ++ (decimal task_id ++ (codes " — " ++ text))) ∷ [],
)

abbrev pub other_task : ℕ → PendingQuestion → Bool
other_task task_id q = not (q.task_id == task_id)

-- the end of `run_advanced_task`, with the lines of the task log; a panic does not get there
unfoldable pub finish_task : Text → ℕ → ℕ → GatewayState → Finished → GatewayState × List Text
finish_task prefix task_id now s (completed summary step) = (
  record s {
    advanced_tasks =
        complete s.advanced_tasks prefix task_id (AdvancedTaskStatus.completed summary) now;
    advanced_questions = retain (other_task task_id) s.advanced_questions;
  },
  (codes "completed #" ++ (decimal task_id ++ (codes " — " ++ summary))) ∷ [],
)
finish_task prefix task_id now s (failed e step) = (
  record s {
    advanced_tasks = complete s.advanced_tasks prefix task_id (AdvancedTaskStatus.failed e) now;
    advanced_questions = retain (other_task task_id) s.advanced_questions;
  },
  (codes "failed #" ++ (decimal task_id ++ (codes " — " ++ e))) ∷ [],
)
finish_task prefix task_id now s (panicked step) = (s, [])

-- what the actions of a run do, and the lines of the task log
unfoldable pub apply_all : Text → ℕ → GatewayState → List Action → GatewayState × List Text
apply_all prefix task_id s [] = (s, [])
apply_all prefix task_id s (a ∷ actions) =
    let (next, lines) = apply_action prefix task_id s a in
    let (end, more) = apply_all prefix task_id next actions in (end, lines ++ more)

-- a whole task, where no other task changes the state between its actions
unfoldable pub run_advanced_task :
    RunEnv → Text → ℕ → ℕ → GatewayConfig → Text → GatewayState → GatewayState × List Text
run_advanced_task env prefix task_id now cfg description s =
    let r = run_inner env task_id cfg description in
    let (working, lines) = apply_all prefix task_id s r.actions in
    let (end, events) = finish_task prefix task_id now working r.finished in (end, lines ++ events)
