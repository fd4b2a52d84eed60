-- ===== src/Agent/Advanced/Run/Settled.antt =====
-- What a task leaves in the shared state when it has ended.
use rabb1t_claw.Base.{
  ℕ, zero, suc, ◌+◌, true, false, Option, none, some, List, [], ◌∷◌, ◌++◌, inl, inr, ◌≡◌, ◌≢◌, refl,
  ◌∙◌, arith, leb, Bool-cases, Text, All, All-append, retain,
}
use rabb1t_claw.Agent.Advanced.{
  AdvancedLimits, Directive, code, search, question, done, parse_directives, read_limits,
}
use rabb1t_claw.Agent.Advanced.Run.{
  RunEnv, Next, stop, go, Finished, completed, failed, panicked, Action, set_status, ask, Ran,
  LoopState, on_directive, on_directives, on_response, run_step, run_loop, run_resolved, run_inner,
  ran_after, start_loop, apply_action, apply_all, finish_task, other_task, run_advanced_task,
  with_response,
}
use rabb1t_claw.Agent.Advanced.Run.Panics.{HasCause, run_inner-HasCause}
use rabb1t_claw.Agent.Request.{chat_request}
use rabb1t_claw.Agent.Streaming.{collected}
use rabb1t_claw.Budget.{ChatMessage}
use rabb1t_claw.Config.{GatewayConfig, advanced}
use rabb1t_claw.Config.Resolve.{ResolvedAgentModel, resolve_agent_model}
use rabb1t_claw.State.{GatewayState, PendingQuestion}
use rabb1t_claw.Stream.{Collected, ok, err}
use rabb1t_claw.Tracker.{advanced_status, AdvancedTaskStatus, items_of, complete}
use rabb1t_claw.Tracker.Bounds.{running_count}
use rabb1t_claw.Tracker.Complete.{IsRunning, HasEnded, update_status-IsRunning, complete-Frees}

-- an action that does not end the task
abbrev GoesOn : Action → Type 0
GoesOn (set_status status) = advanced_status.is_running status ≡ true
GoesOn (ask text) = Unit

module _ (env : RunEnv) (task_id : ℕ) where
  on_directive-GoesOn :
      (timeout step : ℕ) (l : LoopState) (d : Directive)
      → All GoesOn (on_directive env task_id timeout step l d).1
  unfolding on_directive
  on_directive-GoesOn timeout step l (done summary) = tt
  on_directive-GoesOn timeout step l (code desc) = (refl, tt)
  on_directive-GoesOn timeout step l (search query) = (refl, tt)
  on_directive-GoesOn timeout step l (question text) = (tt, tt)

  on_directives-GoesOn :
      (timeout step : ℕ) (l : LoopState) (ds : List Directive)
      → All GoesOn (on_directives env task_id timeout step l ds).1
  unfolding on_directives
  on_directives-GoesOn timeout step l [] = tt
  on_directives-GoesOn timeout step l (d ∷ ds) = on_directive-GoesOn timeout step l d

  on_response-GoesOn :
      (timeout step : ℕ) (l : LoopState) (c : Collected)
      → All GoesOn (on_response env task_id timeout step l c).1
  unfolding on_response
  on_response-GoesOn timeout step l (err e) = tt
  on_response-GoesOn timeout step l (ok t) =
      on_directives-GoesOn timeout step (with_response env task_id step l t) (parse_directives t)

  ran_after-GoesOn :
      (n : Next) (actions : List Action) (asked : List (List ChatMessage)) (rest : LoopState → Ran)
      → All GoesOn actions
      → ((l : LoopState) → All GoesOn (rest l).actions)
      → All GoesOn (ran_after env task_id n actions asked rest).actions
  ran_after-GoesOn (stop f) actions asked rest h k = h
  ran_after-GoesOn (go l) actions asked rest h k =
      All-append GoesOn actions (rest l).actions h (k l)

  run_loop-GoesOn :
      (resolved : ResolvedAgentModel) (limits : AdvancedLimits) (prompt : Text) (left step : ℕ)
      (l : LoopState)
      → All GoesOn (run_loop env task_id resolved limits prompt left step l).actions
  unfolding run_loop run_step
  run_loop-GoesOn resolved limits prompt zero step l = tt
  run_loop-GoesOn resolved limits prompt (suc left) step l =
      elim (Bool-cases (leb limits.total_timeout_secs (env.elapsed step))) [
        | inl e ↦ rw e tt
        | inr e ↦
            let request = chat_request resolved l.messages (some prompt) in
            let c = collected (env.chat step request) in
            let (next, actions) = on_response env task_id limits.total_timeout_secs step l c in
            rw e (
              ran_after-GoesOn next _ (l.messages ∷ [])
                (run_loop env task_id resolved limits prompt left (step + 1))
                (refl, on_response-GoesOn limits.total_timeout_secs step l c)
                (run_loop-GoesOn resolved limits prompt left (step + 1)))
      ]

  run_resolved-GoesOn :
      (o : Option ResolvedAgentModel) (limits : AdvancedLimits) (prompt description : Text)
      → All GoesOn (run_resolved env task_id o limits prompt description).actions
  run_resolved-GoesOn none limits prompt description = tt
  run_resolved-GoesOn (some r) limits prompt description =
      run_loop-GoesOn r limits prompt limits.max_steps 1 (start_loop description)

  run_inner-GoesOn :
      (cfg : GatewayConfig) (description : Text)
      → All GoesOn (run_inner env task_id cfg description).actions
  unfolding run_inner
  run_inner-GoesOn cfg description =
      run_resolved-GoesOn (resolve_agent_model cfg advanced) (read_limits cfg) _ description

-- the questions that other tasks wait for
abbrev others : ℕ → GatewayState → List PendingQuestion
others task_id s = retain (other_task task_id) s.advanced_questions

-- What a task at work leaves as it was.
pub record AtWork (prefix : Text) (task_id : ℕ) (s now : GatewayState) : Type 0 where
  running : IsRunning now.advanced_tasks prefix task_id
  count : running_count now.advanced_tasks prefix ≡ running_count s.advanced_tasks prefix
  devices : (j : Text) → prefix ≢ j → items_of now.advanced_tasks j ≡ items_of s.advanced_tasks j
  questions : others task_id now ≡ others task_id s

module _ (prefix : Text) (task_id : ℕ) where
  retain-others :
      (qs : List PendingQuestion)
      → retain (other_task task_id) (qs ++ record { prefix = prefix; task_id = task_id } ∷ [])
        ≡ retain (other_task task_id) qs
  retain-others [] = ground arith
  retain-others (q ∷ qs) = rw (retain-others qs) refl

  apply_action-AtWork :
      (s : GatewayState) (a : Action)
      → IsRunning s.advanced_tasks prefix task_id
      → GoesOn a
      → AtWork prefix task_id s (apply_action prefix task_id s a).0
  unfolding apply_action
  apply_action-AtWork s (set_status status) h g =
      let (running, count, devices) =
        update_status-IsRunning s.advanced_tasks prefix task_id status h g in
      record { running = running; count = count; devices = devices; questions = refl }
  apply_action-AtWork s (ask text) h g =
      let (running, count, devices) =
        update_status-IsRunning s.advanced_tasks prefix task_id
          (AdvancedTaskStatus.needs_input text) h refl in
      record {
        running = running;
        count = count;
        devices = devices;
        questions = retain-others s.advanced_questions;
      }

  apply_all-AtWork :
      (s : GatewayState) (actions : List Action)
      → IsRunning s.advanced_tasks prefix task_id
      → All GoesOn actions
      → AtWork prefix task_id s (apply_all prefix task_id s actions).0
  unfolding apply_all
  apply_all-AtWork s [] h g = record {
    running = h;
    count = refl;
    devices = λ j ne. refl;
    questions = refl;
  }
  apply_all-AtWork s (a ∷ actions) h g =
      let first = apply_action-AtWork s a h g.0 in
      let rest = apply_all-AtWork (apply_action prefix task_id s a).0 actions first.running g.1 in
      record {
        running = rest.running;
        count = rest.count ∙ first.count;
        devices = λ j ne. rest.devices j ne ∙ first.devices j ne;
        questions = rest.questions ∙ first.questions;
      }

-- The task has ended with a status: its place for the device is free, no question of it is left,
-- and the questions of other tasks and the items of other devices are as they were.
pub record Settled (prefix : Text) (task_id now : ℕ) (status : AdvancedTaskStatus)
    (s end : GatewayState) : Type 0 where
  freed : running_count end.advanced_tasks prefix + 1 ≡ running_count s.advanced_tasks prefix
  ended : HasEnded end.advanced_tasks prefix task_id status now
  devices : (j : Text) → prefix ≢ j → items_of end.advanced_tasks j ≡ items_of s.advanced_tasks j
  questions : end.advanced_questions ≡ others task_id s

-- What a run leaves: its task has settled with its summary or its error; or a search panicked in it,
-- and the task counts as running for ever, with whatever questions it had asked.
abbrev pub Leaves : RunEnv → Text → ℕ → ℕ → GatewayState → GatewayState → Finished → Type 0
Leaves env prefix task_id now s end (completed summary step) =
    Settled prefix task_id now (AdvancedTaskStatus.completed summary) s end
Leaves env prefix task_id now s end (failed e step) =
    Settled prefix task_id now (AdvancedTaskStatus.failed e) s end
Leaves env prefix task_id now s end (panicked step) =
    AtWork prefix task_id s end × HasCause env (panicked step)

module _ (prefix : Text) (task_id now : ℕ) (s working : GatewayState) where
  settled :
      (status : AdvancedTaskStatus)
      → advanced_status.is_running status ≡ false
      → AtWork prefix task_id s working
      → Settled prefix task_id now status s (record working {
        advanced_tasks = complete working.advanced_tasks prefix task_id status now;
        advanced_questions = retain (other_task task_id) working.advanced_questions;
      })
  settled status ends work =
      let (freed, ended, devices) =
        complete-Frees working.advanced_tasks prefix task_id status now work.running ends in
      record {
        freed = freed ∙ work.count;
        ended = ended;
        devices = λ j ne. devices j ne ∙ work.devices j ne;
        questions = work.questions;
      }

  finish_task-Leaves :
      (env : RunEnv) (f : Finished)
      → HasCause env f
      → AtWork prefix task_id s working
      → Leaves env prefix task_id now s (finish_task prefix task_id now working f).0 f
  unfolding finish_task
  finish_task-Leaves env (completed summary step) cause work =
      settled (AdvancedTaskStatus.completed summary) refl work
  finish_task-Leaves env (failed e step) cause work =
      settled (AdvancedTaskStatus.failed e) refl work
  finish_task-Leaves env (panicked step) cause work = (work, cause)

-- A registered task that runs alone, whatever its model, its subtasks, the user and the clock do:
-- if its run gives a summary or an error, it has ended with that and the time of its end, one more
-- place is free for its device, no question of it is pending, and the pending questions of other
-- tasks and the items of other devices are as they were. Otherwise a search panicked in a step of
-- the run; then the task still counts as running, and takes its place, and other tasks and devices
-- are as they were.
pub run_advanced_task-Settled :
    (env : RunEnv) (prefix : Text) (task_id now : ℕ) (cfg : GatewayConfig) (description : Text)
    (s : GatewayState)
    → IsRunning s.advanced_tasks prefix task_id
    → Leaves env prefix task_id now s
        (run_advanced_task env prefix task_id now cfg description s).0
        (run_inner env task_id cfg description).finished
unfolding run_advanced_task
run_advanced_task-Settled env prefix task_id now cfg description s h =
    let r = run_inner env task_id cfg description in
    let work =
      apply_all-AtWork prefix task_id s r.actions h
        (run_inner-GoesOn env task_id cfg description) in
    finish_task-Leaves prefix task_id now s (apply_all prefix task_id s r.actions).0 env r.finished
      (run_inner-HasCause env task_id cfg description) work
