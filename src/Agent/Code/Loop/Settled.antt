-- ===== src/Agent/Code/Loop/Settled.antt =====
-- A whole task of a code agent: what it asks and runs, its result, and what it leaves.
use rabb1t_claw.Base.{
  false, ℕ, zero, suc, ◌+◌, ◌*◌, ◌≤◌, Option, none, some, List, [], ◌++◌, ◌≡◌, ◌≢◌, refl, arith,
  Text,
}
use rabb1t_claw.Agent.Code.Loop.{CodeResult, completed, failed}
use rabb1t_claw.Agent.Code.Act.{
  Run, World, Act, Done, Within, bind-Within, behind-Within, quiet-Within, weaken-Within,
}
use rabb1t_claw.Agent.Code.Loop.{
  Job, read_limits, After, returned, next, iterate, go_on, iterations, in_workspace, with_model,
  run_code_loop, status_of, task_job, run_agent, end_task,
}
use rabb1t_claw.Agent.Code.Loop.Runs.{
  Safe, IsShown, IsAfter, iterate-Within, HasOutput-right, HasOutput-left,
}
use rabb1t_claw.Agent.Code.Sandbox.{VenvResult, prefix, no_venv, ensure_venv}
use rabb1t_claw.Agent.Code.Sandbox.Confined.{Anything, ensure_venv-Within}
use rabb1t_claw.Budget.{ChatMessage}
use rabb1t_claw.Config.{GatewayConfig, code}
use rabb1t_claw.Config.Resolve.{ResolvedAgentModel, resolve_agent_model}
use rabb1t_claw.State.{GatewayState}
use rabb1t_claw.Tracker.{CodeTaskStatus, code_status, items_of}
use rabb1t_claw.Tracker.Bounds.{running_count}
use rabb1t_claw.Tracker.Complete.{IsRunning, HasEnded, complete-Frees}

module _ {W : Type 0} (world : World W) (job : Job) where
  -- A task that is completed has an output of python, found within the iterations.
  abbrev pub IsResult : CodeResult → List Run → Type 0
  IsResult (completed output n) runs =
      (1 ≤ n) × (n ≤ job.limits.max_iterations) × IsShown world job output runs
  IsResult (failed e n) runs = n ≤ job.limits.max_iterations

  IsResult-right : (r : CodeResult) (xs ys : List Run) → IsResult r ys → IsResult r (xs ++ ys)
  IsResult-right (completed output n) xs ys (low, high, (stdout, e, h)) =
      (low, high, (stdout, e, HasOutput-right stdout xs ys h))
  IsResult-right (failed e n) xs ys h = h

  right-Within :
      (before : List Run) {d : Done W CodeResult} {a b : ℕ}
      → Within (Safe world job) IsResult a b d
      → Within (Safe world job) (λ r rs. IsResult r (before ++ rs)) a b d
  right-Within before {d} h = record {
    few_asked = h.few_asked;
    few_runs = h.few_runs;
    safe = h.safe;
    holds = IsResult-right d.value before d.runs h.holds;
  }

  IsAfter-IsResult :
      (iteration : ℕ) (r : CodeResult) (runs : List Run)
      → 1 ≤ iteration
      → iteration ≤ job.limits.max_iterations
      → IsAfter world job iteration (returned r) runs
      → IsResult r (runs ++ [])
  IsAfter-IsResult iteration (completed output n) runs low high (same, (stdout, e, h)) = (
    omega (arith, same, low),
    omega (arith, same, high),
    (stdout, e, HasOutput-left stdout runs [] h),
  )
  IsAfter-IsResult iteration (failed e n) runs low high same = omega (arith, same, high)

  module _ (resolved : ResolvedAgentModel) (system_prompt python_prefix : Text) where
    go_on-Within :
        (iteration n : ℕ) (after : After) (before : List Run) (w : W)
        (rest : List ChatMessage → Text → Act W CodeResult)
        → 1 ≤ iteration
        → iteration ≤ job.limits.max_iterations
        → IsAfter world job iteration after before
        → ((messages : List ChatMessage) (e : Text)
            → Within (Safe world job) IsResult (2 * n) (3 * n) (rest messages e w))
        → Within
            (Safe world job)
            (λ r rs. IsResult r (before ++ rs))
            (2 * n)
            (3 * n)
            (go_on world job after rest w)
    go_on-Within iteration n (returned r) before w rest low high h k = record {
      few_asked = omega arith;
      few_runs = omega arith;
      safe = tt;
      holds = IsAfter-IsResult iteration r before low high h;
    }
    go_on-Within iteration n (next messages e) before w rest low high h k =
        right-Within before (k messages e)

    iterations-Within :
        (left iteration : ℕ) (messages : List ChatMessage) (e : Text) (w : W)
        → 1 ≤ iteration
        → iteration + left ≡ suc job.limits.max_iterations
        → Within
            (Safe world job)
            IsResult
            (2 * left)
            (3 * left)
            (iterations world job resolved system_prompt python_prefix left iteration messages e w)
    unfolding iterations
    iterations-Within zero iteration messages e w low total =
        quiet-Within (Safe world job) IsResult (failed e job.limits.max_iterations) w (omega arith)
    iterations-Within (suc left) iteration messages e w low total =
        weaken-Within (Safe world job) IsResult _
          (bind-Within (Safe world job) (IsAfter world job iteration) IsResult
            (iterate world job resolved system_prompt python_prefix iteration messages)
            (λ after.
              go_on world job after
                (iterations world job resolved system_prompt python_prefix left (iteration + 1)))
            w (iterate-Within world job python_prefix iteration resolved system_prompt messages w)
            (λ after w' before h.
              go_on-Within iteration left after before w' _ low (omega (arith, total)) h (λ ms l.
                iterations-Within left (iteration + 1) ms l w' (omega arith)
                  (omega (arith, total)))))
          (omega arith) (omega arith)

  in_workspace-Within :
      (resolved : ResolvedAgentModel) (v : VenvResult) (w : W)
      → Within
          (Safe world job)
          IsResult
          (2 * job.limits.max_iterations)
          (3 * job.limits.max_iterations)
          (in_workspace world job resolved v w)
  unfolding in_workspace
  in_workspace-Within resolved (no_venv e) w = record {
    few_asked = omega arith;
    few_runs = omega arith;
    safe = tt;
    holds = omega arith;
  }
  in_workspace-Within resolved (prefix python_prefix) w = behind-Within (Safe world job) IsResult (
      iterations-Within resolved _ python_prefix job.limits.max_iterations 1 _ _ w (omega arith)
        (omega arith))

  with_model-Within :
      (o : Option ResolvedAgentModel) (w : W)
      → Within
          (Safe world job)
          IsResult
          (2 * job.limits.max_iterations)
          (1 + 3 * job.limits.max_iterations)
          (with_model world job o w)
  with_model-Within none w = record {
    few_asked = omega arith;
    few_runs = omega arith;
    safe = tt;
    holds = omega arith;
  }
  with_model-Within (some resolved) w =
      weaken-Within (Safe world job) IsResult _
        (bind-Within (Safe world job) (Anything world job.workspace job.limits.exec_timeout_secs)
          IsResult (ensure_venv world job.workspace job.limits.exec_timeout_secs)
          (in_workspace world job resolved) w
          (ensure_venv-Within world job.workspace job.limits.exec_timeout_secs w)
          (λ v w' before h. right-Within before (in_workspace-Within resolved v w')))
        (omega arith) (omega arith)

  -- Whatever the model and the sandbox do, the loop ends, within two requests and three commands for
  -- each iteration and one more command.
  pub run_code_loop-Within :
      (cfg : GatewayConfig) (w : W)
      → Within
          (Safe world job)
          IsResult
          (2 * job.limits.max_iterations)
          (1 + 3 * job.limits.max_iterations)
          (run_code_loop world job cfg w)
  unfolding run_code_loop
  run_code_loop-Within cfg w = with_model-Within (resolve_agent_model cfg code) w

-- The task has ended with a status: its place for the device is free, and the items of other devices
-- are as they were.
pub record Freed (token_prefix : Text) (id now : ℕ) (status : CodeTaskStatus) (s end : GatewayState)
    : Type 0 where
  freed : running_count end.code_tasks token_prefix + 1 ≡ running_count s.code_tasks token_prefix
  ended : HasEnded end.code_tasks token_prefix id status now
  devices : (j : Text) → token_prefix ≢ j → items_of end.code_tasks j ≡ items_of s.code_tasks j

status_of-stops : (f : CodeResult) → code_status.is_running (status_of f) ≡ false
status_of-stops (completed output n) = refl
status_of-stops (failed e n) = refl

-- A registered task of a code agent ends, whatever the model, the files and the sandbox do, with at most
-- two requests to the model and three commands for each iteration, and one more command. Each
-- command runs with the limits of the sandbox and the time limit, and of the host it can write the
-- workspace of the device only. A completed task shows an output that a run of the workspace's python
-- ended well with. The task's place for the device is free afterwards, its item has the status
-- of the result, and the items of other devices are as they were.
pub run_agent-Settled :
    {W : Type 0} (to_uppercase : Text → Text) (env : Text → Option Text) (world : World W)
    (job : Job) (token_prefix : Text) (id : ℕ) (description : Text) (now : ℕ) (s : GatewayState)
    (w : W)
    → IsRunning s.code_tasks token_prefix id
    → (let j = task_job to_uppercase env job s.gateway_config token_prefix id description in
        let (end, d) = run_agent to_uppercase env world job token_prefix id description now s w in
        Within
          (Safe world j)
          (IsResult world j)
          (2 * (read_limits s.gateway_config).max_iterations)
          (1 + 3 * (read_limits s.gateway_config).max_iterations)
          d
        × Freed token_prefix id now (status_of d.value) s end.0)
unfolding run_agent end_task
run_agent-Settled to_uppercase env world job token_prefix id description now s w h =
    let cfg = s.gateway_config in
    let d =
      run_code_loop world (task_job to_uppercase env job cfg token_prefix id description) cfg w in
    let (freed, ended, devices) =
      complete-Frees s.code_tasks token_prefix id (status_of d.value) now h
        (status_of-stops d.value) in
    (
      run_code_loop-Within world (task_job to_uppercase env job cfg token_prefix id description) cfg
          w,
      record { freed = freed; ended = ended; devices = devices },
    )
