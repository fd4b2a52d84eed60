-- ===== src/Agent/Code/Loop.antt =====
-- src/agent/code/agent.rs: the loop of a code agent, and the task of one. A panic of a blocking
-- thread (the `join error`) is not modelled.
pub mod Runs
pub mod Settled
use rabb1t_claw.Base.{
  ℕ, zero, suc, ◌+◌, Bool, true, false, not, Option, none, some, List, [], ◌∷◌, ◌++◌, if◌then◌else◌,
  ◌==◌, Text, codes, trim, starts_with, is_empty, unwrap_or, and_then,
}
use rabb1t_claw.Agent.Advanced.{collect_api_env_vars, format_api_availability}
use rabb1t_claw.Agent.Advanced.Compress.{user_message, assistant_message}
use rabb1t_claw.Agent.Background.{decimal}
use rabb1t_claw.Agent.Code.{extract_python_code, extract_packages, list_workspace}
use rabb1t_claw.Agent.Code.Act.{Host, World, Act, Done, pure, ◌>>=◌, effect, look, ask}
use rabb1t_claw.Agent.Code.Sandbox.{
  VenvResult, prefix, no_venv, PipResult, pip_ended, pip_failed, Exec, exec_ended, exec_failed,
  ensure_venv, pip_install, execute_in_sandbox,
}
use rabb1t_claw.Agent.Request.{ChatRequest, chat_request, replace}
use rabb1t_claw.Agent.Streaming.{collected}
use rabb1t_claw.Budget.{ChatMessage}
use rabb1t_claw.Config.{GatewayConfig, agent_config, code}
use rabb1t_claw.Config.Resolve.{ResolvedAgentModel, resolve_agent_model}
use rabb1t_claw.State.{GatewayState}
use rabb1t_claw.Stream.{Collected, ok, err}
use rabb1t_claw.Tracker.{CodeTaskStatus, code_status, complete}
use rabb1t_claw.Tracker.Truncate.{truncate}

abbrev pub default_code_max_iterations : ℕ
default_code_max_iterations = 5

abbrev pub default_code_max_output_tokens : ℕ
default_code_max_output_tokens = 500

abbrev pub default_code_exec_timeout_secs : ℕ
default_code_exec_timeout_secs = 120

pub record CodeLimits : Type 0 where
  pub max_iterations : ℕ
  pub max_output_tokens : ℕ
  pub exec_timeout_secs : ℕ

unfoldable pub read_limits : GatewayConfig → CodeLimits
read_limits cfg =
    let ac = agent_config cfg code in
    record {
      max_iterations = unwrap_or (and_then ac (λ a. a.max_iterations)) default_code_max_iterations;
      max_output_tokens =
          unwrap_or (and_then ac (λ a. a.max_output_tokens)) default_code_max_output_tokens;
      exec_timeout_secs =
          unwrap_or (and_then ac (λ a. a.exec_timeout_secs)) default_code_exec_timeout_secs;
    }

-- The arguments of `run_code_loop`, with the tokenizer and the prompt.
pub record Job : Type 0 where
  pub encode : Text → List ℕ
  pub decode : List ℕ → Option Text
  pub prompt : Text
  -- the directory of the configuration, and the workspace of the device
  pub config_dir : Text
  pub workspace : Text
  pub task_id : Text
  pub description : Text
  pub env_vars : List (Text × Text)
  pub limits : CodeLimits
  pub verify : Bool

-- `Ok((output, iterations))` and `Err((error, iterations))`
pub data CodeResult : Type 0 where
  completed : Text → ℕ → CodeResult
  failed : Text → ℕ → CodeResult

-- what an iteration comes to: the loop returns, or goes on with the messages and the last error
pub data After : Type 0 where
  returned : CodeResult → After
  next : List ChatMessage → Text → After

module _ {W : Type 0} (world : World W) (job : Job) where
  abbrev cut : Text → Text
  cut t = truncate job.encode job.decode t job.limits.max_output_tokens

  abbrev pub format_output : Text → Text
  format_output stdout =
      if is_empty (trim stdout) then codes "(completed with no output)" else cut stdout

  abbrev script_name : Text
  script_name = job.task_id ++ codes ".py"

  abbrev listing : Act W Text
  listing = look (λ w. list_workspace ((world.host w).read_dir job.workspace))

  abbrev write_script : Text → Act W (Option Text)
  write_script text = effect (world.write (job.workspace ++ (codes "/" ++ script_name)) text)

  unfoldable pub exec_sandbox : Text → Act W Exec
  exec_sandbox python_prefix =
      execute_in_sandbox world job.workspace python_prefix script_name job.limits.exec_timeout_secs
        job.env_vars

  abbrev with_feedback : List ChatMessage → Text → Text → List ChatMessage
  with_feedback messages response feedback =
      messages ++ assistant_message response ∷ user_message feedback ∷ []

  abbrev verify_message : Text → Text → Text
  verify_message output artifacts =
      codes "Execution succeeded.\n\n**stdout:**\n"
      ++ (output
          ++ (codes "\n\n**Workspace files:**\n"
              ++ (artifacts
                  ++ (codes "\n\n**Original task:** "
                      ++ (job.description
                          ++ codes
                              "\n\nDoes the output and any created files fully satisfy the task? If yes, respond with exactly `LGTM`. If not, explain what's wrong and provide a fixed ```python block.")))))

  abbrev not_satisfied : List ChatMessage → Text → After
  not_satisfied messages verdict =
      next (messages ++ assistant_message verdict ∷ [])
        (codes "verification: result did not satisfy task")

  -- the run of the fix that a verdict holds
  abbrev after_fix : ℕ → List ChatMessage → Text → Exec → After
  after_fix iteration messages verdict (exec_ended true stdout stderr) =
      returned (completed (format_output stdout) iteration)
  after_fix iteration messages verdict other = not_satisfied messages verdict

  unfoldable pub on_fix : Text → ℕ → List ChatMessage → Text → Option Text → Act W After
  on_fix python_prefix iteration messages verdict none = pure (not_satisfied messages verdict)
  on_fix python_prefix iteration messages verdict (some fix) = do
    e ← write_script fix
    x ← exec_sandbox python_prefix
    pure (after_fix iteration messages verdict x)

  -- the messages end with the question that the verdict answers
  unfoldable pub on_verdict : Text → ℕ → Text → List ChatMessage → Collected → Act W After
  on_verdict python_prefix iteration output messages (err e) =
      pure (returned (completed output iteration))
  on_verdict python_prefix iteration output messages (ok verdict) =
      elim (starts_with (trim verdict) (codes "LGTM")) [
        | true ↦ pure (returned (completed output iteration))
        | false ↦ on_fix python_prefix iteration messages verdict (extract_python_code verdict)
      ]

  unfoldable pub on_success :
      ResolvedAgentModel → Text → Text → ℕ → List ChatMessage → Text → Text → Act W After
  on_success resolved system_prompt python_prefix iteration messages response output =
      elim (not job.verify) [
        | true ↦ pure (returned (completed output iteration))
        | false ↦ elim (iteration == job.limits.max_iterations) [
          | true ↦ pure (returned (completed output iteration))
          | false ↦ do
            artifacts ← listing
            let asked = with_feedback messages response (verify_message output artifacts)
            stream ← ask world (chat_request resolved asked (some system_prompt))
            on_verdict python_prefix iteration output asked (collected stream)
        ]
      ]

  abbrev failed_message : ℕ → Text → Text
  failed_message iteration last_error =
      codes "Execution failed (iteration "
      ++ (decimal iteration
          ++ (codes "/"
              ++ (decimal job.limits.max_iterations
                  ++ (codes "):\n" ++ (last_error ++ codes "\nFix it.")))))

  unfoldable pub on_exec :
      ResolvedAgentModel → Text → Text → ℕ → List ChatMessage → Text → Exec → Act W After
  on_exec resolved system_prompt python_prefix iteration messages response (exec_failed e) =
      pure (returned (failed e iteration))
  on_exec resolved system_prompt python_prefix iteration messages response
        (exec_ended true stdout stderr) =
      on_success resolved system_prompt python_prefix iteration messages response
        (format_output stdout)
  on_exec resolved system_prompt python_prefix iteration messages response
        (exec_ended false stdout stderr) =
      let last_error = cut (if is_empty (trim stderr) then stdout else stderr) in
      pure (next (with_feedback messages response (failed_message iteration last_error)) last_error)

  unfoldable pub on_write :
      ResolvedAgentModel → Text → Text → ℕ → List ChatMessage → Text → Option Text → Act W After
  on_write resolved system_prompt python_prefix iteration messages response (some e) =
      pure (returned (failed e iteration))
  on_write resolved system_prompt python_prefix iteration messages response none = do
    x ← exec_sandbox python_prefix
    on_exec resolved system_prompt python_prefix iteration messages response x

  unfoldable pub on_code :
      ResolvedAgentModel → Text → Text → ℕ → List ChatMessage → Text → Option Text → Act W After
  on_code resolved system_prompt python_prefix iteration messages response none = pure (
      next
        (with_feedback messages response
          (codes "No Python code block found. Include a ```python block."))
        (codes "no code block in response"))
  on_code resolved system_prompt python_prefix iteration messages response (some text) = do
    e ← write_script text
    on_write resolved system_prompt python_prefix iteration messages response e

  unfoldable pub on_pip :
      ResolvedAgentModel → Text → Text → ℕ → List ChatMessage → Text → PipResult → Act W After
  on_pip resolved system_prompt python_prefix iteration messages response (pip_failed e) =
      pure (returned (failed e iteration))
  on_pip resolved system_prompt python_prefix iteration messages response (pip_ended false out) =
      pure (
        next
          (with_feedback messages response
            (codes "pip install failed:\n" ++ (cut out ++ codes "\nFix it.")))
          out)
  on_pip resolved system_prompt python_prefix iteration messages response (pip_ended true out) =
      on_code resolved system_prompt python_prefix iteration messages response
        (extract_python_code response)

  unfoldable pub on_response :
      ResolvedAgentModel → Text → Text → ℕ → List ChatMessage → Collected → Act W After
  on_response resolved system_prompt python_prefix iteration messages (err e) =
      pure (returned (failed e iteration))
  on_response resolved system_prompt python_prefix iteration messages (ok response) = do
    r ←
        pip_install world job.workspace python_prefix (extract_packages response)
          job.limits.exec_timeout_secs job.env_vars
    on_pip resolved system_prompt python_prefix iteration messages response r

  unfoldable pub iterate : ResolvedAgentModel → Text → Text → ℕ → List ChatMessage → Act W After
  iterate resolved system_prompt python_prefix iteration messages = do
    stream ← ask world (chat_request resolved messages (some system_prompt))
    on_response resolved system_prompt python_prefix iteration messages (collected stream)

  abbrev go_on : After → (List ChatMessage → Text → Act W CodeResult) → Act W CodeResult
  go_on (returned r) rest = pure r
  go_on (next messages last_error) rest = rest messages last_error

  -- the loop, by the iterations that are left
  unfoldable pub iterations :
      ResolvedAgentModel → Text → Text → ℕ → ℕ → List ChatMessage → Text → Act W CodeResult
  iterations resolved system_prompt python_prefix zero iteration messages last_error =
      pure (failed last_error job.limits.max_iterations)
  iterations resolved system_prompt python_prefix (suc left) iteration messages last_error = do
    after ← iterate resolved system_prompt python_prefix iteration messages
    go_on after (iterations resolved system_prompt python_prefix left (iteration + 1))

  unfoldable pub in_workspace : ResolvedAgentModel → VenvResult → Act W CodeResult
  in_workspace resolved (no_venv e) = pure (failed e 0)
  in_workspace resolved (prefix python_prefix) = do
    files ← listing
    iterations resolved
        (replace job.prompt (codes "{available_apis}") (format_api_availability job.env_vars))
        python_prefix job.limits.max_iterations 1
        (user_message
            (codes "Task: " ++ (job.description ++ (codes "\n\nWorkspace contents:\n" ++ files)))
          ∷ [])
        []

  abbrev with_model : Option ResolvedAgentModel → Act W CodeResult
  with_model none = pure (failed (codes "no active model configured") 0)
  with_model (some resolved) = do
    venv ← ensure_venv world job.workspace job.limits.exec_timeout_secs
    in_workspace resolved venv

  unfoldable pub run_code_loop : GatewayConfig → Act W CodeResult
  run_code_loop cfg = with_model (resolve_agent_model cfg code)

abbrev pub status_of : CodeResult → CodeTaskStatus
status_of (completed output iterations) = CodeTaskStatus.completed output
status_of (failed e iterations) = CodeTaskStatus.failed e

abbrev event_of : ℕ → CodeResult → Text
event_of task_id (completed output iterations) =
    codes "completed #" ++ (decimal task_id ++ (codes " — " ++ output))
event_of task_id (failed e iterations) = codes "failed #" ++ (decimal task_id ++ (codes " — " ++ e))

abbrev pub device_dir : Text → Text → Text
device_dir config_dir token_prefix = config_dir ++ (codes "/" ++ token_prefix)

abbrev pub workspace_dir : Text → Text → Text
workspace_dir config_dir token_prefix = device_dir config_dir token_prefix ++ codes "/workspace"

-- the arguments that `run_agent` calls the loop with
abbrev pub task_job :
    (Text → Text) → (Text → Option Text) → Job → GatewayConfig → Text → ℕ → Text → Job
task_job to_uppercase env job cfg token_prefix id description = record job {
  workspace = workspace_dir job.config_dir token_prefix;
  task_id = codes "task_" ++ decimal id;
  description = description;
  env_vars = collect_api_env_vars to_uppercase env cfg;
  limits = read_limits cfg;
  verify = true;
}

-- the task of a code agent, by the result of its loop: its end for the device with a prefix, and
-- the line of the task log
unfoldable pub end_task : Text → ℕ → ℕ → GatewayState → CodeResult → GatewayState × Text
end_task token_prefix id now s result = (
  record s { code_tasks = complete s.code_tasks token_prefix id (status_of result) now },
  event_of id result,
)

-- where the configuration does not change and no other task changes the state meanwhile
unfoldable pub run_agent :
    {W : Type 0}
    → (Text → Text)
    → (Text → Option Text)
    → World W
    → Job
    → Text
    → ℕ
    → Text
    → ℕ
    → GatewayState
    → W
    → (GatewayState × Text) × Done W CodeResult
run_agent to_uppercase env world job token_prefix id description now s w =
    let cfg = s.gateway_config in
    let d =
      run_code_loop world (task_job to_uppercase env job cfg token_prefix id description) cfg w in
    (end_task token_prefix id now s d.value, d)
