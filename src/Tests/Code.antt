-- ===== src/Tests/Code.antt =====
-- src/agent/code on a small world: a model that writes one script and likes its output, and a
-- sandbox in which every command prints 42.
use rabb1t_claw.Base.{
  if◌then◌else◌, ◌==◌, ◌+◌, ◌*◌, ℕ, none, some, [], ◌∷◌, ◌≡◌, refl, codes, true, false, lookup,
  text_eq, from_utf8_lossy, find, starts_with, trim, trim_start, trim_end, is_whitespace,
}
use rabb1t_claw.Agent.Code.Loop.{completed}
use rabb1t_claw.Agent.Code.{extract_python_code, extract_packages, packages_block}
use rabb1t_claw.Agent.Code.Act.{World, Host, Within, ended, ask, launch}
use rabb1t_claw.Agent.Code.Loop.{
  Job, read_limits, task_job, run_agent, run_code_loop, status_of, in_workspace, iterations,
  iterate, on_response, on_pip, on_code, on_write, on_exec, on_success, on_verdict, exec_sandbox,
  end_task,
}
use rabb1t_claw.Agent.Code.Loop.Runs.{Safe}
use rabb1t_claw.Agent.Code.Loop.Settled.{IsResult, Freed, run_agent-Settled}
use rabb1t_claw.Agent.Code.Sandbox.{
  ensure_venv, find_python, first_python, pip_install, execute_in_sandbox,
}
use rabb1t_claw.Agent.Streaming.{opened}
use rabb1t_claw.Config.Resolve.{resolve_agent_model, model_key_of}
use rabb1t_claw.Config.{agent_config}
use rabb1t_claw.State.{GatewayState}
use rabb1t_claw.Stream.{text, done, collect_stream}
use rabb1t_claw.TaskLog.{lines_from, chomp}
use rabb1t_claw.Tests.Runs.{a_state}
use rabb1t_claw.Tracker.{CodeTaskStatus, TrackedItem, items_of}
use rabb1t_claw.Tracker.Truncate.{truncate, count_tokens}

abbrev a_host : Host
a_host = record {
  exists = λ path. true;
  is_dir = λ path. true;
  read_link = λ path. none;
  is_symlink = λ path. false;
  read_dir = λ path. codes "task_1.py" ∷ codes ".venv" ∷ [];
  python = λ cmd. some (codes "/usr/bin/python3\n/usr\n");
}

-- the state of the world is the number of requests so far
abbrev a_world : World ℕ
a_world = record {
  host = λ w. a_host;
  chat = λ request w. (
    opened
        (text (if w == 0 then codes "```python\nprint(6 * 7)\n```" else codes "LGTM") ∷ done ∷ []),
    w + 1,
  );
  output = λ command w. (
    ended (record {
      success = true;
      exit_code = codes "0";
      reason = [];
      stdout = codes "42\n";
      stderr = [];
    }),
    w,
  );
  write = λ path content w. (none, w);
  create_dir_all = λ path w. (none, w);
}

abbrev a_code_job : Job
a_code_job = record {
  encode = λ t. t;
  decode = λ t. some t;
  prompt = codes "You write scripts. {available_apis}";
  config_dir = codes "/data";
  workspace = [];
  task_id = [];
  description = [];
  env_vars = [];
  limits = read_limits a_state.gateway_config;
  verify = true;
}

abbrev a_code_task : TrackedItem CodeTaskStatus
a_code_task = record {
  id = 1;
  description = codes "Compute";
  status = CodeTaskStatus.running;
  started_at = 5;
  completed_at = none;
}

abbrev with_code_task : GatewayState
with_code_task = record a_state { code_tasks = (codes "aaaaaaaa", a_code_task ∷ []) ∷ [] }

run_agent-Settled_example :
    (let j =
        task_job
          (λ t. t)
          (λ k. none)
          a_code_job
          with_code_task.gateway_config
          (codes "aaaaaaaa")
          1
          (codes "Compute") in
      let (end, d) =
        run_agent
          (λ t. t)
          (λ k. none)
          a_world
          a_code_job
          (codes "aaaaaaaa")
          1
          (codes "Compute")
          9
          with_code_task
          0 in
      Within
        (Safe a_world j)
        (IsResult a_world j)
        (2 * (read_limits with_code_task.gateway_config).max_iterations)
        (1 + 3 * (read_limits with_code_task.gateway_config).max_iterations)
        d
      × Freed (codes "aaaaaaaa") 1 9 (status_of d.value) with_code_task end.0)
run_agent-Settled_example =
    run_agent-Settled (λ t. t) (λ k. none) a_world a_code_job (codes "aaaaaaaa") 1 (codes "Compute")
      9 with_code_task 0
      (record {
        item = a_code_task;
        found = unfold items_of lookup text_eq in refl;
        running = refl;
      })

run_code_run :
    (run_agent
      (λ t. t)
      (λ k. none)
      a_world
      a_code_job
      (codes "aaaaaaaa")
      1
      (codes "Compute")
      9
      with_code_task
      0).1.value
    ≡ completed (codes "42\n") 1
unfolding run_agent end_task run_code_loop resolve_agent_model model_key_of agent_config lookup
    text_eq ensure_venv find_python first_python lines_from chomp from_utf8_lossy trim trim_start
    trim_end is_whitespace in_workspace iterations iterate ask launch on_response on_pip on_code
    on_write on_exec on_success on_verdict exec_sandbox execute_in_sandbox pip_install
    extract_python_code extract_packages packages_block find starts_with truncate count_tokens
    read_limits collect_stream
run_code_run = refl
