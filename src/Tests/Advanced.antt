-- ===== src/Tests/Advanced.antt =====
-- src/agent/advanced/agent.rs on small runs.
use rabb1t_claw.Base.{
  List, if◌then◌else◌, trim, trim_start, trim_end, is_whitespace, starts_with, text_eq, find, ◌==◌,
  lookup, none, some, [], ◌∷◌, ◌++◌, ◌≡◌, refl, arith, Text, codes, true,
}
use rabb1t_claw.Agent.Advanced.{
  Directive, code, search, parse_directives, directives_from, directive_of,
}
use rabb1t_claw.Agent.Advanced.Compress.{
  Alternates, IsCompressed, compress_context, compress-keeps, user_message, assistant_message,
}
use rabb1t_claw.Agent.Advanced.Directives.{written, parse-written}
use rabb1t_claw.Agent.Advanced.Run.{RunEnv, run_inner, run_advanced_task}
use rabb1t_claw.Agent.Advanced.Run.Settled.{Leaves, run_advanced_task-Settled}
use rabb1t_claw.Agent.Streaming.{opened}
use rabb1t_claw.Budget.{ChatMessage}
use rabb1t_claw.State.{GatewayState}
use rabb1t_claw.Stream.{text, done, ok, err}
use rabb1t_claw.Tests.Accounts.{a_config}
use rabb1t_claw.Tests.Runs.{a_state}
use rabb1t_claw.Tracker.{AdvancedTaskStatus, advanced_status, items_of}

abbrev seven_messages : List ChatMessage
seven_messages =
    user_message (codes "task")
    ∷ assistant_message (codes "plan")
    ∷ user_message (codes "result 1")
    ∷ assistant_message (codes "step 2")
    ∷ user_message (codes "result 2")
    ∷ assistant_message (codes "step 3")
    ∷ user_message (codes "result 3")
    ∷ []

compress-keeps_example :
    Alternates true (compress_context (λ t. some (codes "done so far")) seven_messages 2 1)
    × IsCompressed seven_messages 2 1
        (compress_context (λ t. some (codes "done so far")) seven_messages 2 1)
compress-keeps_example =
    compress-keeps (λ t. some (codes "done so far")) seven_messages 2 1
      (refl, (refl, (refl, (refl, (refl, (refl, (refl, tt))))))) (omega arith)

abbrev some_code : Directive
some_code = code (codes "plot\nsin")

abbrev a_search : Text
a_search = codes "\nor\n```search\nsin\n```"

parse-written_example :
    parse_directives (written some_code ++ a_search) ≡ some_code ∷ parse_directives a_search
parse-written_example =
    parse-written some_code a_search (omega arith)
      (unfold trim trim_start trim_end is_whitespace in refl)

parse_run : parse_directives (written some_code ++ a_search) ≡ some_code ∷ search (codes "sin") ∷ []
unfolding parse_directives directives_from directive_of written find starts_with trim trim_start
    trim_end is_whitespace text_eq
parse_run = refl

-- a model that asks for code, and ends behind its result
abbrev a_run_env : RunEnv
a_run_env = record {
  encode = λ t. t;
  decode = λ t. some t;
  to_uppercase = λ t. t;
  env_var = λ t. none;
  prompt = codes "You plan. {available_apis}";
  elapsed = λ step. step;
  waited = λ step. step;
  chat = λ step request. opened (
      text (if step == 1 then codes "```code\nplot\n```" else codes "```done\nplotted\n```")
      ∷ done
      ∷ []);
  config_at = λ step. a_config;
  run_code = λ step vars desc. ok (codes "3 files");
  run_search = λ step id query. some (err (codes "no results"));
  answer = λ step question. none;
  summarize = λ step input. none;
}

abbrev with_task : GatewayState
with_task = record a_state {
  advanced_tasks =
      (
        codes "aaaaaaaa",
        record {
          id = 1;
          description = codes "Plot sin";
          status = AdvancedTaskStatus.running 0 (codes "initializing");
          started_at = 5;
          completed_at = none;
        }
            ∷ [],
      )
      ∷ [];
  advanced_questions = record { prefix = codes "aaaaaaaa"; task_id = 4 } ∷ [];
}

run_advanced_task-Settled_example :
    Leaves a_run_env
      (codes "aaaaaaaa")
      1
      9
      with_task
      (run_advanced_task a_run_env (codes "aaaaaaaa") 1 9 a_config (codes "Plot sin") with_task).0
      (run_inner a_run_env 1 a_config (codes "Plot sin")).finished
run_advanced_task-Settled_example =
    run_advanced_task-Settled a_run_env (codes "aaaaaaaa") 1 9 a_config (codes "Plot sin") with_task
      (record {
        item = record {
          id = 1;
          description = codes "Plot sin";
          status = AdvancedTaskStatus.running 0 (codes "initializing");
          started_at = 5;
          completed_at = none;
        };
        found = unfold items_of lookup text_eq in refl;
        running = refl;
      })
