-- ===== src/Tests/Blocks.antt =====
-- src/agent/tasklog.rs, `build_task_context`, on a device with a running task.
use rabb1t_claw.Base.{
  none, some, [], ◌∷◌, ◌≡◌, refl, arith, codes, lookup, text_eq, trim, trim_start, trim_end,
  is_whitespace,
}
use rabb1t_claw.Agent.Background.{decimal}
use rabb1t_claw.State.{GatewayState}
use rabb1t_claw.TaskLog.{read, keep_last, lines_from, chomp}
use rabb1t_claw.TaskLog.Block.{build_task_context, live_lines, live_line, elapsed_secs, parts}
use rabb1t_claw.TaskLog.Flat.{lacks, lacks-IsFlat}
use rabb1t_claw.TaskLog.Readable.{HasFlatTasks}
use rabb1t_claw.TaskLog.Shown.{IsShown, build_task_context-IsShown}
use rabb1t_claw.Tests.Runs.{a_state}
use rabb1t_claw.Tracker.{CodeTaskStatus, get_running, items_of}

abbrev plotting : GatewayState
plotting = record a_state {
  code_tasks =
      (
        codes "aaaaaaaa",
        record {
          id = 7;
          description = codes "plot";
          status = CodeTaskStatus.running;
          started_at = 100;
          completed_at = none;
        }
            ∷ [],
      )
      ∷ [];
}

plotting-HasFlatTasks : HasFlatTasks plotting (codes "aaaaaaaa")
unfolding get_running items_of lookup text_eq lacks
plotting-HasFlatTasks = ((lacks-IsFlat (codes "plot") refl refl, tt), tt, tt)

build_task_context-IsShown_example :
    IsShown plotting (some (codes "[10:00:00] dispatched #7 code\n")) (codes "aaaaaaaa") 1 130 (
      build_task_context plotting
        (some (codes "[10:00:00] dispatched #7 code\n"))
        (codes "aaaaaaaa")
        1
        130)
build_task_context-IsShown_example =
    build_task_context-IsShown plotting (some (codes "[10:00:00] dispatched #7 code\n"))
      (codes "aaaaaaaa") 1 130 plotting-HasFlatTasks (unfold items_of lookup text_eq in omega arith)
      (unfold items_of lookup text_eq in omega arith)

block_run :
    build_task_context plotting
      (some (codes "[10:00:00] dispatched #7 code\n"))
      (codes "aaaaaaaa")
      2
      130
    ≡ some (codes "[10:00:00] dispatched #7 code\n[live] running #7 code — plot (30s)")
unfolding build_task_context live_lines live_line elapsed_secs parts get_running items_of lookup
    text_eq read trim trim_start trim_end is_whitespace keep_last lines_from chomp decimal
    rabb1t_claw.Base.join
block_run = refl
