-- ===== src/Agent/Code/Loop/Runs.antt =====
-- What a code agent asks and runs, and what its result rests on.
use rabb1t_claw.Base.{
  ℕ, true, false, not, Option, none, some, List, [], ◌++◌, inl, inr, ◌≡◌, refl, subst, append_assoc,
  arith, Text, codes, Bool-cases, Occurs-append_left, Occurs-append_right, starts_with, trim, ◌==◌,
}
use rabb1t_claw.Agent.Code.Loop.{completed, failed}
use rabb1t_claw.Agent.Code.{extract_python_code, extract_packages}
use rabb1t_claw.Agent.Code.Act.{
  Run, World, Done, Within, pure, ask, bind-Within, behind-Within, quiet-Within,
}
use rabb1t_claw.Agent.Code.Loop.{
  Job, write_script, listing, with_feedback, verify_message, script_name, After, returned, next,
  format_output, exec_sandbox, after_fix, on_fix, on_verdict, on_success, on_exec, on_write,
  on_code, on_pip, on_response, iterate,
}
use rabb1t_claw.Agent.Code.Sandbox.{
  Exec, exec_ended, exec_failed, pip_install, PipResult, pip_ended, pip_failed,
}
use rabb1t_claw.Agent.Code.Sandbox.Confined.{
  IsConfined, HasOutput, Executed, Anything, execute-Within, pip_install-Within,
}
use rabb1t_claw.Agent.Request.{chat_request}
use rabb1t_claw.Agent.Streaming.{collected}
use rabb1t_claw.Budget.{ChatMessage}
use rabb1t_claw.Config.Resolve.{ResolvedAgentModel}
use rabb1t_claw.Stream.{Collected, ok, err}

pub HasOutput-left :
    (stdout : Text) (xs ys : List Run) → HasOutput stdout xs → HasOutput stdout (xs ++ ys)
HasOutput-left stdout xs ys (r, o, here, p, l, s, t) =
    (r, o, Occurs-append_left r xs ys here, p, l, s, t)

pub HasOutput-right :
    (stdout : Text) (xs ys : List Run) → HasOutput stdout ys → HasOutput stdout (xs ++ ys)
HasOutput-right stdout xs ys (r, o, here, p, l, s, t) =
    (r, o, Occurs-append_right r xs ys here, p, l, s, t)

Executed-right : (x : Exec) (xs ys : List Run) → Executed x ys → Executed x (xs ++ ys)
Executed-right (exec_ended true stdout stderr) xs ys h = HasOutput-right stdout xs ys h
Executed-right (exec_ended false stdout stderr) xs ys h = tt
Executed-right (exec_failed e) xs ys h = tt

module _ {W : Type 0} (world : World W) (job : Job) where
  abbrev pub Safe : Run → Type 0
  Safe r = IsConfined job.workspace job.limits.exec_timeout_secs r

  -- an output that a run of python had, as the agent formats it
  abbrev pub IsShown : Text → List Run → Type 0
  IsShown output runs =
      (stdout : Text) × (output ≡ format_output world job stdout) × HasOutput stdout runs

  abbrev pub IsAfter : ℕ → After → List Run → Type 0
  IsAfter iteration (returned (completed output n)) runs = (n ≡ iteration) × IsShown output runs
  IsAfter iteration (returned (failed e n)) runs = n ≡ iteration
  IsAfter iteration (next messages last_error) runs = Unit

  exec_sandbox-Within :
      (python_prefix : Text) (w : W)
      → Within Safe Executed 0 1 (exec_sandbox world job python_prefix w)
  unfolding exec_sandbox
  exec_sandbox-Within python_prefix w =
      execute-Within world job.workspace job.limits.exec_timeout_secs python_prefix _ job.env_vars w

  module _ (python_prefix : Text) (iteration : ℕ) where
    after_fix-IsAfter :
        (messages : List ChatMessage) (verdict : Text) (x : Exec) (outer before : List Run)
        → Executed x before
        → IsAfter iteration
            (after_fix world job iteration messages verdict x)
            (outer ++ (before ++ []))
    after_fix-IsAfter messages verdict (exec_ended true stdout stderr) outer before h =
        (refl, (stdout, refl, HasOutput-right stdout outer _ (HasOutput-left stdout before [] h)))
    after_fix-IsAfter messages verdict (exec_ended false stdout stderr) outer before h = tt
    after_fix-IsAfter messages verdict (exec_failed e) outer before h = tt

    shown :
        (output : Text) (outer : List Run) (w : W) {a b : ℕ}
        → IsShown output outer
        → Within Safe
            (λ y rs. IsAfter iteration y (outer ++ rs))
            a
            b
            (pure (returned (completed output iteration)) w)
    shown output outer w (stdout, e, h) = record {
      few_asked = omega arith;
      few_runs = omega arith;
      safe = tt;
      holds = (refl, (stdout, e, HasOutput-left stdout outer [] h));
    }

    -- an action that returns an error, or goes on
    plain :
        (x : After) (outer : List Run) (w : W) {a b : ℕ}
        → IsAfter iteration x (outer ++ [])
        → Within Safe (λ y rs. IsAfter iteration y (outer ++ rs)) a b (pure x w)
    plain x outer w h = record {
      few_asked = omega arith;
      few_runs = omega arith;
      safe = tt;
      holds = h;
    }

    on_fix-Within :
        (messages : List ChatMessage) (verdict : Text) (o : Option Text) (outer : List Run) (w : W)
        → Within Safe
            (λ a rs. IsAfter iteration a (outer ++ rs))
            0
            1
            (on_fix world job python_prefix iteration messages verdict o w)
    unfolding on_fix
    on_fix-Within messages verdict none outer w = plain _ outer w tt
    on_fix-Within messages verdict (some fix) outer w =
        behind-Within Safe (λ a rs. IsAfter iteration a (outer ++ rs))
          (bind-Within Safe Executed (λ a rs. IsAfter iteration a (outer ++ rs))
            (exec_sandbox world job python_prefix)
            (λ x. pure (after_fix world job iteration messages verdict x))
            (write_script world job fix w).world
            (exec_sandbox-Within python_prefix (write_script world job fix w).world)
            (λ x w' before h.
              quiet-Within Safe (λ a rs. IsAfter iteration a (outer ++ (before ++ rs)))
                (after_fix world job iteration messages verdict x) w'
                (after_fix-IsAfter messages verdict x outer before h)))

    on_verdict-Within :
        (output : Text) (messages : List ChatMessage) (c : Collected) (outer : List Run) (w : W)
        → IsShown output outer
        → Within Safe
            (λ a rs. IsAfter iteration a (outer ++ rs))
            0
            1
            (on_verdict world job python_prefix iteration output messages c w)
    unfolding on_verdict
    on_verdict-Within output messages (err e) outer w h = shown output outer w h
    on_verdict-Within output messages (ok verdict) outer w h =
        elim (Bool-cases (starts_with (trim verdict) (codes "LGTM"))) [
          | inl e ↦ rw (on_verdict, e) (shown output outer w h)
          | inr e ↦
              rw (on_verdict, e)
                (on_fix-Within messages verdict (extract_python_code verdict) outer w)
        ]

    reassociated :
        (outer before : List Run) {d : Done W After} {a b : ℕ}
        → Within Safe (λ y rs. IsAfter iteration y ((outer ++ before) ++ rs)) a b d
        → Within Safe (λ y rs. IsAfter iteration y (outer ++ (before ++ rs))) a b d
    reassociated outer before {d} h = record {
      few_asked = h.few_asked;
      few_runs = h.few_runs;
      safe = h.safe;
      holds = subst (IsAfter iteration d.value) (append_assoc outer before d.runs) h.holds;
    }

    module _ (resolved : ResolvedAgentModel) (system_prompt : Text)
        (messages : List ChatMessage) where
      on_success-Within :
          (response output : Text) (outer : List Run) (w : W)
          → IsShown output outer
          → Within Safe
              (λ a rs. IsAfter iteration a (outer ++ rs))
              1
              1
              (on_success world job resolved system_prompt python_prefix iteration messages response
                output w)
      unfolding on_success ask
      on_success-Within response output outer w h = elim (Bool-cases (not job.verify)) [
        | inl e ↦ rw (on_success, e) (shown output outer w h)
        | inr e ↦ elim (Bool-cases (iteration == job.limits.max_iterations)) [
          | inl q ↦ rw (on_success, e, q) (shown output outer w h)
          | inr q ↦
              let artifacts = listing world job w in
              let asked =
                with_feedback world job messages response
                  (verify_message world job output artifacts.value) in
              let answer = world.chat (chat_request resolved asked (some system_prompt)) w in
              let verdict = on_verdict-Within output asked (collected answer.0) outer answer.1 h in
              rw (on_success, e, q)
                record {
                  few_asked = omega (arith, verdict.few_asked);
                  few_runs = verdict.few_runs;
                  safe = verdict.safe;
                  holds = verdict.holds;
                }
        ]
      ]

      on_exec-Within :
          (response : Text) (x : Exec) (outer : List Run) (w : W)
          → Executed x outer
          → Within Safe
              (λ a rs. IsAfter iteration a (outer ++ rs))
              1
              1
              (on_exec world job resolved system_prompt python_prefix iteration messages response x
                w)
      unfolding on_exec
      on_exec-Within response (exec_failed e) outer w h =
          plain (returned (failed e iteration)) outer w refl
      on_exec-Within response (exec_ended true stdout stderr) outer w h =
          on_success-Within response (format_output world job stdout) outer w (stdout, refl, h)
      on_exec-Within response (exec_ended false stdout stderr) outer w h =
          plain (next _ _) outer w tt

      on_write-Within :
          (response : Text) (e : Option Text) (outer : List Run) (w : W)
          → Within Safe
              (λ a rs. IsAfter iteration a (outer ++ rs))
              1
              2
              (on_write world job resolved system_prompt python_prefix iteration messages response e
                w)
      unfolding on_write
      on_write-Within response (some e) outer w = plain (returned (failed e iteration)) outer w refl
      on_write-Within response none outer w =
          bind-Within Safe Executed (λ a rs. IsAfter iteration a (outer ++ rs))
            (exec_sandbox world job python_prefix)
            (λ x.
              on_exec world job resolved system_prompt python_prefix iteration messages response x)
            w (exec_sandbox-Within python_prefix w)
            (λ x w' before h.
              reassociated outer before
                (on_exec-Within response x (outer ++ before) w' (Executed-right x outer before h)))

      on_code-Within :
          (response : Text) (o : Option Text) (outer : List Run) (w : W)
          → Within Safe
              (λ a rs. IsAfter iteration a (outer ++ rs))
              1
              2
              (on_code world job resolved system_prompt python_prefix iteration messages response o
                w)
      unfolding on_code
      on_code-Within response none outer w = plain (next _ _) outer w tt
      on_code-Within response (some text) outer w =
          let (e, w') =
            world.write (job.workspace ++ (codes "/" ++ script_name world job)) text w in
          behind-Within Safe (λ a rs. IsAfter iteration a (outer ++ rs))
            (on_write-Within response e outer w')

      on_pip-Within :
          (response : Text) (r : PipResult) (outer : List Run) (w : W)
          → Within Safe
              (λ a rs. IsAfter iteration a (outer ++ rs))
              1
              2
              (on_pip world job resolved system_prompt python_prefix iteration messages response r
                w)
      unfolding on_pip
      on_pip-Within response (pip_failed e) outer w =
          plain (returned (failed e iteration)) outer w refl
      on_pip-Within response (pip_ended false out) outer w = plain (next _ _) outer w tt
      on_pip-Within response (pip_ended true out) outer w =
          on_code-Within response (extract_python_code response) outer w

      on_response-Within :
          (c : Collected) (w : W)
          → Within Safe
              (IsAfter iteration)
              1
              3
              (on_response world job resolved system_prompt python_prefix iteration messages c w)
      unfolding on_response
      on_response-Within (err e) w = plain (returned (failed e iteration)) [] w refl
      on_response-Within (ok response) w =
          bind-Within Safe (Anything world job.workspace job.limits.exec_timeout_secs)
            (IsAfter iteration)
            (pip_install world job.workspace python_prefix (extract_packages response)
              job.limits.exec_timeout_secs job.env_vars)
            (on_pip world job resolved system_prompt python_prefix iteration messages response) w
            (pip_install-Within world job.workspace job.limits.exec_timeout_secs python_prefix
              (extract_packages response) job.env_vars w)
            (λ r w' before h. on_pip-Within response r before w')

      pub iterate-Within :
          (w : W)
          → Within Safe
              (IsAfter iteration)
              2
              3
              (iterate world job resolved system_prompt python_prefix iteration messages w)
      unfolding iterate ask
      iterate-Within w =
          let answer = world.chat (chat_request resolved messages (some system_prompt)) w in
          let rest = on_response-Within (collected answer.0) answer.1 in
          record {
            few_asked = omega (arith, rest.few_asked);
            few_runs = rest.few_runs;
            safe = rest.safe;
            holds = rest.holds;
          }
