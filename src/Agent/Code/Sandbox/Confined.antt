-- ===== src/Agent/Code/Sandbox/Confined.antt =====
-- What the commands of a code agent can reach.
use rabb1t_claw.Base.{
  ℕ, Bool, true, false, List, [], ◌∷◌, ◌++◌, inl, inr, ◌⊎◌, ◌≡◌, refl, arith, Text, codes, All,
  All-append, Occurs, retain, Bool-cases, Option-cases, Option, none, some, from_utf8_lossy,
}
use rabb1t_claw.Agent.Code.Act.{
  Mount, bindmount_ro, bindmount_rw, Run, Host, World, Launch, Output, ended, not_launched, Command,
  Within, launch,
}
use rabb1t_claw.Agent.Code.Sandbox.{
  etc_mounts, sandbox_limits, top_level_mount, top_level_mounts, read_only, build_container,
  ensure_venv, ensure_with, create_venv, find_python, pip_install, execute_in_sandbox, Exec,
  exec_ended, exec_result, in_venv,
}

-- Only the workspace can be written, and what can be read has its path on the host, but for the
-- resolver's configuration.
abbrev pub IsConfinedMount : Text → Mount → Type 0
IsConfinedMount workspace (bindmount_ro source target) =
    (source ≡ target) ⊎ (target ≡ codes "/etc/resolv.conf")
IsConfinedMount workspace (bindmount_rw source target) =
    (source ≡ workspace) × (target ≡ codes "/workspace")
IsConfinedMount workspace other = Unit

-- a command whose container has those mounts and the limits, and that ends in time
pub record IsConfined (workspace : Text) (timeout : ℕ) (r : Run) : Type 0 where
  pub mounts : All (IsConfinedMount workspace) r.command.container.mounts
  pub limits : r.command.container.limits ≡ sandbox_limits
  pub in_time : r.command.wait_timeout ≡ timeout

module _ (host : Host) (workspace : Text) where
  read_only-IsConfinedMount :
      (paths : List Text) → All (IsConfinedMount workspace) (read_only paths)
  unfolding read_only
  read_only-IsConfinedMount [] = tt
  read_only-IsConfinedMount (p ∷ paths) = (inl refl, read_only-IsConfinedMount paths)

  top_level_mount-IsConfinedMount :
      (path : Text) → All (IsConfinedMount workspace) (top_level_mount host path)
  top_level_mount-IsConfinedMount path = elim (Bool-cases (host.is_symlink path)) [
    | inl e ↦ elim (Option-cases (host.read_link path)) [
      | inl n ↦ rw (e, n) tt
      | inr (target, s) ↦ rw (e, s) (tt, tt)
    ]
    | inr e ↦ elim (Bool-cases (host.is_dir path)) [
      | inl d ↦ rw (e, d) (inl refl, tt)
      | inr d ↦ rw (e, d) tt
    ]
  ]

  top_level_mounts-IsConfinedMount :
      (paths : List Text) → All (IsConfinedMount workspace) (top_level_mounts host paths)
  unfolding top_level_mounts
  top_level_mounts-IsConfinedMount [] = tt
  top_level_mounts-IsConfinedMount (p ∷ paths) =
      All-append (IsConfinedMount workspace) (top_level_mount host p) (top_level_mounts host paths)
        (top_level_mount-IsConfinedMount p) (top_level_mounts-IsConfinedMount paths)

  build_container-IsConfinedMount :
      (python_prefix : Text) (network : Bool)
      → All
          (IsConfinedMount workspace)
          (build_container host workspace python_prefix network).mounts
  unfolding build_container
  build_container-IsConfinedMount python_prefix network =
      let P = IsConfinedMount workspace in
      All-append P (read_only (python_prefix ∷ codes "/usr" ∷ [])) _
        (read_only-IsConfinedMount (python_prefix ∷ codes "/usr" ∷ []))
        (All-append P
          (top_level_mounts host
            (codes "/lib" ∷ codes "/lib64" ∷ codes "/lib32" ∷ codes "/bin" ∷ codes "/sbin" ∷ []))
          _
          (top_level_mounts-IsConfinedMount
            (codes "/lib" ∷ codes "/lib64" ∷ codes "/lib32" ∷ codes "/bin" ∷ codes "/sbin" ∷ []))
          (
            inr refl,
            All-append P (read_only (retain host.exists etc_mounts)) _
                (read_only-IsConfinedMount (retain host.exists etc_mounts))
                ((refl, refl), (tt, (tt, tt))),
          ))

-- among some runs, one of the workspace's python that ended well with an output
abbrev pub HasOutput : Text → List Run → Type 0
HasOutput stdout runs =
    (r : Run) × (o : Output) × Occurs r runs
    × (r.command.program ≡ codes "/workspace/.venv/bin/python")
    × (r.launch ≡ ended o)
    × (o.success ≡ true)
    × (from_utf8_lossy o.stdout ≡ stdout)

abbrev pub Executed : Exec → List Run → Type 0
Executed (exec_ended true stdout stderr) runs = HasOutput stdout runs
Executed _ runs = Unit

module _ {W : Type 0} (world : World W) (workspace : Text) (timeout : ℕ) where
  abbrev pub Anything : {A : Type 0} → A → List Run → Type 0
  Anything x runs = Unit

  in_venv-IsConfined :
      (host : Host) (python_prefix program : Text) (args : List Text)
      (env_vars : List (Text × Text)) (l : Launch)
      → IsConfined workspace timeout (record {
        command = in_venv world workspace host python_prefix program args env_vars timeout;
        launch = l;
      })
  unfolding build_container
  in_venv-IsConfined host python_prefix program args env_vars l = record {
    mounts = build_container-IsConfinedMount host workspace python_prefix true;
    limits = refl;
    in_time = refl;
  }

  exec_ended-Executed :
      (command : Command) (o : Output) (b : Bool) (stderr : Text)
      → command.program ≡ codes "/workspace/.venv/bin/python"
      → o.success ≡ b
      → Executed
          (exec_ended b (from_utf8_lossy o.stdout) stderr)
          (record { command = command; launch = ended o } ∷ [])
  exec_ended-Executed command o true stderr p s =
      (record { command = command; launch = ended o }, o, inl refl, p, refl, s, refl)
  exec_ended-Executed command o false stderr p s = tt

  exec_result-Executed :
      (command : Command) (l : Launch)
      → command.program ≡ codes "/workspace/.venv/bin/python"
      → Executed (exec_result world workspace l) (record { command = command; launch = l } ∷ [])
  exec_result-Executed command (not_launched e) p = tt
  exec_result-Executed command (ended o) p = exec_ended-Executed command o o.success _ p refl

  pub execute-Within :
      (python_prefix script_name : Text) (env_vars : List (Text × Text)) (w : W)
      → Within
          (IsConfined workspace timeout)
          Executed
          0
          1
          (execute_in_sandbox world workspace python_prefix script_name timeout env_vars w)
  unfolding execute_in_sandbox launch
  execute-Within python_prefix script_name env_vars w = record {
    few_asked = omega arith;
    few_runs = omega arith;
    safe = (in_venv-IsConfined (world.host w) python_prefix _ _ env_vars _, tt);
    holds = exec_result-Executed _ _ refl;
  }

  pub pip_install-Within :
      (python_prefix : Text) (packages : List Text) (env_vars : List (Text × Text)) (w : W)
      → Within
          (IsConfined workspace timeout)
          Anything
          0
          1
          (pip_install world workspace python_prefix packages timeout env_vars w)
  unfolding pip_install launch
  pip_install-Within python_prefix [] env_vars w = record {
    few_asked = omega arith;
    few_runs = omega arith;
    safe = tt;
    holds = tt;
  }
  pip_install-Within python_prefix (p ∷ packages) env_vars w = record {
    few_asked = omega arith;
    few_runs = omega arith;
    safe = (in_venv-IsConfined (world.host w) python_prefix _ _ env_vars _, tt);
    holds = tt;
  }

  create_venv-Within :
      (python python_prefix : Text) (o : Option Text) (w : W)
      → Within
          (IsConfined workspace timeout)
          Anything
          0
          1
          (create_venv world workspace python python_prefix timeout o w)
  unfolding launch build_container
  create_venv-Within python python_prefix (some e) w = record {
    few_asked = omega arith;
    few_runs = omega arith;
    safe = tt;
    holds = tt;
  }
  create_venv-Within python python_prefix none w = record {
    few_asked = omega arith;
    few_runs = omega arith;
    safe = (
      record {
        mounts = build_container-IsConfinedMount (world.host w) workspace python_prefix false;
        limits = refl;
        in_time = refl;
      },
      tt,
    );
    holds = tt;
  }

  ensure_with-Within :
      (there : Bool) (o : Option (Text × Text)) (w : W)
      → Within
          (IsConfined workspace timeout)
          Anything
          0
          1
          (ensure_with world workspace there timeout o w)
  ensure_with-Within there none w = record {
    few_asked = omega arith;
    few_runs = omega arith;
    safe = tt;
    holds = tt;
  }
  ensure_with-Within true (some (python, python_prefix)) w = record {
    few_asked = omega arith;
    few_runs = omega arith;
    safe = tt;
    holds = tt;
  }
  ensure_with-Within false (some (python, python_prefix)) w =
      let (e, w') = world.create_dir_all workspace w in
      let created = create_venv-Within python python_prefix e w' in
      record {
        few_asked = omega (arith, created.few_asked);
        few_runs = created.few_runs;
        safe = created.safe;
        holds = tt;
      }

  pub ensure_venv-Within :
      (w : W)
      → Within (IsConfined workspace timeout) Anything 0 1 (ensure_venv world workspace timeout w)
  unfolding ensure_venv
  ensure_venv-Within w =
      let there = (world.host w).exists (workspace ++ codes "/.venv") in
      let ensured = ensure_with-Within there (find_python (world.host w)) w in
      record {
        few_asked = omega (arith, ensured.few_asked);
        few_runs = ensured.few_runs;
        safe = ensured.safe;
        holds = tt;
      }
