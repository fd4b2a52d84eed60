-- ===== src/Agent/Code/Sandbox.antt =====
-- src/agent/code/sandbox.rs: the container that scripts run in, and its commands.
pub mod Confined
use rabb1t_claw.Base.{
  ℕ, Bool, true, false, not, ◌&&◌, Option, none, some, List, [], ◌∷◌, ◌++◌, if◌then◌else◌, map,
  Text, codes, from_utf8_lossy, trim, is_empty, retain, map_or, get_elem?, unwrap_or,
}
use rabb1t_claw.Agent.Code.Act.{
  Mount, bindmount_ro, bindmount_rw, symlink, devfsmount, tmpfsmount, Container, Command, Output,
  Launch, ended, not_launched, Host, World, Act, Done, pure, ◌>>=◌, effect, look, launch,
}
use rabb1t_claw.TaskLog.{lines_from}

abbrev pub etc_mounts : List Text
etc_mounts =
    codes "/etc/hosts"
    ∷ codes "/etc/nsswitch.conf"
    ∷ codes "/etc/ssl"
    ∷ codes "/etc/ca-certificates"
    ∷ codes "/etc/ld.so.cache"
    ∷ codes "/etc/ld.so.conf"
    ∷ codes "/etc/ld.so.conf.d"
    ∷ codes "/etc/localtime"
    ∷ []

abbrev pub resolv_conf_source : Host → Text
resolv_conf_source host =
    if host.exists (codes "/run/systemd/resolve/resolv.conf")
    then codes "/run/systemd/resolve/resolv.conf"
    else codes "/etc/resolv.conf"

-- memory, processes and files, each as the soft and the hard limit
abbrev pub sandbox_limits : List (Text × ℕ)
sandbox_limits = (codes "As", 2000000000) ∷ (codes "Nproc", 64) ∷ (codes "Nofile", 256) ∷ []

-- the mount of a top-level directory
abbrev pub top_level_mount : Host → Text → List Mount
top_level_mount host path =
    if host.is_symlink path
    then map_or (host.read_link path) [] (λ target. symlink target path ∷ [])
    else if host.is_dir path
    then bindmount_ro path path ∷ []
    else []

unfoldable pub top_level_mounts : Host → List Text → List Mount
top_level_mounts host [] = []
top_level_mounts host (path ∷ paths) = top_level_mount host path ++ top_level_mounts host paths

unfoldable pub read_only : List Text → List Mount
read_only paths = map (λ path. bindmount_ro path path) paths

unfoldable pub build_container : Host → Text → Text → Bool → Container
build_container host workspace python_prefix network = record {
  mounts =
      read_only (python_prefix ∷ codes "/usr" ∷ [])
      ++ (top_level_mounts host
            (codes "/lib" ∷ codes "/lib64" ∷ codes "/lib32" ∷ codes "/bin" ∷ codes "/sbin" ∷ [])
          ++ (bindmount_ro (resolv_conf_source host) (codes "/etc/resolv.conf")
              ∷ (read_only (retain host.exists etc_mounts)
                  ++ bindmount_rw workspace (codes "/workspace")
                    ∷ devfsmount (codes "/dev")
                    ∷ tmpfsmount (codes "/tmp")
                    ∷ [])));
  limits = sandbox_limits;
  network = network;
  mount_fallback = true;
}

abbrev line_at : List Text → ℕ → Text
line_at lines n = trim (unwrap_or (get_elem? lines n) [])

-- the executable and the prefix that a python prints, if the executable is there
abbrev python_of : Host → Text → Option (Text × Text)
python_of host cmd = map_or (host.python cmd) none λ stdout.
    let lines = lines_from [] (from_utf8_lossy stdout) in
    let executable = line_at lines 0 in
    if not (is_empty executable) && host.exists executable
    then some (executable, line_at lines 1)
    else none

unfoldable pub first_python : Host → List Text → Option (Text × Text)
first_python host [] = none
first_python host (cmd ∷ cmds) = elim (python_of host cmd) [
  | none ↦ first_python host cmds
  | some python ↦ some python
]

unfoldable pub find_python : Host → Option (Text × Text)
unfolding first_python
find_python host = first_python host (codes "python3" ∷ codes "python" ∷ [])

pub data VenvResult : Type 0 where
  prefix : Text → VenvResult
  no_venv : Text → VenvResult

pub data PipResult : Type 0 where
  pip_ended : Bool → Text → PipResult
  pip_failed : Text → PipResult

pub data Exec : Type 0 where
  exec_ended : Bool → Text → Text → Exec
  exec_failed : Text → Exec

module _ {W : Type 0} (world : World W) (workspace : Text) where
  abbrev pub venv_command : Host → Text → Text → ℕ → Command
  venv_command host python python_prefix exec_timeout_secs = record {
    container = build_container host workspace python_prefix false;
    program = python;
    args = codes "-m" ∷ codes "venv" ∷ codes "/workspace/.venv" ∷ [];
    env = (codes "HOME", codes "/workspace") ∷ [];
    wait_timeout = exec_timeout_secs;
  }

  abbrev venv_result : Text → Launch → VenvResult
  venv_result python_prefix (not_launched e) = no_venv (codes "venv creation failed: " ++ e)
  venv_result python_prefix (ended o) =
      if o.success
      then prefix python_prefix
      else no_venv (
          codes "venv creation failed (code "
          ++ (o.exit_code
              ++ (codes "): reason="
                  ++ (o.reason
                      ++ (codes " stdout="
                          ++ (from_utf8_lossy o.stdout
                              ++ (codes " stderr=" ++ from_utf8_lossy o.stderr)))))))

  abbrev create_venv : Text → Text → ℕ → Option Text → Act W VenvResult
  create_venv python python_prefix exec_timeout_secs (some e) = pure (no_venv e)
  create_venv python python_prefix exec_timeout_secs none = do
    host ← look world.host
    l ← launch world (venv_command host python python_prefix exec_timeout_secs)
    pure (venv_result python_prefix l)

  abbrev ensure_with : Bool → ℕ → Option (Text × Text) → Act W VenvResult
  ensure_with there exec_timeout_secs none =
      pure (no_venv (codes "no python3 found on host (tried python3, python)"))
  ensure_with true exec_timeout_secs (some (python, python_prefix)) = pure (prefix python_prefix)
  ensure_with false exec_timeout_secs (some (python, python_prefix)) = do
    e ← effect (world.create_dir_all workspace)
    create_venv python python_prefix exec_timeout_secs e

  unfoldable pub ensure_venv : ℕ → Act W VenvResult
  ensure_venv exec_timeout_secs = do
    host ← look world.host
    ensure_with (host.exists (workspace ++ codes "/.venv")) exec_timeout_secs (find_python host)

  abbrev pub in_venv : Host → Text → Text → List Text → List (Text × Text) → ℕ → Command
  in_venv host python_prefix program args env_vars exec_timeout_secs = record {
    container = build_container host workspace python_prefix true;
    program = program;
    args = args;
    env = (codes "HOME", codes "/workspace") ∷ env_vars;
    wait_timeout = exec_timeout_secs;
  }

  abbrev combined : Output → Text
  combined o =
      let both = from_utf8_lossy o.stdout ++ from_utf8_lossy o.stderr in
      if not o.success && is_empty (trim both) then codes "container error: " ++ o.reason else both

  abbrev pip_result : Launch → PipResult
  pip_result (not_launched e) = pip_failed (codes "pip install failed: " ++ e)
  pip_result (ended o) = pip_ended o.success (combined o)

  unfoldable pub pip_install : Text → List Text → ℕ → List (Text × Text) → Act W PipResult
  pip_install python_prefix [] exec_timeout_secs env_vars = pure (pip_ended true [])
  pip_install python_prefix (p ∷ packages) exec_timeout_secs env_vars = do
    host ← look world.host
    l ← launch world (
        in_venv host python_prefix (codes "/workspace/.venv/bin/pip")
          (codes "install" ∷ codes "--quiet" ∷ p ∷ packages) env_vars exec_timeout_secs)
    pure (pip_result l)

  abbrev stderr_of : Output → Text
  stderr_of o =
      let stdout = from_utf8_lossy o.stdout in
      let stderr = from_utf8_lossy o.stderr in
      if not o.success && is_empty (trim stdout) && is_empty (trim stderr)
      then codes "container error: " ++ o.reason
      else stderr

  abbrev pub exec_result : Launch → Exec
  exec_result (not_launched e) = exec_failed (codes "sandbox exec failed: " ++ e)
  exec_result (ended o) = exec_ended o.success (from_utf8_lossy o.stdout) (stderr_of o)

  unfoldable pub execute_in_sandbox : Text → Text → ℕ → List (Text × Text) → Act W Exec
  execute_in_sandbox python_prefix script_name exec_timeout_secs env_vars = do
    host ← look world.host
    l ← launch world (
        in_venv host python_prefix (codes "/workspace/.venv/bin/python")
          ((codes "/workspace/" ++ script_name) ∷ []) env_vars exec_timeout_secs)
    pure (exec_result l)
