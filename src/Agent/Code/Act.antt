-- ===== src/Agent/Code/Act.antt =====
-- Actions of a code agent on the world outside of it, with what they ask the model and run in the
-- sandbox: a monad, for the `?` and the early returns of src/agent/code.
use rabb1t_claw.Base.{
  ℕ, ◌+◌, ◌≤◌, Bool, List, [], ◌∷◌, ◌++◌, arith, Text, Bytes, All, All-append, length,
  length-append, Option,
}
use rabb1t_claw.Agent.Request.{ChatRequest}
use rabb1t_claw.Agent.Streaming.{ChatStream}

pub data Mount : Type 0 where
  bindmount_ro bindmount_rw symlink : Text → Text → Mount
  devfsmount tmpfsmount : Text → Mount

-- `hakoniwa::Container`, as it is built
pub record Container : Type 0 where
  pub mounts : List Mount
  pub limits : List (Text × ℕ)
  pub network : Bool
  -- `Runctl::MountFallback`
  pub mount_fallback : Bool

pub record Command : Type 0 where
  pub container : Container
  pub program : Text
  pub args : List Text
  pub env : List (Text × Text)
  pub wait_timeout : ℕ

pub record Output : Type 0 where
  pub success : Bool
  pub exit_code : Text
  pub reason : Text
  pub stdout : Bytes
  pub stderr : Bytes

-- what `output()` returned
pub data Launch : Type 0 where
  ended : Output → Launch
  not_launched : Text → Launch

pub record Run : Type 0 where
  pub command : Command
  pub launch : Launch

-- the files of the host
pub record Host : Type 0 where
  pub exists : Text → Bool
  pub is_dir : Text → Bool
  pub read_link : Text → Option Text
  pub is_symlink : Text → Bool
  -- the names in a directory, none if it cannot be read
  pub read_dir : Text → List Text
  -- the output of `cmd -c …`, if it succeeds
  pub python : Text → Option Bytes

-- the world outside: what calls of it return, and what it is then
pub record World (W : Type 0) : Type 0 where
  pub host : W → Host
  pub chat : ChatRequest → W → ChatStream × W
  pub output : Command → W → Launch × W
  -- the error of a write, if it fails
  pub write : Text → Text → W → Option Text × W
  pub create_dir_all : Text → W → Option Text × W

pub record Done (W A : Type 0) : Type 0 where
  pub value : A
  pub world : W
  -- the number of requests to the model, and the commands in the sandbox, in order
  pub asked : ℕ
  pub runs : List Run

abbrev pub Act : Type 0 → Type 0 → Type 0
Act W A = W → Done W A

abbrev pub pure : {W A : Type 0} → A → Act W A
pure a w = record { value = a; world = w; asked = 0; runs = [] }

infixl 1 ◌>>=◌
abbrev pub ◌>>=◌ : {W A B : Type 0} → Act W A → (A → Act W B) → Act W B
(m >>= f) w =
    let first = m w in
    let rest = f first.value first.world in
    record {
      value = rest.value;
      world = rest.world;
      asked = first.asked + rest.asked;
      runs = first.runs ++ rest.runs;
    }

abbrev pub effect : {W A : Type 0} → (W → A × W) → Act W A
effect f w = let (a, w') = f w in record { value = a; world = w'; asked = 0; runs = [] }

abbrev pub look : {W A : Type 0} → (W → A) → Act W A
look f w = record { value = f w; world = w; asked = 0; runs = [] }

module _ {W : Type 0} (world : World W) where
  unfoldable pub ask : ChatRequest → Act W ChatStream
  ask request w =
      let (stream, w') = world.chat request w in
      record { value = stream; world = w'; asked = 1; runs = [] }

  unfoldable pub launch : Command → Act W Launch
  launch command w =
      let (l, w') = world.output command w in
      record {
        value = l;
        world = w';
        asked = 0;
        runs = record { command = command; launch = l } ∷ [];
      }

-- What an action does at most, and what holds of its value and its commands.
pub record Within {W A : Type 0} (Safe : Run → Type 0) (Q : A → List Run → Type 0)
    (requests commands : ℕ) (d : Done W A) : Type 0 where
  pub few_asked : d.asked ≤ requests
  pub few_runs : length d.runs ≤ commands
  pub safe : All Safe d.runs
  pub holds : Q d.value d.runs

module _ {W A B : Type 0} (Safe : Run → Type 0) where
  pub bind-Within :
      (P : A → List Run → Type 0) (Q : B → List Run → Type 0) (m : Act W A) (f : A → Act W B)
      (w : W) {a b c d : ℕ}
      → Within Safe P a b (m w)
      → ((x : A) (w' : W) (before : List Run)
          → P x before
          → Within Safe (λ y rs. Q y (before ++ rs)) c d (f x w'))
      → Within Safe Q (a + c) (b + d) ((m >>= f) w)
  bind-Within P Q m f w h k =
      let first = m w in
      let rest = k first.value first.world first.runs h.holds in
      record {
        few_asked = omega (arith, h.few_asked, rest.few_asked);
        few_runs = omega (
          arith,
          length-append first.runs (f first.value first.world).runs,
          h.few_runs,
          rest.few_runs,
        );
        safe = All-append Safe first.runs _ h.safe rest.safe;
        holds = rest.holds;
      }

module _ {W A : Type 0} (Safe : Run → Type 0) where
  -- an action that asks nothing and runs nothing
  pub quiet-Within :
      (Q : A → List Run → Type 0) (x : A) (w : W) → Q x [] → Within Safe Q 0 0 (pure x w)
  quiet-Within Q x w q = record {
    few_asked = omega arith;
    few_runs = omega arith;
    safe = tt;
    holds = q;
  }

  pub weaken-Within :
      (Q : A → List Run → Type 0) (d : Done W A) {a b c e : ℕ}
      → Within Safe Q a b d
      → a ≤ c
      → b ≤ e
      → Within Safe Q c e d
  weaken-Within Q d h p q = record {
    few_asked = omega (arith, h.few_asked);
    few_runs = omega (arith, h.few_runs);
    safe = h.safe;
    holds = h.holds;
  }

module _ {W A : Type 0} (Safe : Run → Type 0) where
  -- a call that asks nothing and runs nothing, before an action
  pub behind-Within :
      (Q : A → List Run → Type 0) {d : Done W A} {a b : ℕ}
      → Within Safe Q a b d
      → Within Safe Q a b (record d { asked = 0 + d.asked })
  behind-Within Q h = record {
    few_asked = omega (arith, h.few_asked);
    few_runs = h.few_runs;
    safe = h.safe;
    holds = h.holds;
  }
