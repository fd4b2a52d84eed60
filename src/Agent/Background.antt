-- ===== src/Agent/Background.antt =====
-- `dispatch_background_agents` of src/agent/runner.rs, and `answer_pending_question` of
-- src/agent/advanced/mod.rs. What is spawned, and what is appended to the task log, are lists.
use mathlib.Core.Option
use rabb1t_claw.Base.{
  ℕ, zero, suc, ◌+◌, ◌/◌, ◌%◌, Bool, true, false, ◌&&◌, ◌==◌, Option, none, some, List, [], ◌∷◌,
  ◌++◌, if◌then◌else◌, Text, codes, text_eq, and_then, unwrap_or,
}
use rabb1t_claw.Config.{GatewayConfig, AgentKind, main, code, search, advanced, agent_config}
use rabb1t_claw.Devices.{token_prefix}
use rabb1t_claw.Json.{Json}
use rabb1t_claw.Markers.{TaskMarker, parse_task_markers}
use rabb1t_claw.State.{GatewayState, PendingQuestion, next_id}
use rabb1t_claw.Tracker.{code_status, search_status, advanced_status, register}

abbrev pub default_code_max_concurrent : ℕ
default_code_max_concurrent = 2

abbrev pub default_search_max_concurrent : ℕ
default_search_max_concurrent = 3

abbrev pub default_advanced_max_concurrent : ℕ
default_advanced_max_concurrent = 1

abbrev pub default_task_log_max_entries : ℕ
default_task_log_max_entries = 50

pub record Limits : Type 0 where
  pub code_max : ℕ
  pub search_max : ℕ
  pub advanced_max : ℕ
  pub task_log_max : ℕ

abbrev max_concurrent_of : GatewayConfig → AgentKind → ℕ → ℕ
max_concurrent_of cfg kind default =
    unwrap_or (and_then (agent_config cfg kind) (λ a. a.max_concurrent)) default

unfoldable pub limits_of : GatewayConfig → Limits
limits_of cfg = record {
  code_max = max_concurrent_of cfg code default_code_max_concurrent;
  search_max = max_concurrent_of cfg search default_search_max_concurrent;
  advanced_max = max_concurrent_of cfg advanced default_advanced_max_concurrent;
  task_log_max =
      unwrap_or (and_then (agent_config cfg main) (λ a. a.task_log_max_entries))
        default_task_log_max_entries;
}

-- `{n}` of a number: a `u64` has at most twenty digits
abbrev pub decimal_from : ℕ → ℕ → Text
decimal_from zero n = []
decimal_from (suc fuel) n =
    let rest = decimal_from fuel (n / 10) in
    if (n / 10) == 0 then (b'0' + n % 10) ∷ [] else rest ++ (b'0' + n % 10) ∷ []

unfoldable pub decimal : ℕ → Text
decimal n = decimal_from 20 n

pub data Spawned : Type 0 where
  code_agent : ℕ → Text → Spawned
  search_agent : ℕ → Text → Spawned
  advanced_agent : ℕ → Text → Spawned
  memory_agent : Spawned

pub record Background : Type 0 where
  pub state : GatewayState
  pub spawned : List Spawned
  pub logged : List Text
  pub seen : List (Text × Text)

abbrev pair_eq : Text × Text → Text × Text → Bool
pair_eq (a, b) (c, d) = text_eq a c && text_eq b d

unfoldable pub has_seen : List (Text × Text) → Text × Text → Bool
has_seen [] p = false
has_seen (q ∷ seen) p = if pair_eq q p then true else has_seen seen p

abbrev dispatch_line : ℕ → Text → Text → Text
dispatch_line id task_type desc =
    codes "dispatched #" ++ (decimal id ++ (codes " " ++ (task_type ++ (codes " — " ++ desc))))

-- after `register`: the spawn and the line of the log of a task that was accepted
abbrev pub started : Background → GatewayState → Bool → Spawned → Text → Background
started b s accepted task line = record b {
  state = s;
  spawned = if accepted then b.spawned ++ task ∷ [] else b.spawned;
  logged = if accepted then b.logged ++ line ∷ [] else b.logged;
}

module _ (limits : Limits) (prefix : Text) (now : ℕ) where
  unfoldable pub dispatch_code : Background → Text → Background
  dispatch_code b desc =
      let (id, s) = next_id b.state in
      let (items, accepted) =
        register s.code_tasks prefix id desc limits.code_max limits.task_log_max now in
      started b (record s { code_tasks = items }) accepted (code_agent id desc)
        (dispatch_line id (codes "code") desc)

  unfoldable pub dispatch_search : Background → Text → Background
  dispatch_search b desc =
      let (id, s) = next_id b.state in
      let (items, accepted) =
        register s.search_queries prefix id desc limits.search_max limits.task_log_max now in
      started b (record s { search_queries = items }) accepted (search_agent id desc)
        (dispatch_line id (codes "search") desc)

  unfoldable pub dispatch_advanced : Background → Text → Background
  dispatch_advanced b desc =
      let (id, s) = next_id b.state in
      let (items, accepted) =
        register s.advanced_tasks prefix id desc limits.advanced_max limits.task_log_max now in
      started b (record s { advanced_tasks = items }) accepted (advanced_agent id desc)
        (dispatch_line id (codes "advanced") desc)

  unfoldable pub dispatch_typed : Background → Text → Text → Background
  unfolding dispatch_code dispatch_search dispatch_advanced
  dispatch_typed b task_type desc =
      if text_eq task_type (codes "code")
      then dispatch_code b desc
      else if text_eq task_type (codes "search")
      then dispatch_search b desc
      else if text_eq task_type (codes "advanced")
      then dispatch_advanced b desc
      else b

  abbrev pub asks : ℕ → PendingQuestion → Bool
  asks id q = text_eq q.prefix prefix && q.task_id == id

  -- `position` and `remove`, if a question is found
  unfoldable pub take_question : ℕ → List PendingQuestion → Option (List PendingQuestion)
  take_question id [] = none
  take_question id (q ∷ questions) =
      let rest = take_question id questions in
      if asks id q then some questions else Option.map (◌∷◌ q) rest

  abbrev answered : Background → ℕ → Text → Option (List PendingQuestion) → Background
  answered b id answer none = b
  answered b id answer (some questions) = record b {
    state = record b.state { advanced_questions = questions };
    logged = b.logged ++ (codes "answered #" ++ (decimal id ++ (codes " — " ++ answer))) ∷ [];
  }

  -- `answer_pending_question`, and the line of the log when it found the question
  unfoldable pub answer_question : Background → ℕ → Text → Background
  unfolding take_question
  answer_question b id answer = answered b id answer (take_question id b.state.advanced_questions)

  unfoldable pub dispatch_marker : Background → TaskMarker → Background
  unfolding has_seen dispatch_typed answer_question
  dispatch_marker b (TaskMarker.dispatch task_type desc) =
      let fresh = dispatch_typed (record b { seen = (task_type, desc) ∷ b.seen }) task_type desc in
      if has_seen b.seen (task_type, desc) then b else fresh
  dispatch_marker b (TaskMarker.answer id text) = answer_question b id text

  unfoldable pub dispatch_all : Background → List TaskMarker → Background
  dispatch_all b [] = b
  dispatch_all b (marker ∷ markers) = dispatch_all (dispatch_marker b marker) markers

abbrev pub nothing_yet : GatewayState → Background
nothing_yet s = record { state = s; spawned = []; logged = []; seen = [] }

-- The memory agent is spawned at the end.
unfoldable pub dispatch_background_agents :
    (Text → Option (List Json)) → Text → ℕ → GatewayState → Text → Background
unfolding dispatch_all
dispatch_background_agents parse_json token now s full_response =
    let markers = parse_task_markers parse_json full_response in
    let limits = limits_of s.gateway_config in
    let b = dispatch_all limits (token_prefix token) now (nothing_yet s) markers in
    record b { spawned = b.spawned ++ memory_agent ∷ [] }
