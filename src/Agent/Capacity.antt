-- ===== src/Agent/Capacity.antt =====
-- The background agents that are spawned against the items that the trackers hold.
use rabb1t_claw.Base.{
  ℕ, ◌+◌, ◌≤◌, Bool, true, false, Option, List, [], ◌∷◌, ◌++◌, if◌then◌else◌, inl, inr, ◌⊎◌, ◌≡◌,
  ◌≢◌, refl, ap, ◌∙◌, arith, Text, codes, text_eq, count_if, count_if-append, Bool-cases,
  Option-cases,
}
use rabb1t_claw.Devices.{token_prefix}
use rabb1t_claw.Json.{Json}
use rabb1t_claw.Markers.{TaskMarker, parse_task_markers}
use rabb1t_claw.State.{GatewayState, next_id}
use rabb1t_claw.Tracker.{
  TaskStatus, Tracker, items_of, register, running_item, code_status, search_status,
  advanced_status,
}
use rabb1t_claw.Tracker.Bounds.{running_count, register_bounds, register_other}
use rabb1t_claw.Agent.Background.{
  Limits, Spawned, code_agent, search_agent, advanced_agent, memory_agent, Background, has_seen,
  dispatch_code, dispatch_search, dispatch_advanced, dispatch_typed, take_question, answer_question,
  dispatch_marker, dispatch_all, nothing_yet, limits_of, dispatch_background_agents,
}

-- `n` items were added for the device, within `max` if any were, and no other device was touched
pub record Ledger {S : Type 0} ⦃status : TaskStatus S⦄ (before after : Tracker S) (prefix : Text)
    (max n : ℕ) : Type 0 where
  pub added : running_count after prefix ≡ running_count before prefix + n
  pub within : (n ≡ 0) ⊎ (running_count after prefix ≤ max)
  pub others : (j : Text) → prefix ≢ j → items_of after j ≡ items_of before j

module _ {S : Type 0} ⦃status : TaskStatus S⦄ where
  Ledger-register :
      (before after : Tracker S) (prefix : Text) (max n id retained now : ℕ) (desc : Text)
      → Ledger before after prefix max n
      → Ledger before
          (register after prefix id desc max retained now).0
          prefix
          max
          (n + (if (register after prefix id desc max retained now).1 then 1 else 0))
  Ledger-register before after prefix max n id retained now desc l =
      let bounds = register_bounds after prefix id desc max retained now in
      let others = λ (j : Text) (ne : prefix ≢ j).
        register_other after prefix j id desc max retained now ne ∙ l.others j ne in
      elim (Bool-cases (register after prefix id desc max retained now).1) [
        | inl e ↦ rw e record {
          added = omega (arith, (bounds.0 e).0, l.added);
          within = inr (bounds.0 e).1;
          others = others;
        }
        | inr e ↦
            let same = ap (count_if running_item) ((bounds.1 e).1 prefix) in
            rw e record {
              added = omega (arith, same, l.added);
              within = elim l.within [
                | inl z ↦ inl (omega (arith, z))
                | inr w ↦ inr (omega (arith, same, w))
              ];
              others = others;
            }
      ]

abbrev pub is_code : Spawned → Bool
is_code (code_agent id desc) = true
is_code _ = false

abbrev pub is_search : Spawned → Bool
is_search (search_agent id desc) = true
is_search _ = false

abbrev pub is_advanced : Spawned → Bool
is_advanced (advanced_agent id desc) = true
is_advanced _ = false

-- Each tracker against the agents of its kind that were spawned.
pub record Accounted (limits : Limits) (prefix : Text) (s : GatewayState) (b : Background)
    : Type 0 where
  pub code :
      Ledger s.code_tasks b.state.code_tasks prefix limits.code_max (count_if is_code b.spawned)
  pub search :
      Ledger s.search_queries b.state.search_queries prefix limits.search_max
        (count_if is_search b.spawned)
  pub advanced :
      Ledger s.advanced_tasks b.state.advanced_tasks prefix limits.advanced_max
        (count_if is_advanced b.spawned)

-- what the spawn of an accepted task adds to the agents of its kind, and of another
count-started :
    (p : Spawned → Bool) (xs : List Spawned) (accepted : Bool) (task : Spawned)
    → p task ≡ true
    → count_if p (if accepted then xs ++ task ∷ [] else xs)
      ≡ count_if p xs + (if accepted then 1 else 0)
count-started p xs true task h = let c = count_if-append p xs (task ∷ []) in ground (arith, c, h)
count-started p xs false task h = omega arith

count-started_other :
    (p : Spawned → Bool) (xs : List Spawned) (accepted : Bool) (task : Spawned)
    → p task ≡ false
    → count_if p (if accepted then xs ++ task ∷ [] else xs) ≡ count_if p xs
count-started_other p xs true task h =
    let c = count_if-append p xs (task ∷ []) in ground (arith, c, h)
count-started_other p xs false task h = refl

module _ (limits : Limits) (prefix : Text) (now : ℕ) (s : GatewayState) where
  dispatch_code-Accounted :
      (b : Background) (desc : Text)
      → Accounted limits prefix s b
      → Accounted limits prefix s (dispatch_code limits prefix now b desc)
  unfolding dispatch_code next_id
  dispatch_code-Accounted b desc a =
      let id = b.state.next_task_id in
      let accepted =
        (register b.state.code_tasks prefix id desc limits.code_max limits.task_log_max now).1 in
      let task = code_agent id desc in
      record {
        code = rw (count-started is_code b.spawned accepted task refl) (
            Ledger-register s.code_tasks b.state.code_tasks prefix limits.code_max
              (count_if is_code b.spawned) id limits.task_log_max now desc a.code);
        search = rw (count-started_other is_search b.spawned accepted task refl) a.search;
        advanced = rw (count-started_other is_advanced b.spawned accepted task refl) a.advanced;
      }

  dispatch_search-Accounted :
      (b : Background) (desc : Text)
      → Accounted limits prefix s b
      → Accounted limits prefix s (dispatch_search limits prefix now b desc)
  unfolding dispatch_search next_id
  dispatch_search-Accounted b desc a =
      let id = b.state.next_task_id in
      let accepted =
        (register b.state.search_queries prefix id desc limits.search_max limits.task_log_max
          now).1 in
      let task = search_agent id desc in
      record {
        code = rw (count-started_other is_code b.spawned accepted task refl) a.code;
        search = rw (count-started is_search b.spawned accepted task refl) (
            Ledger-register s.search_queries b.state.search_queries prefix limits.search_max
              (count_if is_search b.spawned) id limits.task_log_max now desc a.search);
        advanced = rw (count-started_other is_advanced b.spawned accepted task refl) a.advanced;
      }

  dispatch_advanced-Accounted :
      (b : Background) (desc : Text)
      → Accounted limits prefix s b
      → Accounted limits prefix s (dispatch_advanced limits prefix now b desc)
  unfolding dispatch_advanced next_id
  dispatch_advanced-Accounted b desc a =
      let id = b.state.next_task_id in
      let accepted =
        (register b.state.advanced_tasks prefix id desc limits.advanced_max limits.task_log_max
          now).1 in
      let task = advanced_agent id desc in
      record {
        code = rw (count-started_other is_code b.spawned accepted task refl) a.code;
        search = rw (count-started_other is_search b.spawned accepted task refl) a.search;
        advanced = rw (count-started is_advanced b.spawned accepted task refl) (
            Ledger-register s.advanced_tasks b.state.advanced_tasks prefix limits.advanced_max
              (count_if is_advanced b.spawned) id limits.task_log_max now desc a.advanced);
      }

  dispatch_typed-Accounted :
      (b : Background) (task_type desc : Text)
      → Accounted limits prefix s b
      → Accounted limits prefix s (dispatch_typed limits prefix now b task_type desc)
  unfolding dispatch_typed
  dispatch_typed-Accounted b task_type desc a =
      elim (Bool-cases (text_eq task_type (codes "code"))) [
        | inl e ↦ rw e (dispatch_code-Accounted b desc a)
        | inr e ↦ elim (Bool-cases (text_eq task_type (codes "search"))) [
          | inl f ↦ rw (e, f) (dispatch_search-Accounted b desc a)
          | inr f ↦ elim (Bool-cases (text_eq task_type (codes "advanced"))) [
            | inl g ↦ rw (e, f, g) (dispatch_advanced-Accounted b desc a)
            | inr g ↦ rw (e, f, g) a
          ]
        ]
      ]

  -- the fields that the account reads
  with_seen-Accounted :
      (b : Background) (seen : List (Text × Text))
      → Accounted limits prefix s b
      → Accounted limits prefix s (record b { seen = seen })
  with_seen-Accounted b seen a = record { code = a.code; search = a.search; advanced = a.advanced }

  answer_question-Accounted :
      (b : Background) (id : ℕ) (text : Text)
      → Accounted limits prefix s b
      → Accounted limits prefix s (answer_question limits prefix now b id text)
  unfolding answer_question
  answer_question-Accounted b id text a =
      elim (Option-cases (take_question limits prefix now id b.state.advanced_questions)) [
        | inl e ↦ rw e a
        | inr (questions, e) ↦
            rw e record { code = a.code; search = a.search; advanced = a.advanced }
      ]

  dispatch_marker-Accounted :
      (b : Background) (marker : TaskMarker)
      → Accounted limits prefix s b
      → Accounted limits prefix s (dispatch_marker limits prefix now b marker)
  unfolding dispatch_marker
  dispatch_marker-Accounted b (TaskMarker.dispatch task_type desc) a =
      elim (Bool-cases (has_seen b.seen (task_type, desc))) [
        | inl e ↦ rw e a
        | inr e ↦
            let seen = (task_type, desc) ∷ b.seen in
            rw e (
              dispatch_typed-Accounted (record b { seen = seen }) task_type desc
                (with_seen-Accounted b seen a))
      ]
  dispatch_marker-Accounted b (TaskMarker.answer id text) a = answer_question-Accounted b id text a

  dispatch_all-Accounted :
      (b : Background) (markers : List TaskMarker)
      → Accounted limits prefix s b
      → Accounted limits prefix s (dispatch_all limits prefix now b markers)
  unfolding dispatch_all
  dispatch_all-Accounted b [] a = a
  dispatch_all-Accounted b (marker ∷ markers) a =
      dispatch_all-Accounted (dispatch_marker limits prefix now b marker) markers
        (dispatch_marker-Accounted b marker a)

Ledger-none :
    {S : Type 0} ⦃status : TaskStatus S⦄ (items : Tracker S) (prefix : Text) (max : ℕ)
    → Ledger items items prefix max 0
Ledger-none items prefix max = record {
  added = omega arith;
  within = inl refl;
  others = λ j ne. refl;
}

-- Whatever the blocks of a response ask for: for each of the three kinds, the running items of the
-- device grow by exactly the number of agents that are spawned, they are within the limit of the
-- configuration if any is spawned, and no other device is affected.
pub dispatch-Accounted :
    (parse_json : Text → Option (List Json)) (token : Text) (now : ℕ) (s : GatewayState)
    (full_response : Text)
    → Accounted
        (limits_of s.gateway_config)
        (token_prefix token)
        s
        (dispatch_background_agents parse_json token now s full_response)
unfolding dispatch_background_agents
dispatch-Accounted parse_json token now s full_response =
    let limits = limits_of s.gateway_config in
    let prefix = token_prefix token in
    let start : Accounted limits prefix s (nothing_yet s) = record {
      code = Ledger-none s.code_tasks prefix limits.code_max;
      search = Ledger-none s.search_queries prefix limits.search_max;
      advanced = Ledger-none s.advanced_tasks prefix limits.advanced_max;
    } in
    let markers = parse_task_markers parse_json full_response in
    let b = dispatch_all limits prefix now (nothing_yet s) markers in
    let a = dispatch_all-Accounted limits prefix now s (nothing_yet s) markers start in
    record {
      code = rw (count-started_other is_code b.spawned true memory_agent refl) a.code;
      search = rw (count-started_other is_search b.spawned true memory_agent refl) a.search;
      advanced = rw (count-started_other is_advanced b.spawned true memory_agent refl) a.advanced;
    }
