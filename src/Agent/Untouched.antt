-- ===== src/Agent/Untouched.antt =====
-- What the dispatch of background agents leaves alone.
use rabb1t_claw.Base.{
  ℕ, Option, List, [], ◌∷◌, inl, inr, ◌≡◌, refl, ◌∙◌, Text, codes, text_eq, Bool-cases,
  Option-cases,
}
use rabb1t_claw.Config.{GatewayConfig}
use rabb1t_claw.Devices.{DeviceStore, token_prefix}
use rabb1t_claw.Json.{Json}
use rabb1t_claw.Markers.{TaskMarker, parse_task_markers}
use rabb1t_claw.Session.{Sessions}
use rabb1t_claw.State.{GatewayState, RunKey, ConnectionRegistry, next_id}
use rabb1t_claw.Agent.Background.{
  Limits, Background, has_seen, dispatch_code, dispatch_search, dispatch_advanced, dispatch_typed,
  take_question, answer_question, dispatch_marker, dispatch_all, nothing_yet, limits_of,
  dispatch_background_agents,
}

-- all but the trackers, the pending questions and the counter of the ids
pub record Core : Type 0 where
  pub active_requests : List RunKey
  pub gateway_config : GatewayConfig
  pub device_store : DeviceStore
  pub active_connections : ConnectionRegistry
  pub sessions : Sessions
  pub shutdown : List Text

abbrev pub core : GatewayState → Core
core s = record {
  active_requests = s.active_requests;
  gateway_config = s.gateway_config;
  device_store = s.device_store;
  active_connections = s.active_connections;
  sessions = s.sessions;
  shutdown = s.shutdown;
}

module _ (limits : Limits) (prefix : Text) (now : ℕ) where
  dispatch_typed-core :
      (b : Background) (task_type desc : Text)
      → core (dispatch_typed limits prefix now b task_type desc).state ≡ core b.state
  unfolding dispatch_typed dispatch_code dispatch_search dispatch_advanced next_id
  dispatch_typed-core b task_type desc = elim (Bool-cases (text_eq task_type (codes "code"))) [
    | inl e ↦ rw e refl
    | inr e ↦ elim (Bool-cases (text_eq task_type (codes "search"))) [
      | inl f ↦ rw (e, f) refl
      | inr f ↦ elim (Bool-cases (text_eq task_type (codes "advanced"))) [
        | inl g ↦ rw (e, f, g) refl
        | inr g ↦ rw (e, f, g) refl
      ]
    ]
  ]

  dispatch_marker-core :
      (b : Background) (marker : TaskMarker)
      → core (dispatch_marker limits prefix now b marker).state ≡ core b.state
  unfolding dispatch_marker answer_question
  dispatch_marker-core b (TaskMarker.dispatch task_type desc) =
      elim (Bool-cases (has_seen b.seen (task_type, desc))) [
        | inl e ↦ rw e refl
        | inr e ↦
            rw e
              (dispatch_typed-core (record b { seen = (task_type, desc) ∷ b.seen }) task_type desc)
      ]
  dispatch_marker-core b (TaskMarker.answer id text) =
      elim (Option-cases (take_question limits prefix now id b.state.advanced_questions)) [
        | inl e ↦ rw e refl
        | inr (questions, e) ↦ rw e refl
      ]

  dispatch_all-core :
      (b : Background) (markers : List TaskMarker)
      → core (dispatch_all limits prefix now b markers).state ≡ core b.state
  unfolding dispatch_all
  dispatch_all-core b [] = refl
  dispatch_all-core b (marker ∷ markers) =
      dispatch_all-core (dispatch_marker limits prefix now b marker) markers
      ∙ dispatch_marker-core b marker

pub dispatch-core :
    (parse_json : Text → Option (List Json)) (token : Text) (now : ℕ) (s : GatewayState)
    (full_response : Text)
    → core (dispatch_background_agents parse_json token now s full_response).state ≡ core s
unfolding dispatch_background_agents
dispatch-core parse_json token now s full_response =
    dispatch_all-core (limits_of s.gateway_config) (token_prefix token) now (nothing_yet s)
      (parse_task_markers parse_json full_response)
