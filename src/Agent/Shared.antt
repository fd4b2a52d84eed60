-- ===== src/Agent/Shared.antt =====
-- What the methods of a client leave alone.
use rabb1t_claw.Base.{
  ◌||◌, Option, none, some, List, Text, codes, text_eq, inl, inr, ◌≡◌, refl, Bool-cases, not,
  is_empty, trim,
}
use rabb1t_claw.Agent.Request.{
  HandlerContext, RequestEnv, Parsed, ok, bad, handle_agent, handle_parsed, accept_run, start_run,
  claim, in_flight,
}
use rabb1t_claw.Agent.Dispatch.{handle_health, handle_chat_history, dispatch_method}
use rabb1t_claw.Config.{main}
use rabb1t_claw.Config.Resolve.{ResolvedAgentModel, resolve_agent_model}
use rabb1t_claw.Devices.{DeviceStore}
use rabb1t_claw.Json.{Json}
use rabb1t_claw.State.{GatewayState, ConnectionRegistry, RunKey}

-- what no request changes
abbrev pub shared : GatewayState → DeviceStore × ConnectionRegistry × List Text
shared s = (s.device_store, s.active_connections, s.shutdown)

start_run-shared :
    (env : RequestEnv) (s : GatewayState) (ctx : HandlerContext) (run_id message : Text)
    (o : Option ResolvedAgentModel)
    → shared (start_run env s ctx run_id message o).state ≡ shared s
start_run-shared env s ctx run_id message none = refl
start_run-shared env s ctx run_id message (some r) = refl

accept_run-shared :
    (env : RequestEnv) (s : GatewayState) (ctx : HandlerContext) (run_id message : Text)
    → shared (accept_run env s ctx run_id message).state ≡ shared s
unfolding accept_run
accept_run-shared env s ctx run_id message =
    let key : RunKey = (ctx.device_token, run_id) in
    elim (Bool-cases (not env.tx_open || in_flight s.active_requests key)) [
      | inl e ↦ rw e refl
      | inr e ↦ rw e (
          start_run-shared env (claim s key) ctx run_id message
            (resolve_agent_model s.gateway_config main))
    ]

handle_agent-shared :
    (env : RequestEnv) (s : GatewayState) (ctx : HandlerContext) (params : Option Json)
    → shared (handle_agent env s ctx params).state ≡ shared s
unfolding handle_agent
handle_agent-shared env s ctx none = refl
handle_agent-shared env s ctx (some p) = parsed (env.parse p)
  where
    parsed : (q : Parsed) → shared (handle_parsed env s ctx q).state ≡ shared s
    parsed (bad e) = refl
    parsed (ok params) = elim (Bool-cases (is_empty (trim params.message))) [
      | inl e ↦ rw e refl
      | inr e ↦ rw e (accept_run-shared env s ctx params.idempotency_key (trim params.message))
    ]

pub dispatch_method-shared :
    (env : RequestEnv) (s : GatewayState) (ctx : HandlerContext) (version method : Text)
    (params : Option Json)
    → shared (dispatch_method env s ctx version method params).state ≡ shared s
unfolding dispatch_method
dispatch_method-shared env s ctx version method params =
    elim (Bool-cases (text_eq method (codes "health"))) [
      | inl e ↦ rw e (unfold handle_health in refl)
      | inr e ↦
          elim (Bool-cases (text_eq method (codes "agent") || text_eq method (codes "chat.send"))) [
            | inl f ↦ rw (e, f) (handle_agent-shared env s ctx params)
            | inr f ↦ elim (Bool-cases (text_eq method (codes "chat.history"))) [
              | inl g ↦ rw (e, f, g) (unfold handle_chat_history in refl)
              | inr g ↦ rw (e, f, g) refl
            ]
          ]
    ]
