-- ===== src/Agent/Dispatch.antt =====
-- src/agent/dispatch.rs: the methods of a connected client.
use rabb1t_claw.Base.{
  ◌-◌, true, false, ◌||◌, Option, none, some, List, [], ◌∷◌, ◌++◌, if◌then◌else◌, Text, codes,
  text_eq, map,
}
use rabb1t_claw.Agent.Request.{
  HandlerContext, Handled, RequestEnv, reply, reply_error, handle_agent,
}
use rabb1t_claw.Json.{Json, str, num, bool, object, array, opt_str}
use rabb1t_claw.Protocol.{response, response_ok, not_found}
use rabb1t_claw.Session.{ConversationTurn, get_history}
use rabb1t_claw.State.{GatewayState}

module _ (env : RequestEnv) (s : GatewayState) (ctx : HandlerContext) where
  abbrev respond : Json → Handled
  respond payload = reply env s (response (response_ok ctx.request_id payload))

  -- `version` is the package's, and `accepted_at` the time of the request
  unfoldable pub handle_health : Text → Handled
  handle_health version = respond (
      object (
        (codes "ok", bool true)
        ∷ (codes "uptimeMs", num (env.accepted_at - s.started_at))
        ∷ (codes "version", str version)
        ∷ []))

  abbrev turn_json : ConversationTurn → Json
  turn_json turn = object (
      (codes "role", str turn.role)
      ∷ (
        codes "content",
        array (
            object ((codes "type", str (codes "text")) ∷ (codes "text", str turn.content) ∷ [])
            ∷ []),
      )
      ∷ (codes "timestamp", num turn.timestamp_ms)
      ∷ (codes "runId", opt_str turn.run_id)
      ∷ [])

  abbrev history_of : Option Text → List ConversationTurn
  history_of none = []
  history_of (some token) = get_history s.sessions token

  unfoldable pub handle_chat_history : Handled
  handle_chat_history = respond (
      object (
        (codes "messages", array (map turn_json (history_of ctx.device_token)))
        ∷ (codes "hasMore", bool false)
        ∷ []))

  unfoldable pub dispatch_method : Text → Text → Option Json → Handled
  unfolding handle_health handle_chat_history
  dispatch_method version method params =
      if text_eq method (codes "health")
      then handle_health version
      else if text_eq method (codes "agent") || text_eq method (codes "chat.send")
      then handle_agent env s ctx params
      else if text_eq method (codes "chat.history")
      then handle_chat_history
      else reply_error env s ctx (not_found (codes "unknown method: " ++ method))
