-- ===== src/Connection/Reach/Whole.antt =====
-- The functions of a turn and of a reload are these steps, where no other task comes between them.
use rabb1t_claw.Base.{
  true, Option, some, List, [], ◌∷◌, inl, inr, ◌≡◌, refl, sym, ap, ◌∙◌, arith, Text, codes, text_eq,
  Distinct, Bool-cases, is_empty,
}
use rabb1t_claw.Auth.{
  AuthResult, ConnectAuth, ok, failed, local, device_token, authorize_connect, revoked,
  invalid_token, needs_pairing,
}
use rabb1t_claw.Auth.Sound.{authorize-Accepted}
use rabb1t_claw.Connection.{
  SocketEnv, Socket, Incoming, text_message, binary, ping, pong, FrameResult, frame, unreadable,
  handle_incoming, handle_frame, handle_request, handle_connect, connect_result, auth_in,
  registered,
}
use rabb1t_claw.Connection.Reach.{
  Moment, idle, Reachable, accept, enter, request, compare, replace, choose, signal,
}
use rabb1t_claw.Devices.{DeviceStore}
use rabb1t_claw.Protocol.{IncomingFrame}
use rabb1t_claw.State.{
  GatewayState, reload_devices, revoked_tokens, disconnect_revoked_devices, targets, signal_all,
  with_store,
}
use rabb1t_claw.State.Reload.{TokensKept}

-- a moment with some state is reached
abbrev pub IsReached : GatewayState → Type 1
IsReached s = (v : Moment) × Reachable v × (v.state ≡ s)

connect_result-IsReached :
    (env : SocketEnv) (w : Moment) (k : Socket) (id : Text) (auth : Option ConnectAuth)
    (r : AuthResult)
    → authorize_connect w.state.device_store auth k.is_local ≡ r
    → Reachable w
    → IsReached (connect_result env w.state k id auth r).state
connect_result-IsReached env w k id auth (ok local) h r = (w, r, refl)
connect_result-IsReached env w k id auth (ok device_token) h r =
    elim (authorize-Accepted w.state.device_store auth k.is_local {m = device_token} h) [
      | inl (m, l, e) ↦ ground (arith, m)
      | inr (m, (token, t, valid)) ↦ (
        _,
        enter token k.conn_id (inl refl) (accept auth k.is_local token k.conn_id h t r),
        ap (registered w.state k.conn_id) (sym t),
      )
    ]
connect_result-IsReached env w k id auth (failed revoked) h r = (w, r, refl)
connect_result-IsReached env w k id auth (failed invalid_token) h r = (w, r, refl)
connect_result-IsReached env w k id auth (failed needs_pairing) h r = (w, r, refl)

handle_frame-IsReached :
    (env : SocketEnv) (w : Moment) (k : Socket) (f : FrameResult)
    → Reachable w
    → IsReached (handle_frame env w.state k f).state
unfolding handle_request handle_connect
handle_frame-IsReached env w k (unreadable e) r = (w, r, refl)
handle_frame-IsReached env w k (frame (IncomingFrame.request id method params)) r =
    elim (Bool-cases (text_eq method (codes "connect"))) [
      | inl e ↦ rw e (connect_result-IsReached env w k id (auth_in env params) _ refl r)
      | inr e ↦ rw e (_, request env k id method params r, refl)
    ]

-- every turn of a socket's loop
handle_incoming-IsReached :
    (env : SocketEnv) (w : Moment) (k : Socket) (i : Incoming)
    → Reachable w
    → IsReached (handle_incoming env w.state k i).state
unfolding handle_incoming
handle_incoming-IsReached env w k (text_message t) r =
    handle_frame-IsReached env w k (env.parse_frame t) r
handle_incoming-IsReached env w k binary r = (w, r, refl)
handle_incoming-IsReached env w k ping r = (w, r, refl)
handle_incoming-IsReached env w k pong r = (w, r, refl)
handle_incoming-IsReached env w k _ r = (w, r, refl)

disconnect_none :
    (s : GatewayState) (tokens : List Text)
    → is_empty tokens ≡ true
    → disconnect_revoked_devices s tokens ≡ s
unfolding disconnect_revoked_devices targets signal_all
disconnect_none s [] e = refl
disconnect_none s (t ∷ tokens) e = ground arith

-- a whole reload
reload_devices-IsReached :
    (w : Moment) (new : DeviceStore)
    → w.reload ≡ idle
    → Distinct (λ e. e.0) w.state.device_store.devices
    → TokensKept w.state.device_store new
    → Reachable w
    → IsReached (reload_devices w.state (some new)).0
unfolding reload_devices disconnect_revoked_devices
reload_devices-IsReached w new e distinct kept r =
    let tokens = revoked_tokens w.state.device_store new in
    let conns = targets w.state.active_connections tokens in
    (
      _,
      signal conns refl
          (choose tokens refl (replace new tokens refl (compare new e distinct kept r))),
      elim (Bool-cases (is_empty tokens)) [
        | inl none_revoked ↦
            disconnect_none (with_store w.state new) tokens none_revoked ∙ rw none_revoked refl
        | inr some_revoked ↦ rw some_revoked refl
      ],
    )
