-- ===== src/Connection/Turns.antt =====
-- What one turn of a socket may do.
use mathlib.Core.Option.{some-injective, none-ne-some}
use rabb1t_claw.Base.{
  Bool, true, false, Option, none, some, ◌∙◌, subst, text_eq_iff, Option-cases, inl, inr, ◌⊎◌, ◌≡◌,
  refl, sym, ap, Text, codes, text_eq, Bool-cases,
}
use rabb1t_claw.Agent.Request.{HandlerContext}
use rabb1t_claw.Auth.{
  AuthMethod, AuthResult, ConnectAuth, ok, failed, local, device_token, authorize_connect, revoked,
  invalid_token, needs_pairing,
}
use rabb1t_claw.Connection.{
  SocketEnv, Socket, Turn, Incoming, text_message, binary, ping, pong, FrameResult, frame,
  unreadable, handle_incoming, handle_frame, handle_request, other_method, handle_connect,
  connect_result, session_token, auth_in,
}
use rabb1t_claw.Json.{Json}
use rabb1t_claw.Protocol.{IncomingFrame, request}
use rabb1t_claw.State.{GatewayState}

-- the credentials that `connect` parameters hold: none if they are missing or cannot be read
abbrev pub Presents : SocketEnv → Option Json → Option ConnectAuth → Type 0
Presents env params auth =
    ((params ≡ none) × (auth ≡ none))
    ⊎ ((p : Json) × (params ≡ some p)
        × (((env.parse_connect p ≡ none) × (auth ≡ none)) ⊎ (env.parse_connect p ≡ some auth)))

-- the device of a session: that of the token that was presented, and none for a local one
abbrev pub Names : AuthMethod → Option ConnectAuth → Option Text → Type 0
Names m auth token =
    ((m ≡ local) × (token ≡ none))
    ⊎ ((m ≡ device_token)
        × (((auth ≡ none) × (token ≡ none))
            ⊎ ((a : ConnectAuth) × (auth ≡ some a) × (token ≡ a.token))))

-- the frame is a `connect` whose credentials are accepted, and the socket after it
abbrev pub IsAdmitted : SocketEnv → GatewayState → Socket → IncomingFrame → Socket → Type 0
IsAdmitted env s k f after =
    (id : Text) × (params : Option Json) × (auth : Option ConnectAuth) × (m : AuthMethod) × (f
      ≡ request id (codes "connect") params)
    × Presents env params auth
    × (authorize_connect s.device_store auth k.is_local ≡ ok m)
    × (after.connected ≡ true)
    × Names m auth after.authenticated_token

-- What a frame does to a socket. A request is passed on only from a connected socket, under its own
-- id and the token that the socket was connected with, and not for `connect`.
pub record FrameFaithful (env : SocketEnv) (s : GatewayState) (k : Socket) (f : IncomingFrame)
    (t : Turn) : Type 0 where
  pub gated :
      (ctx : HandlerContext)
      → t.dispatched ≡ some ctx
      → (k.connected ≡ true)
        × (ctx.device_token ≡ k.authenticated_token)
        × ((method : Text) × (params : Option Json) × (f ≡ request ctx.request_id method params)
            × (text_eq method (codes "connect") ≡ false))
  pub admitted : (t.socket ≡ k) ⊎ IsAdmitted env s k f t.socket

-- a turn that changes nothing of the socket and passes nothing on
abbrev pub IsIdle : Socket → Turn → Type 0
IsIdle k t = (t.socket ≡ k) × (t.dispatched ≡ none)

-- What a turn of a socket's loop does: only a text message that is a frame does anything.
abbrev pub IsFaithful : SocketEnv → GatewayState → Socket → Incoming → Turn → Type 0
IsFaithful env s k i t =
    IsIdle k t
    ⊎ ((text : Text) × (f : IncomingFrame) × (i ≡ text_message text)
        × (env.parse_frame text ≡ frame f)
        × FrameFaithful env s k f t)

auth_in-Presents :
    (env : SocketEnv) (params : Option Json) → Presents env params (auth_in env params)
auth_in-Presents env none = inl (refl, refl)
auth_in-Presents env (some p) = elim (Option-cases (env.parse_connect p)) [
  | inl e ↦ inr (p, refl, inl (e, rw e refl))
  | inr (auth, e) ↦ inr (p, refl, inr (e ∙ ap some (sym (rw e refl))))
]

session_token-Names :
    (m : AuthMethod) (auth : Option ConnectAuth) → Names m auth (session_token m auth)
session_token-Names local auth = inl (refl, refl)
session_token-Names device_token none = inr (refl, inl (refl, refl))
session_token-Names device_token (some a) = inr (refl, inr (a, refl, refl))

connect_result-FrameFaithful :
    (env : SocketEnv) (s : GatewayState) (k : Socket) (id : Text) (params : Option Json)
    (r : AuthResult)
    → authorize_connect s.device_store (auth_in env params) k.is_local ≡ r
    → FrameFaithful env s k
        (request id (codes "connect") params)
        (connect_result env s k id (auth_in env params) r)
connect_result-FrameFaithful env s k id params (ok m) h = record {
  gated = λ ctx e. absurd (none-ne-some ctx e);
  admitted = inr (
    id,
    params,
    auth_in env params,
    m,
    refl,
    auth_in-Presents env params,
    h,
    refl,
    session_token-Names m (auth_in env params),
  );
}
connect_result-FrameFaithful env s k id params (failed revoked) h = record {
  gated = λ ctx e. absurd (none-ne-some ctx e);
  admitted = inl refl;
}
connect_result-FrameFaithful env s k id params (failed invalid_token) h = record {
  gated = λ ctx e. absurd (none-ne-some ctx e);
  admitted = inl refl;
}
connect_result-FrameFaithful env s k id params (failed needs_pairing) h = record {
  gated = λ ctx e. absurd (none-ne-some ctx e);
  admitted = inl refl;
}

other_method-FrameFaithful :
    (env : SocketEnv) (s : GatewayState) (k : Socket) (id method : Text) (params : Option Json)
    → text_eq method (codes "connect") ≡ false
    → (b : Bool) → k.connected ≡ b
    → FrameFaithful env s k (request id method params) (other_method env s k id method params b)
other_method-FrameFaithful env s k id method params ne true h = record {
  gated = λ ctx e.
      let same = some-injective _ ctx e in
      (
        h,
        ap (λ (c : HandlerContext). c.device_token) (sym same),
        (method, params, ap (λ (c : HandlerContext). request c.request_id method params) same, ne),
      );
  admitted = inl refl;
}
other_method-FrameFaithful env s k id method params ne false h = record {
  gated = λ ctx e. absurd (none-ne-some ctx e);
  admitted = inl refl;
}

handle_request-FrameFaithful :
    (env : SocketEnv) (s : GatewayState) (k : Socket) (f : IncomingFrame)
    → FrameFaithful env s k f (handle_request env s k f)
unfolding handle_request handle_connect
handle_request-FrameFaithful env s k (request id method params) =
    elim (Bool-cases (text_eq method (codes "connect"))) [
      | inl e ↦
          let auth = auth_in env params in
          let t =
            connect_result env s k id auth (authorize_connect s.device_store auth k.is_local) in
          rw e (
            subst (λ name. FrameFaithful env s k (request id name params) t)
              (sym ((text_eq_iff method (codes "connect")).0 e))
              (connect_result-FrameFaithful env s k id params _ refl))
      | inr e ↦ rw e (other_method-FrameFaithful env s k id method params e k.connected refl)
    ]

-- In every turn of a socket's loop: either the socket stays as it is and nothing is passed on; or a
-- text message arrived that is read as a frame. Then a request is passed on only if the socket is
-- connected and the method is not `connect`, under the id of the frame and for the device that the
-- socket was connected with; and the socket stays as it is, or the frame is a `connect` whose own
-- credentials `authorize_connect` accepts with the devices of that moment, and the socket is
-- connected for the device whose token was presented, or for none if it is local.
pub handle_incoming-IsFaithful :
    (env : SocketEnv) (s : GatewayState) (k : Socket) (i : Incoming)
    → IsFaithful env s k i (handle_incoming env s k i)
unfolding handle_incoming
handle_incoming-IsFaithful env s k (text_message t) = by_frame (env.parse_frame t) refl
  where
    by_frame :
        (r : FrameResult)
        → env.parse_frame t ≡ r
        → IsFaithful env s k (text_message t) (handle_frame env s k r)
    by_frame (unreadable e) h = inl (refl, refl)
    by_frame (frame f) h = inr (t, f, refl, h, handle_request-FrameFaithful env s k f)
handle_incoming-IsFaithful env s k binary = inl (refl, refl)
handle_incoming-IsFaithful env s k ping = inl (refl, refl)
handle_incoming-IsFaithful env s k pong = inl (refl, refl)
handle_incoming-IsFaithful env s k _ = inl (refl, refl)
