-- ===== src/Connection/Reach/Late.antt =====
-- A handshake that is registered after a reload has revoked its device.
use rabb1t_claw.Base.{
  Bool, Option, some, List, [], ◌∷◌, inl, inr, ◌⊎◌, ◌≡◌, ◌≢◌, refl, sym, ◌∙◌, subst, Text,
  text_eq_refl, Occurs, Occurs-append_right, Occurs-append-cases, Distinct,
}
use rabb1t_claw.Auth.{ConnectAuth, ok, device_token, token_of, authorize_connect}
use rabb1t_claw.Connection.Reach.{
  Moment, idle, Reachable, accept, enter, compare, replace, choose, signal,
}
use rabb1t_claw.Devices.{DeviceStore}
use rabb1t_claw.State.{
  ActiveConnection, ConnectionRegistry, connections_of, register_in, revoked_tokens, targets,
  signal_all,
}
use rabb1t_claw.State.Registry.{connections_of-register}
use rabb1t_claw.State.Reload.{IsPaired, TokensKept, EachConnection}

targets-registered :
    (r : ConnectionRegistry) (tokens : List Text) (c : ActiveConnection)
    → Occurs c (targets r tokens)
    → (t : Text) × Occurs c (connections_of r t)
unfolding targets
targets-registered r [] c o = elim o [ ]
targets-registered r (t ∷ tokens) c o =
    elim (Occurs-append-cases c (connections_of r t) (targets r tokens) o) [
      | inl here ↦ (t, here)
      | inr there ↦ targets-registered r tokens c there
    ]

signal_all-flagged :
    (flags : List Text) (conns : List ActiveConnection) (i : Text)
    → Occurs i (signal_all flags conns)
    → Occurs i flags ⊎ ((c : ActiveConnection) × Occurs c conns × (c.conn_id ≡ i))
unfolding signal_all
signal_all-flagged flags [] i o = inl o
signal_all-flagged flags (d ∷ conns) i o = elim (signal_all-flagged (d.conn_id ∷ flags) conns i o) [
  | inl (inl e) ↦ inr (d, inl refl, sym e)
  | inl (inr f) ↦ inl f
  | inr (c, there, e) ↦ inr (c, inr there, e)
]

registered-Occurs :
    (r : ConnectionRegistry) (token conn_id : Text)
    → Occurs (record { conn_id = conn_id }) (connections_of (register_in r token conn_id) token)
registered-Occurs r token conn_id =
    let c : ActiveConnection = record { conn_id = conn_id } in
    let conns = connections_of-register r token conn_id token ∙ rw (text_eq_refl token) refl in
    subst (Occurs c) (sym conns)
      (Occurs-append_right c (connections_of r token) (c ∷ []) (inl refl))

-- the connection is registered and is not told to shut down, its token is not paired, and no reload
-- is under way that could do it
abbrev pub IsLeft : Text → Text → Moment → Type 0
IsLeft token conn_id v =
    (v.reload ≡ idle)
    × Occurs (record { conn_id = conn_id }) (connections_of v.state.active_connections token)
    × (IsPaired v.state.device_store token → ⊥)
    × (Occurs conn_id v.state.shutdown → ⊥)

-- At any moment between two reloads, let `authorize_connect` accept a device for a connection whose
-- id is new, and let a reload follow that revokes or removes the device. Then the gateway reaches a
-- moment when the reload is over and the connection is registered, under a token that is not paired
-- any more, and nothing has told it to shut down or is about to.
pub late_register-unguarded :
    (w : Moment) (new : DeviceStore) (auth : Option ConnectAuth) (is_local : Bool)
    (token conn_id : Text)
    → Reachable w
    → w.reload ≡ idle
    → authorize_connect w.state.device_store auth is_local ≡ ok device_token
    → token_of auth ≡ some token
    → Distinct (λ e. e.0) w.state.device_store.devices
    → TokensKept w.state.device_store new
    → (IsPaired new token → ⊥)
    → EachConnection (λ t c. c.conn_id ≢ conn_id) w.state.active_connections
    → (Occurs conn_id w.state.shutdown → ⊥)
    → (v : Moment) × Reachable v × IsLeft token conn_id v
late_register-unguarded w new auth is_local token conn_id r e h t distinct kept unpaired fresh
      quiet =
    let conns = w.state.active_connections in
    let tokens = revoked_tokens w.state.device_store new in
    let flagged = signal_all-flagged w.state.shutdown (targets conns tokens) conn_id in
    (
      _,
      enter token conn_id (inl refl) (
          signal (targets conns tokens) refl (
            choose tokens refl (
              replace new tokens refl
                (compare new e distinct kept (accept auth is_local token conn_id h t r))))),
      (
        refl,
        registered-Occurs conns token conn_id,
        unpaired,
        λ o. elim (flagged o) [
          | inl f ↦ quiet f
          | inr (c, there, same) ↦
              (let (tk, registered) = targets-registered conns tokens c there in
                fresh tk c registered same)
        ],
      ),
    )
