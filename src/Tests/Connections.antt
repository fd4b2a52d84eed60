-- ===== src/Tests/Connections.antt =====
-- src/connection/handler.rs and src/state.rs with one phone.
use rabb1t_claw.Base.{
  false, Option, some, List, [], ◌∷◌, ◌++◌, ◌≡◌, refl, Text, inl, inr, ap, arith, codes, text_eq,
  text_eq_iff, lookup, values,
}
use rabb1t_claw.Auth.{
  ConnectAuth, ok, device_token, authorize_connect, validate_device_token, validate_among,
}
use rabb1t_claw.Config.{default_config}
use rabb1t_claw.Connection.{Socket, new_socket, text_message, handle_incoming}
use rabb1t_claw.Connection.Turns.{IsFaithful, handle_incoming-IsFaithful}
use rabb1t_claw.Connection.Reach.{Moment, opened, conn_ids, idle, Reachable, begin}
use rabb1t_claw.Connection.Reach.Late.{IsLeft, late_register-unguarded}
use rabb1t_claw.Devices.{Device, DeviceStore, revoked_device}
use rabb1t_claw.State.{
  ActiveConnection, revoked_tokens, GatewayState, new_state, register_connection, connections_of,
  targets, signal_all,
}
use rabb1t_claw.State.Reload.{IsPaired, TokensKept}
use rabb1t_claw.Tests.Accounts.{phone, a_store}
use rabb1t_claw.Tests.Fixtures.{a_socket_env}

abbrev opening : GatewayState
opening = new_state default_config a_store 0

abbrev a_socket : Socket
a_socket = new_socket (codes "c1") false

abbrev revoked_store : DeviceStore
revoked_store = record { devices = (codes "id1", revoked_device phone) ∷ [] }

handle_incoming-IsFaithful_example :
    IsFaithful a_socket_env opening a_socket
      (text_message (codes "{}"))
      (handle_incoming a_socket_env opening a_socket (text_message (codes "{}")))
handle_incoming-IsFaithful_example =
    handle_incoming-IsFaithful a_socket_env opening a_socket (text_message (codes "{}"))

tokens_kept : TokensKept a_store revoked_store
tokens_kept id d e o n = unfold lookup in ground (arith, text_eq_iff (codes "id1") id, o, n)

abbrev phone_auth : Option ConnectAuth
phone_auth = some (record { token = some (codes "aaaaaaaa11") })

phone-authorize : authorize_connect a_store phone_auth false ≡ ok device_token
unfolding authorize_connect validate_device_token validate_among values text_eq
phone-authorize = refl

abbrev shaken : Moment
shaken = record (opened default_config a_store 0) {
  accepted = (codes "aaaaaaaa11", codes "c1") ∷ [];
}

abbrev connected : Moment
connected = record shaken {
  state = register_connection shaken.state (codes "aaaaaaaa11") (codes "c1");
}

abbrev revoked : List Text
revoked = revoked_tokens a_store revoked_store

abbrev conns : List ActiveConnection
conns = targets connected.state.active_connections revoked

-- the phone has connected and was revoked
abbrev after_both : Moment
after_both = record {
  state = record connected.state {
    device_store = revoked_store;
    shutdown = signal_all connected.state.shutdown conns;
  };
  accepted = shaken.accepted;
  overtaken = conn_ids shaken.accepted ++ [];
  reload = idle;
}

unpaired : IsPaired revoked_store (codes "aaaaaaaa11") → ⊥
unfolding values
unpaired (d, inl e, t, r) = ground (arith, ap (λ (x : Device). x.revoked) e, r)
unpaired (d, inr o, t, r) = elim o [ ]

late_register-unguarded_example :
    (v : Moment) × Reachable v × IsLeft (codes "aaaaaaaa11") (codes "c1") v
late_register-unguarded_example =
    late_register-unguarded (opened default_config a_store 0) revoked_store phone_auth false
      (codes "aaaaaaaa11") (codes "c1") (begin default_config a_store 0) refl phone-authorize refl
      (tt, tt) tokens_kept unpaired (unfold connections_of lookup in λ t c o. elim o [ ])
      (λ o. elim o [ ])
