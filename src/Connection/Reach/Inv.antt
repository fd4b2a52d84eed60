-- ===== src/Connection/Reach/Inv.antt =====
-- What holds of the shared state between any two steps.
use rabb1t_claw.Base.{List, ◌⊎◌, ◌≡◌, Text, Occurs, Distinct}
use rabb1t_claw.Agent.Shared.{shared}
use rabb1t_claw.Connection.Reach.{Reload, compared, Moment, IsSafe}
use rabb1t_claw.Devices.{DeviceStore}
use rabb1t_claw.Json.{Json}
use rabb1t_claw.State.{ConnectionRegistry, revoked_tokens}
use rabb1t_claw.State.Reload.{IsPaired, TokensKept, EachConnection}

-- what the reload has compared is what it will replace
abbrev IsCurrent : DeviceStore → Reload → Type 0
IsCurrent store (compared new tokens) =
    Distinct (λ e. e.0) store.devices × TokensKept store new × (tokens ≡ revoked_tokens store new)
IsCurrent store _ = Unit

abbrev IsFresh : DeviceStore → List Text → List (Text × Text) → Type 0
IsFresh store overtaken accepted =
    (token conn_id : Text)
    → Occurs (token, conn_id) accepted
    → IsPaired store token ⊎ Occurs conn_id overtaken

record Inv (store : DeviceStore) (conns : ConnectionRegistry) (flags : List Text)
    (accepted : List (Text × Text)) (overtaken : List Text) (reload : Reload) : Type 0 where
  guarded : EachConnection (IsSafe store flags overtaken reload) conns
  fresh : IsFresh store overtaken accepted
  current : IsCurrent store reload

abbrev InvShared :
    List (Text × Text) → List Text → Reload → DeviceStore × ConnectionRegistry × List Text → Type 0
InvShared accepted overtaken reload (store, conns, flags) =
    Inv store conns flags accepted overtaken reload

abbrev Holds : Moment → Type 0
Holds w = InvShared w.accepted w.overtaken w.reload (shared w.state)
