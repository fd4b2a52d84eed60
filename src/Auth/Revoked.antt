-- ===== src/Auth/Revoked.antt =====
-- What revoking a device does to later connections.
use rabb1t_claw.Base.{
  Bool, false, Option, some, [], ◌∷◌, if◌then◌else◌, inl, inr, ◌≡◌, ◌≢◌, refl, sym, ◌∙◌, arith,
  Text, text_eq, text_eq_iff, TextMap, insert, lookup, values, lookup-Occurs, Distinct, All-Occurs,
  Bool-cases, Option-cases, is_empty, ap, map_or,
}
use rabb1t_claw.Devices.{Device, DeviceStore, revoked_device, revoke_by_token, revoke_device}
use rabb1t_claw.Auth.{
  AuthResult, ConnectAuth, failed, revoked, validate_among, validate_device_token,
  authorize_connect,
}

-- what a token gets after the device with the token `gone` is revoked
abbrev after : Text → TextMap Device → Text → AuthResult
after gone m t = if text_eq gone t then failed revoked else validate_among (values m) t

validate-insert_revoked :
    (k : Text) (m : TextMap Device) (d : Device) (t : Text)
    → Distinct (λ e. e.token) (values m)
    → lookup k m ≡ some d
    → validate_among (values (insert k (revoked_device d) m)) t ≡ after d.token m t
unfolding lookup insert values validate_among
validate-insert_revoked k [] d t u h = cc
validate-insert_revoked k ((j, e) ∷ m) d t u h = elim (Bool-cases (text_eq j k)) [
  | inl x ↦ ground arith
  | inr x ↦
      let h' : lookup k m ≡ some d = rw x at h in
      let ne = All-Occurs (λ y. e.token ≢ y.token) (values m) u.0 (lookup-Occurs k m {v = d} h') in
      ground (
        arith,
        validate-insert_revoked k m d t u.1 h',
        text_eq_iff e.token t,
        text_eq_iff d.token t,
      )
]

validate-revoke_by_token :
    (x : Text) (m : TextMap Device) (t : Text) {name : Text}
    → (revoke_by_token x m).1 ≡ some name
    → validate_among (values (revoke_by_token x m).0) t ≡ after x m t
unfolding revoke_by_token values validate_among
validate-revoke_by_token x [] t h = cc
validate-revoke_by_token x ((j, d) ∷ m) t {name} h = elim (Bool-cases (text_eq d.token x)) [
  | inl e ↦ ground (arith, text_eq_iff d.token x)
  | inr e ↦ ground (
    arith,
    validate-revoke_by_token x m t {name = name},
    text_eq_iff d.token t,
    text_eq_iff x t,
    text_eq_iff d.token x,
  )
]

-- the token of the device that an id, or else a token, names
abbrev pub named_token : DeviceStore → Text → Text
named_token store x = map_or (lookup x store.devices) x (λ d. d.token)

abbrev pub presenting : Text → Option ConnectAuth
presenting t = some (record { token = some t })

authorize-nonempty :
    (store : DeviceStore) (t : Text) (is_local : Bool)
    → is_empty store.devices ≡ false
    → authorize_connect store (presenting t) is_local ≡ validate_among (values store.devices) t
unfolding authorize_connect validate_device_token
authorize-nonempty store t is_local h = rw h (ground arith)

insert-nonempty : (k : Text) (d : Device) (m : TextMap Device) → is_empty (insert k d m) ≡ false
unfolding insert
insert-nonempty k d [] = refl
insert-nonempty k d ((j, e) ∷ m) = ground arith

lookup-nonempty :
    (k : Text) (m : TextMap Device) {d : Device} → lookup k m ≡ some d → is_empty m ≡ false
unfolding lookup
lookup-nonempty k [] h = cc
lookup-nonempty k (e ∷ m) h = refl

by_token-nonempty :
    (x : Text) (m : TextMap Device) {name : Text}
    → (revoke_by_token x m).1 ≡ some name
    → (is_empty m ≡ false) × (is_empty (revoke_by_token x m).0 ≡ false)
unfolding revoke_by_token
by_token-nonempty x [] h = cc
by_token-nonempty x ((j, d) ∷ m) h = ground arith

-- When `revoke_device` names a device, by its id or else by its token, from then on that device's
-- token is refused as revoked from every address, and every other token is treated as before.
pub revoke-authorize :
    (store : DeviceStore) (x t : Text) (is_local : Bool) {name : Text}
    → Distinct (λ e. e.token) (values store.devices)
    → (revoke_device store x).1 ≡ some name
    → authorize_connect (revoke_device store x).0 (presenting t) is_local ≡ (
        if text_eq (named_token store x) t
        then failed revoked
        else authorize_connect store (presenting t) is_local)
unfolding revoke_device
revoke-authorize store x t is_local u h = elim (Option-cases (lookup x store.devices)) [
  | inl e ↦
      let named = rw e at h in
      let ne = by_token-nonempty x store.devices named in
      rw e (
        authorize-nonempty (record { devices = (revoke_by_token x store.devices).0 }) t is_local
          ne.1
        ∙ validate-revoke_by_token x store.devices t named
        ∙ ap (λ r. if text_eq x t then failed revoked else r)
            (sym (authorize-nonempty store t is_local ne.0)))
  | inr (d, e) ↦ rw e (
      authorize-nonempty (record { devices = insert x (revoked_device d) store.devices }) t is_local
        (insert-nonempty x (revoked_device d) store.devices)
      ∙ validate-insert_revoked x store.devices d t u e
      ∙ ap (λ r. if text_eq d.token t then failed revoked else r)
          (sym (authorize-nonempty store t is_local (lookup-nonempty x store.devices e))))
]
