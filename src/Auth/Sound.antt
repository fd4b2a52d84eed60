-- ===== src/Auth/Sound.antt =====
-- The verdict of `authorize_connect`, and the devices and the token that it rests on.
use rabb1t_claw.Base.{
  Bool, true, false, Option, some, List, [], ◌∷◌, if◌then◌else◌, inl, inr, ◌⊎◌, ◌≡◌, ◌≢◌, refl,
  arith, Text, text_eq, text_eq_iff, text_eq_refl, values, Occurs, All-Occurs, TextMap, Distinct,
  Bool-cases, Option-cases, ◌&&◌, is_empty,
}
use rabb1t_claw.Devices.{Device, DeviceStore}
use rabb1t_claw.Auth.{
  AuthMethod, ConnectAuth, ok, failed, revoked, local, device_token, validate_among,
  validate_device_token, token_of, authorize_connect,
}

-- an unrevoked device of the list that holds this token
abbrev pub HasValid : List Device → Text → Type 0
HasValid ds token = (d : Device) × Occurs d ds × (d.token ≡ token) × (d.revoked ≡ false)

validate_among-ok :
    (ds : List Device) (token : Text) {m : AuthMethod}
    → validate_among ds token ≡ ok m
    → (m ≡ device_token) × HasValid ds token
unfolding validate_among
validate_among-ok [] token h = cc
validate_among-ok (d ∷ ds) token {m} h = elim (Bool-cases (text_eq d.token token)) [
  | inl e ↦ (ground arith, (d, inl refl, (text_eq_iff d.token token).0 e, ground arith))
  | inr e ↦
      let (same, valid) = validate_among-ok ds token {m = m} (rw e at h) in
      let (d', o, t, v) = valid in (same, (d', inr o, t, v))
]

abbrev pub Accepted : DeviceStore → Option ConnectAuth → Bool → AuthMethod → Type 0
Accepted store auth is_local m =
    ((m ≡ local) × (is_local ≡ true) × (store.devices ≡ []))
    ⊎ ((m ≡ device_token)
        × ((token : Text) × (token_of auth ≡ some token) × HasValid (values store.devices) token))

-- An accepted connection is a loopback one while no device is paired, or it presents the token of
-- a device in the store that is not revoked.
pub authorize-Accepted :
    (store : DeviceStore) (auth : Option ConnectAuth) (is_local : Bool) {m : AuthMethod}
    → authorize_connect store auth is_local ≡ ok m
    → Accepted store auth is_local m
unfolding authorize_connect validate_device_token
authorize-Accepted store auth is_local {m} h =
    elim (Bool-cases (is_local && is_empty store.devices)) [
      | inl e ↦ inl (ground arith, ground arith, ground arith)
      | inr e ↦ elim (Option-cases (token_of auth)) [
        | inl n ↦ ground arith
        | inr (token, s) ↦
            let (same, valid) =
              validate_among-ok (values store.devices) token {m = m} (ground arith) in
            inr (same, (token, s, valid))
      ]
    ]

validate_among-Occurs :
    (ds : List Device) (d : Device)
    → Distinct (λ e. e.token) ds
    → Occurs d ds
    → validate_among ds d.token ≡ (if d.revoked then failed revoked else ok device_token)
unfolding validate_among
validate_among-Occurs [] d h o = elim o [ ]
validate_among-Occurs (x ∷ ds) d h (inl e) = rw (e, text_eq_refl x.token)
validate_among-Occurs (x ∷ ds) d h (inr o) =
    let ne = All-Occurs (λ y. x.token ≢ y.token) ds h.0 o in
    elim (Bool-cases (text_eq x.token d.token)) [
      | inl e ↦ absurd (ne ((text_eq_iff x.token d.token).0 e))
      | inr e ↦ rw e (validate_among-Occurs ds d h.1 o)
    ]

nonempty : (m : TextMap Device) (d : Device) → Occurs d (values m) → is_empty m ≡ false
unfolding values
nonempty [] d o = elim o [ ]
nonempty (e ∷ m) d o = refl

-- With distinct tokens, the token of any device of the store decides: a revoked device is told so,
-- and any other is accepted, from every address.
pub authorize-Occurs :
    (store : DeviceStore) (d : Device) (is_local : Bool)
    → Distinct (λ e. e.token) (values store.devices)
    → Occurs d (values store.devices)
    → authorize_connect store (some (record { token = some d.token })) is_local
      ≡ (if d.revoked then failed revoked else ok device_token)
unfolding authorize_connect validate_device_token
authorize-Occurs store d is_local h o =
    rw (nonempty store.devices d o)
      (rw (validate_among-Occurs (values store.devices) d h o) (ground arith))
