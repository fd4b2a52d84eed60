-- ===== src/State/Reload.antt =====
-- What a reload of the device store does to the connections of devices that lost their access.
use rabb1t_claw.Base.{
  Bool, true, false, not, ◌&&◌, none, some, List, [], ◌∷◌, if◌then◌else◌, inl, inr, ◌⊎◌, ◌≡◌, refl,
  sym, ap, ◌∙◌, subst, arith, Text, text_eq, text_eq_iff, TextMap, lookup, values, map_or, is_some,
  Occurs, Distinct, lookup-Occurs, Occurs-lookup, Occurs-append_left, Occurs-append_right,
  Occurs-append-cases, Occurs-retain, Bool-cases, Option-cases,
}
use rabb1t_claw.Devices.{Device, DeviceStore}
use rabb1t_claw.Auth.Sound.{HasValid}
use rabb1t_claw.State.{
  ActiveConnection, ConnectionRegistry, register_in, unregister_in, connections_of, other_than,
  newly_revoked, removed_tokens, revoked_tokens,
}
use rabb1t_claw.State.Registry.{connections_of-register, connections_of-unregister}

-- a device of the store that is not revoked holds the token
abbrev pub IsPaired : DeviceStore → Text → Type 0
IsPaired store token = HasValid (values store.devices) token

-- a device that stays in the store keeps its token
abbrev pub TokensKept : DeviceStore → DeviceStore → Type 0
TokensKept old new =
    (id : Text) (d e : Device)
    → lookup id old.devices ≡ some d
    → lookup id new.devices ≡ some e
    → d.token ≡ e.token

Occurs-if_cons :
    {A : Type 0} (b : Bool) (a x : A) (xs : List A)
    → Occurs a xs
    → Occurs a (if b then x ∷ xs else xs)
Occurs-if_cons true a x xs o = inr o
Occurs-if_cons false a x xs o = o

Occurs-if_keep :
    {A : Type 0} (b : Bool) (a x : A) (xs : List A)
    → Occurs a xs
    → Occurs a (if b then xs else x ∷ xs)
Occurs-if_keep true a x xs o = o
Occurs-if_keep false a x xs o = inr o

newly_revoked-Occurs :
    (old new : TextMap Device) (id : Text) (d e : Device)
    → lookup id old ≡ some d
    → d.revoked ≡ false
    → lookup id new ≡ some e
    → e.revoked ≡ true
    → Occurs e.token (newly_revoked old new)
unfolding newly_revoked lookup
newly_revoked-Occurs old [] id d e o r n v = cc
newly_revoked-Occurs old ((j, x) ∷ new) id d e o r n v = elim (Bool-cases (text_eq j id)) [
  | inl y ↦
      let same : x ≡ e = ground arith in
      let key = (text_eq_iff j id).0 y in
      let found : lookup j old ≡ some d = ap (λ k. lookup k old) key ∙ o in
      let was : map_or (lookup j old) false (λ o'. not o'.revoked) ≡ true = rw (found, r) refl in
      let now : x.revoked ≡ true = ap (λ z. z.revoked) same ∙ v in
      rw (now, was) (inl (ap (λ z. z.token) (sym same)))
  | inr y ↦
      Occurs-if_cons (x.revoked && map_or (lookup j old) false (λ o'. not o'.revoked)) e.token
        x.token (newly_revoked old new) (newly_revoked-Occurs old new id d e o r (rw y at n) v)
]

removed_tokens-Occurs :
    (new old : TextMap Device) (id : Text) (d : Device)
    → lookup id old ≡ some d
    → lookup id new ≡ none
    → Occurs d.token (removed_tokens new old)
unfolding removed_tokens lookup
removed_tokens-Occurs new [] id d o n = cc
removed_tokens-Occurs new ((j, x) ∷ old) id d o n = elim (Bool-cases (text_eq j id)) [
  | inl y ↦
      let same : x ≡ d = ground arith in
      let found : lookup j new ≡ none = ap (λ k. lookup k new) ((text_eq_iff j id).0 y) ∙ n in
      rw found (inl (ap (λ z. z.token) (sym same)))
  | inr y ↦
      Occurs-if_keep (is_some (lookup j new)) d.token x.token (removed_tokens new old)
        (removed_tokens-Occurs new old id d (rw y at o) n)
]

-- A device that was paired is paired still, or its token is among those that are disconnected.
pub IsPaired-or_revoked :
    (old new : DeviceStore) (token : Text)
    → Distinct (λ e. e.0) old.devices
    → TokensKept old new
    → IsPaired old token
    → IsPaired new token ⊎ Occurs token (revoked_tokens old new)
IsPaired-or_revoked old new token u k (d, o, t, r) =
    let (id, found) = Occurs-lookup old.devices d u o in
    let revoked = newly_revoked old.devices new.devices in
    let removed = removed_tokens new.devices old.devices in
    elim (Option-cases (lookup id new.devices)) [
      | inl n ↦ inr (
          Occurs-append_right token revoked removed (
            subst (λ i. Occurs i removed) t
              (removed_tokens-Occurs new.devices old.devices id d found n)))
      | inr (e, n) ↦
          let same = sym (k id d e found n) ∙ t in
          elim (Bool-cases e.revoked) [
            | inl v ↦ inr (
                Occurs-append_left token revoked removed (
                  subst (λ i. Occurs i revoked) same
                    (newly_revoked-Occurs old.devices new.devices id d e found r n v)))
            | inr v ↦ inl (e, lookup-Occurs id new.devices {v = e} n, same, v)
          ]
    ]

-- what holds of each registered connection and its token
abbrev pub EachConnection : (Text → ActiveConnection → Type 0) → ConnectionRegistry → Type 0
EachConnection P r =
    (token : Text) (c : ActiveConnection) → Occurs c (connections_of r token) → P token c

pub register-each :
    (P : Text → ActiveConnection → Type 0) (r : ConnectionRegistry) (token conn_id : Text)
    → P token (record { conn_id = conn_id })
    → EachConnection P r
    → EachConnection P (register_in r token conn_id)
register-each P r token conn_id p g j c o =
    let conns = connections_of-register r token conn_id j in
    elim (Bool-cases (text_eq token j)) [
      | inl e ↦
          let key = (text_eq_iff token j).0 e in
          elim (Occurs-append-cases c (connections_of r token) (record { conn_id = conn_id } ∷ [])
            (subst (Occurs c) (conns ∙ rw e refl) o)) [
              | inl before ↦ g j c (subst (λ t. Occurs c (connections_of r t)) key before)
              | inr (inl new) ↦ subst (λ t. P t c) key (subst (P token) (sym new) p)
              | inr (inr gone) ↦ absurd gone
            ]
      | inr e ↦ g j c (subst (Occurs c) (conns ∙ rw e refl) o)
    ]

pub unregister-each :
    (P : Text → ActiveConnection → Type 0) (r : ConnectionRegistry) (token conn_id : Text)
    → EachConnection P r
    → EachConnection P (unregister_in r token conn_id)
unregister-each P r token conn_id g j c o =
    let conns = connections_of-unregister r token conn_id j in
    elim (Bool-cases (text_eq token j)) [
      | inl e ↦
          let left = subst (Occurs c) (conns ∙ rw e refl) o in
          let there = (Occurs-retain c (other_than conn_id) (connections_of r token) left).0 in
          let key = (text_eq_iff token j).0 e in
          g j c (subst (λ t. Occurs c (connections_of r t)) key there)
      | inr e ↦ g j c (subst (Occurs c) (conns ∙ rw e refl) o)
    ]
