-- ===== src/Devices/Prefixes.antt =====
-- The storage prefixes of the tokens of a device store.
use rabb1t_claw.Base.{
  false, some, List, [], ◌∷◌, inl, inr, ◌≡◌, ◌≢◌, sym, arith, Text, text_eq, text_eq_iff, TextMap,
  insert, values, map, contains, All, Distinct, Option-cases, Bool-cases,
}
use rabb1t_claw.Devices.{
  Device, DeviceStore, token_prefix, taken_prefixes, fresh_token, device_with, create_device,
  add_device,
}

abbrev pub prefix_of : Device → Text
prefix_of d = token_prefix d.token

-- No two devices of the store have tokens with one prefix.
abbrev pub PrefixesDistinct : DeviceStore → Type 0
PrefixesDistinct store = Distinct prefix_of (values store.devices)

All-values-insert :
    (P : Device → Type 0) (k : Text) (d : Device) (m : TextMap Device)
    → P d
    → All P (values m)
    → All P (values (insert k d m))
unfolding values insert
All-values-insert P k d [] p h = (p, tt)
All-values-insert P k d ((j, e) ∷ m) p h = elim (Bool-cases (text_eq j k)) [
  | inl x ↦ rw x (p, h.1)
  | inr x ↦ rw x (h.0, All-values-insert P k d m p h.1)
]

Distinct-values-insert :
    (k : Text) (d : Device) (m : TextMap Device)
    → All (λ e. prefix_of d ≢ prefix_of e) (values m)
    → Distinct prefix_of (values m)
    → Distinct prefix_of (values (insert k d m))
unfolding values insert
Distinct-values-insert k d [] p h = (tt, tt)
Distinct-values-insert k d ((j, e) ∷ m) p h = elim (Bool-cases (text_eq j k)) [
  | inl x ↦ rw x (p.1, h.1)
  | inr x ↦ rw x (
    All-values-insert (λ y. prefix_of e ≢ prefix_of y) k d m (λ q. p.0 (sym q)) h.0,
    Distinct-values-insert k d m p.1 h.1,
  )
]

not_contained :
    (p : Text) (ds : List Device)
    → contains (map prefix_of ds) p ≡ false
    → All (λ e. p ≢ prefix_of e) ds
not_contained p [] h = tt
not_contained p (d ∷ ds) h =
    (λ q. ground (arith, text_eq_iff (prefix_of d) p), not_contained p ds (ground arith))

fresh_token_lem :
    (taken tokens : List Text) (t : Text)
    → fresh_token taken tokens ≡ some t
    → contains taken (token_prefix t) ≡ false
unfolding fresh_token
fresh_token_lem taken [] t h = cc
fresh_token_lem taken (x ∷ tokens) t h = ground (arith, fresh_token_lem taken tokens t)

made_fresh :
    (taken tokens : List Text) (name id : Text) (d : Device)
    → device_with id name (fresh_token taken tokens) ≡ some d
    → contains taken (prefix_of d) ≡ false
made_fresh taken tokens name id d made = elim (Option-cases (fresh_token taken tokens)) [
  | inl e ↦ ground arith
  | inr (t, e) ↦
      let same : t ≡ d.token = ground arith in rw (← same) (fresh_token_lem taken tokens t e)
]

-- Adding a device that `create_device` made, under any id, keeps the prefixes of all devices
-- distinct.
pub create-add-PrefixesDistinct :
    (store : DeviceStore) (name id : Text) (tokens : List Text) (d : Device)
    → PrefixesDistinct store
    → create_device store name id tokens ≡ some d
    → PrefixesDistinct (add_device store d)
unfolding create_device add_device
create-add-PrefixesDistinct store name id tokens d h made =
    Distinct-values-insert d.device_id d store.devices
      (not_contained (prefix_of d) (values store.devices)
        (made_fresh (taken_prefixes store) tokens name id d made))
      h
