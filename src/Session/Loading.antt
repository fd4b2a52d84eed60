-- ===== src/Session/Loading.antt =====
-- What `load_from_disk` finds for a device.
use rabb1t_claw.Base.{
  false, Option, none, some, List, [], ◌∷◌, ◌≡◌, ◌≢◌, refl, sym, ap, ◌∙◌, inl, inr, arith, subst,
  if◌then◌else◌, Text, text_eq, text_eq_iff, TextMap, lookup, insert, values, and_then, ◌<|>◌,
  lookup-insert, lookup-insert_self, lookup-absent, All, Occurs, Distinct, Bool-cases, Option-cases,
}
use rabb1t_claw.Devices.{Device, DeviceStore, token_prefix}
use rabb1t_claw.Devices.Prefixes.{prefix_of, PrefixesDistinct}
use rabb1t_claw.Session.{
  ConversationSession, Sessions, Disk, DirEntry, token_map_from, load_entry, load_named, batch,
  insert_all, load_from_disk,
}
use rabb1t_claw.Session.Encoding.{Codec}

-- every entry of a token map stands under the prefix of its token
abbrev pub Named : TextMap Text → Type 0
Named m = (p t : Text) → lookup p m ≡ some t → token_prefix t ≡ p

Named-insert : (t : Text) (m : TextMap Text) → Named m → Named (insert (token_prefix t) t m)
Named-insert t m h p u e =
    let found = lookup-insert (token_prefix t) p t m in
    elim (Bool-cases (text_eq (token_prefix t) p)) [
      | inl x ↦ ground (arith, found, text_eq_iff (token_prefix t) p)
      | inr x ↦ h p u (ground (arith, found))
    ]

pub token_map-Named : (ds : List Device) (m : TextMap Text) → Named m → Named (token_map_from m ds)
unfolding token_map_from
token_map-Named [] m h = h
token_map-Named (d ∷ ds) m h = elim (Bool-cases d.revoked) [
  | inl e ↦ rw e (token_map-Named ds m h)
  | inr e ↦
      rw e (token_map-Named ds (insert (token_prefix d.token) d.token m) (Named-insert d.token m h))
]

token_map-other :
    (p : Text) (ds : List Device) (m : TextMap Text)
    → All (λ e. p ≢ prefix_of e) ds
    → lookup p (token_map_from m ds) ≡ lookup p m
unfolding token_map_from
token_map-other p [] m h = refl
token_map-other p (d ∷ ds) m h = elim (Bool-cases d.revoked) [
  | inl e ↦ rw e (token_map-other p ds m h.1)
  | inr e ↦
      let found = lookup-insert (token_prefix d.token) p d.token m in
      rw e (
        token_map-other p ds (insert (token_prefix d.token) d.token m) h.1
        ∙ ground (arith, found, text_eq_iff (token_prefix d.token) p, h.0))
]

pub token_map-device :
    (d : Device) (ds : List Device) (m : TextMap Text)
    → Distinct prefix_of ds
    → Occurs d ds
    → d.revoked ≡ false
    → lookup (prefix_of d) (token_map_from m ds) ≡ some d.token
unfolding token_map_from
token_map-device d [] m h o e = elim o [ ]
token_map-device d (x ∷ ds) m h (inl i) e =
    let first = subst (λ y. All (λ z. prefix_of y ≢ prefix_of z) ds) (sym i) h.0 in
    let unrevoked : x.revoked ≡ false = ap (λ y. y.revoked) (sym i) ∙ e in
    let token : x.token ≡ d.token = ap (λ y. y.token) (sym i) in
    rw (unrevoked, token)
      (token_map-other (prefix_of d) ds (insert (token_prefix d.token) d.token m) first
        ∙ lookup-insert_self (token_prefix d.token) d.token m)
token_map-device d (x ∷ ds) m h (inr o) e = elim (Bool-cases x.revoked) [
  | inl r ↦ rw r (token_map-device d ds m h.1 o e)
  | inr r ↦ rw r (token_map-device d ds (insert (token_prefix x.token) x.token m) h.1 o e)
]

right_none : {A : Type 0} (o : Option A) → (o <|> none) ≡ o
right_none none = refl
right_none (some a) = refl

module _ (codec : Codec ConversationSession) where
  -- what the disk has for a token
  abbrev pub on_disk : Text → Disk → Option ConversationSession
  on_disk token disk = and_then (lookup (token_prefix token) disk) (load_entry codec token)

  load_named-same :
      (m : TextMap Text) (p t : Text) (entry : DirEntry)
      → lookup p m ≡ some t
      → load_named codec m p entry ≡ and_then (load_entry codec t entry) (λ s. some (t, s))
  load_named-same m p t entry h = rw h refl

  on_disk-absent :
      (token : Text) (disk : Disk)
      → All (λ e. token_prefix token ≢ e.0) disk
      → on_disk token disk ≡ none
  on_disk-absent token disk h = rw (lookup-absent (token_prefix token) disk h) refl

  on_disk-cons :
      (token name : Text) (entry : DirEntry) (disk : Disk)
      → on_disk token ((name, entry) ∷ disk) ≡ (
          if text_eq name (token_prefix token)
          then load_entry codec token entry
          else on_disk token disk)
  unfolding lookup
  on_disk-cons token name entry disk = ground arith

  batch-skip :
      (m : TextMap Text) (name : Text) (entry : DirEntry) (disk : Disk) (sessions : Sessions)
      → load_named codec m name entry ≡ none
      → insert_all sessions (batch codec m ((name, entry) ∷ disk))
        ≡ insert_all sessions (batch codec m disk)
  unfolding batch
  batch-skip m name entry disk sessions h = rw (h, batch) refl

  batch-take :
      (m : TextMap Text) (name : Text) (entry : DirEntry) (disk : Disk) (sessions : Sessions)
      {token : Text} {session : ConversationSession}
      → load_named codec m name entry ≡ some (token, session)
      → insert_all sessions (batch codec m ((name, entry) ∷ disk))
        ≡ insert_all (insert token session sessions) (batch codec m disk)
  unfolding batch insert_all
  batch-take m name entry disk sessions h = rw (h, batch) refl

  load_named-Named :
      (m : TextMap Text) (name : Text) (entry : DirEntry) {token : Text}
      {session : ConversationSession}
      → Named m
      → load_named codec m name entry ≡ some (token, session)
      → token_prefix token ≡ name
  load_named-Named m name entry {token} n h = elim (Option-cases (lookup name m)) [
    | inl e ↦ ground arith
    | inr (t, e) ↦ elim (Option-cases (load_entry codec t entry)) [
      | inl f ↦ ground arith
      | inr (s, f) ↦ let same : t ≡ token = ground arith in n name token (e ∙ ap some same)
    ]
  ]

  different_prefix :
      (t token name : Text)
      → token_prefix t ≡ name
      → text_eq name (token_prefix token) ≡ false
      → text_eq t token ≡ false
  different_prefix t token name e x = elim (Bool-cases (text_eq t token)) [
    | inl y ↦
        let same = ap token_prefix ((text_eq_iff t token).0 y) in
        ground (arith, e, same, text_eq_iff name (token_prefix token))
    | inr y ↦ y
  ]

  pub batch-on_disk :
      (m : TextMap Text) (disk : Disk) (sessions : Sessions) (token : Text)
      → Named m
      → lookup (token_prefix token) m ≡ some token
      → Distinct (λ e. e.0) disk
      → lookup token (insert_all sessions (batch codec m disk))
        ≡ (on_disk token disk <|> lookup token sessions)
  unfolding batch insert_all
  batch-on_disk m [] sessions token n h u = unfold lookup in refl
  batch-on_disk m ((name, entry) ∷ disk) sessions token n h u =
      let cons = on_disk-cons token name entry disk in
      elim (Bool-cases (text_eq name (token_prefix token))) [
        | inl x ↦
            let here = (text_eq_iff name (token_prefix token)).0 x in
            let absent =
              on_disk-absent token disk (subst (λ k. All (λ e. k ≢ e.0) disk) here u.0) in
            let named = load_named-same m name token entry (ap (λ k. lookup k m) here ∙ h) in
            elim (Option-cases (load_entry codec token entry)) [
              | inl e ↦
                  ap (lookup token) (batch-skip m name entry disk sessions (named ∙ rw e refl))
                  ∙ batch-on_disk m disk sessions token n h u.1
                  ∙ rw (cons, x, e, absent) refl
              | inr (s, e) ↦
                  ap (lookup token) (batch-take m name entry disk sessions (named ∙ rw e refl))
                  ∙ batch-on_disk m disk (insert token s sessions) token n h u.1
                  ∙ rw (cons, x, e, absent) (lookup-insert_self token s sessions)
            ]
        | inr x ↦ elim (Option-cases (load_named codec m name entry)) [
          | inl e ↦
              ap (lookup token) (batch-skip m name entry disk sessions e)
              ∙ batch-on_disk m disk sessions token n h u.1
              ∙ rw (cons, x) refl
          | inr ((t, s), e) ↦
              let prefix = load_named-Named m name entry {token = t} {session = s} n e in
              let other = lookup-insert t token s sessions in
              let apart = different_prefix t token name prefix x in
              ap (lookup token) (batch-take m name entry disk sessions e)
              ∙ batch-on_disk m disk (insert t s sessions) token n h u.1
              ∙ rw (cons, x, other, apart) refl
        ]
      ]

  -- what is loaded for a device at the start
  pub load-on_disk :
      (store : DeviceStore) (disk : Disk) (d : Device)
      → PrefixesDistinct store
      → Distinct (λ e. e.0) disk
      → Occurs d (values store.devices)
      → d.revoked ≡ false
      → lookup d.token (load_from_disk codec [] store disk) ≡ on_disk d.token disk
  unfolding load_from_disk lookup
  load-on_disk store disk d p u o r =
      let ds = values store.devices in
      let empty : Named [] = λ q t e. cc in
      batch-on_disk (token_map_from [] ds) disk [] d.token (token_map-Named ds [] empty)
        (token_map-device d ds [] p o r) u
      ∙ right_none (on_disk d.token disk)
