-- ===== src/Session/Restart.antt =====
-- The conversations across a restart of the gateway.
use rabb1t_claw.Base.{
  Bytes, is_utf8, Bool, true, false, some, List, [], ◌∷◌, ◌++◌, ◌≡◌, refl, sym, ap, ◌∙◌, inl, inr,
  arith, subst, if◌then◌else◌, Text, text_eq, text_eq_iff, insert, values, map_or, lookup-insert,
  Distinct-insert, Occurs, Distinct, Distinct-Occurs, Bool-cases, Option-cases, length, take, drop,
  length-append, ltb, lt→ltb,
}
use rabb1t_claw.Devices.{Device, DeviceStore, token_prefix}
use rabb1t_claw.Devices.Prefixes.{prefix_of, PrefixesDistinct}
use rabb1t_claw.Session.{
  ConversationTurn, ConversationSession, Sessions, Disk, DirEntry, content, recorded, get_history,
  save_session, encrypt_session, decrypt_session, load_entry, load_from_disk,
}
use rabb1t_claw.Session.Encoding.{Codec}
use rabb1t_claw.Session.History.{recorded-turns}
use rabb1t_claw.Session.Loading.{on_disk, load-on_disk}

take-all : (xs ys : Bytes) → take (length xs) (xs ++ ys) ≡ xs
take-all [] ys = refl
take-all (x ∷ xs) ys = ap (◌∷◌ x) (take-all xs ys)

drop-all : (xs ys : Bytes) → drop (length xs) (xs ++ ys) ≡ ys
drop-all [] ys = refl
drop-all (x ∷ xs) ys = drop-all xs ys

prefixes_apart :
    (store : DeviceStore) (d e : Device)
    → PrefixesDistinct store
    → Occurs d (values store.devices)
    → Occurs e (values store.devices)
    → text_eq d.token e.token ≡ false
    → text_eq (prefix_of d) (prefix_of e) ≡ false
prefixes_apart store d e p o q x = elim (Bool-cases (text_eq (prefix_of d) (prefix_of e))) [
  | inl y ↦
      let same =
        Distinct-Occurs prefix_of (values store.devices) p o q
          ((text_eq_iff (prefix_of d) (prefix_of e)).0 y) in
      ground (arith, text_eq_iff d.token e.token, ap (λ z. z.token) same)
  | inr y ↦ y
]

module _ (codec : Codec ConversationSession) where
  -- A text that is encrypted with a nonce of twelve bytes decrypts, under the same token, to itself.
  pub decrypt-encrypt :
      (token : Text) (nonce plain : Bytes) {stored : Bytes}
      → length nonce ≡ 12
      → is_utf8 plain ≡ true
      → encrypt_session codec token nonce plain ≡ some stored
      → decrypt_session codec token stored ≡ some plain
  unfolding encrypt_session decrypt_session
  decrypt-encrypt token nonce plain {stored} l u h =
      elim (Option-cases (codec.encrypt (codec.sha256 token) nonce plain)) [
        | inl e ↦ ground arith
        | inr (sealed, e) ↦
            let same : stored ≡ nonce ++ sealed = ground arith in
            let start =
              ap (take 12) same
              ∙ ap (λ n. take n (nonce ++ sealed)) (sym l)
              ∙ take-all nonce sealed in
            let rest =
              ap (drop 12) same
              ∙ ap (λ n. drop n (nonce ++ sealed)) (sym l)
              ∙ drop-all nonce sealed in
            let tagged = codec.tagged (codec.sha256 token) nonce plain e in
            let long : ltb 12 (length stored) ≡ true =
              lt→ltb 12 (length stored)
                (omega (arith, ap length same, length-append nonce sealed)) in
            rw (long, start, rest, codec.decrypts (codec.sha256 token) nonce plain e, u) refl
      ]

  abbrev saved_entry : Bytes → DirEntry
  saved_entry stored = record { is_dir = true; conversation = content stored }

  saved :
      (nonce : Bytes) (accepts : Bool) (disk disk' : Disk) (token : Text)
      (session : ConversationSession)
      → save_session codec nonce accepts disk token session ≡ some disk'
      → (yaml : Bytes) × (stored : Bytes) × (disk'
          ≡ insert (token_prefix token) (saved_entry stored) disk)
        × (codec.to_yaml session ≡ some yaml)
        × (encrypt_session codec token nonce yaml ≡ some stored)
  unfolding save_session
  saved nonce accepts disk disk' token session h = elim (Option-cases (codec.to_yaml session)) [
    | inl e ↦ ground arith
    | inr (yaml, e) ↦ elim (Option-cases (encrypt_session codec token nonce yaml)) [
      | inl f ↦ ground arith
      | inr (stored, f) ↦ (yaml, stored, ground arith, e, f)
    ]
  ]

  on_disk-insert :
      (token j : Text) (stored : Bytes) (disk : Disk)
      → on_disk codec j (insert (token_prefix token) (saved_entry stored) disk) ≡ (
          if text_eq (token_prefix token) (token_prefix j)
          then load_entry codec j (saved_entry stored)
          else on_disk codec j disk)
  on_disk-insert token j stored disk =
      rw (lookup-insert (token_prefix token) (token_prefix j) (saved_entry stored) disk)
        (ground arith)

  load_entry-saved :
      (token : Text) (nonce : Bytes) (session : ConversationSession) {yaml stored : Bytes}
      → length nonce ≡ 12
      → codec.to_yaml session ≡ some yaml
      → encrypt_session codec token nonce yaml ≡ some stored
      → load_entry codec token (saved_entry stored) ≡ some session
  unfolding load_entry
  load_entry-saved token nonce session {yaml} {stored} l y e =
      rw (decrypt-encrypt token nonce yaml {stored = stored} l (codec.serializes_text session y) e)
        (codec.parses session y)

  -- what a start of the gateway would load for a device
  abbrev pub after_restart : DeviceStore → Disk → Text → List ConversationTurn
  after_restart store disk token = get_history (load_from_disk codec [] store disk) token

  restart-history :
      (store : DeviceStore) (disk : Disk) (d : Device)
      → PrefixesDistinct store
      → Distinct (λ e. e.0) disk
      → Occurs d (values store.devices)
      → d.revoked ≡ false
      → after_restart store disk d.token ≡ map_or (on_disk codec d.token disk) [] (λ s. s.turns)
  unfolding get_history
  restart-history store disk d p u o r = rw (load-on_disk codec store disk d p u o r) refl

  -- A message that reaches the disk, recorded for one paired device, survives a restart: that
  -- device then has the whole history it had in memory, and any other paired device has what it
  -- would have had without the message. The devices have distinct prefixes and are not revoked.
  pub restart-record :
      (store : DeviceStore) (disk disk' : Disk) (sessions : Sessions) (d e : Device) (nonce : Bytes)
      (accepts : Bool) (turn : ConversationTurn)
      → PrefixesDistinct store
      → Distinct (λ e. e.0) disk
      → Occurs d (values store.devices) × (d.revoked ≡ false)
      → Occurs e (values store.devices) × (e.revoked ≡ false)
      → length nonce ≡ 12
      → save_session codec nonce accepts disk d.token (recorded sessions d.token turn) ≡ some disk'
      → after_restart store disk' e.token ≡ (
          if text_eq d.token e.token
          then get_history sessions d.token ++ turn ∷ []
          else after_restart store disk e.token)
  restart-record store disk disk' sessions d e nonce accepts turn p u o q l h =
      let session = recorded sessions d.token turn in
      let (yaml, stored, same, y, c) = saved nonce accepts disk disk' d.token session h in
      let u' =
        subst (λ m. Distinct (λ e. e.0) m) (sym same)
          (Distinct-insert (token_prefix d.token) (saved_entry stored) disk u) in
      let found = ap (on_disk codec e.token) same ∙ on_disk-insert d.token e.token stored disk in
      restart-history store disk' e p u' q.0 q.1
      ∙ rw found (elim (Bool-cases (text_eq d.token e.token)) [
        | inl x ↦
            let tokens = (text_eq_iff d.token e.token).0 x in
            let loaded =
              subst (λ t. load_entry codec t (saved_entry stored) ≡ some session) tokens
                (load_entry-saved d.token nonce session {yaml = yaml} {stored = stored} l y c) in
            let prefixes = (text_eq_iff (prefix_of d) (prefix_of e)).1 (ap token_prefix tokens) in
            rw (x, prefixes, loaded) (recorded-turns sessions d.token turn)
        | inr x ↦
            rw (x, prefixes_apart store d e p o.0 q.0 x)
              (sym (restart-history store disk e p u q.0 q.1))
      ])
