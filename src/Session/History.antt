-- ===== src/Session/History.antt =====
-- What recording a message does to the histories.
use rabb1t_claw.Base.{
  Bytes, ℕ, Bool, Option, [], ◌∷◌, ◌++◌, ◌≡◌, refl, inl, inr, if◌then◌else◌, Text, text_eq, lookup,
  lookup-insert, Bool-cases, Option-cases,
}
use rabb1t_claw.Session.{
  ConversationTurn, ConversationSession, Sessions, Disk, recorded, get_history, record_message,
}
use rabb1t_claw.Session.Encoding.{Codec}

abbrev pub turn_of : ℕ → Text → Text → Option Text → ConversationTurn
turn_of now role text run_id = record {
  role = role;
  content = text;
  timestamp_ms = now;
  run_id = run_id;
}

pub recorded-turns :
    (sessions : Sessions) (token : Text) (turn : ConversationTurn)
    → (recorded sessions token turn).turns ≡ get_history sessions token ++ turn ∷ []
unfolding get_history
recorded-turns sessions token turn = elim (Option-cases (lookup token sessions)) [
  | inl e ↦ rw e refl
  | inr (s, e) ↦ rw e refl
]

module _ (codec : Codec ConversationSession) where
  -- Whether or not the message reaches the disk, it is appended to the history of its own device,
  -- and the history of every other token, one with the same prefix too, stays as it was.
  pub record-history :
      (nonce : Bytes) (accepts : Bool) (now : ℕ) (sessions : Sessions) (disk : Disk)
      (token role text : Text) (run_id : Option Text) (j : Text)
      → get_history
          (record_message codec nonce accepts now (sessions, disk) token role text run_id).0
          j
        ≡ (if text_eq token j
            then get_history sessions token ++ turn_of now role text run_id ∷ []
            else get_history sessions j)
  unfolding record_message get_history
  record-history nonce accepts now sessions disk token role text run_id j =
      let turn = turn_of now role text run_id in
      let snapshot = recorded sessions token turn in
      let whole = recorded-turns sessions token turn in
      let found = lookup-insert token j snapshot sessions in
      elim (Bool-cases (text_eq token j)) [
        | inl e ↦ rw (found, e) whole
        | inr e ↦ rw (found, e) refl
      ]
