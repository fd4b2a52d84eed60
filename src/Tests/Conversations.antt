-- ===== src/Tests/Conversations.antt =====
-- src/agent/session.rs and the trimming of src/agent/runner.rs, on the conversation of one device.
use rabb1t_claw.Base.{
  is_utf8, utf8_from, true, none, List, [], ◌∷◌, ◌++◌, if◌then◌else◌, inl, ◌≡◌, refl, arith, Text,
  codes, text_eq, values, insert, lookup,
}
use rabb1t_claw.Budget.{ChatMessage, trim_pairs_to_budget, drained, rounds, sum_u32}
use rabb1t_claw.Budget.Trim.{IsTrimmed, trim-IsTrimmed, sum}
use rabb1t_claw.Session.{Disk, get_history, record_message, save_session, encrypt_session, content}
use rabb1t_claw.Session.History.{turn_of, record-history}
use rabb1t_claw.Session.Restart.{after_restart, restart-record}
use rabb1t_claw.Devices.{token_prefix}
use rabb1t_claw.Tests.Accounts.{phone, tablet, two_devices}
use rabb1t_claw.Tests.Fixtures.{toy_codec, said, tag, a_nonce, count_characters}

abbrev message : Text → Text → ChatMessage
message role said_text = record { role = role; content = said_text }

abbrev long_talk : List ChatMessage
long_talk =
    message (codes "user") (codes "aaaa")
    ∷ message (codes "assistant") (codes "bbbb")
    ∷ message (codes "user") (codes "cc")
    ∷ []

trim-IsTrimmed_example :
    IsTrimmed count_characters long_talk 5 (trim_pairs_to_budget count_characters long_talk 5)
trim-IsTrimmed_example = trim-IsTrimmed count_characters long_talk 5 (unfold sum in omega arith)

trim_run :
    trim_pairs_to_budget count_characters long_talk 5 ≡ message (codes "user") (codes "cc") ∷ []
unfolding trim_pairs_to_budget drained rounds sum_u32
trim_run = refl

record-history_example :
    get_history
      (record_message toy_codec a_nonce true 5
        ([], [])
        phone.token
        (codes "user")
        (codes "Hi")
        none).0
      tablet.token
    ≡ (if text_eq phone.token tablet.token
        then get_history [] phone.token ++ turn_of 5 (codes "user") (codes "Hi") none ∷ []
        else get_history [] tablet.token)
record-history_example =
    record-history toy_codec a_nonce true 5 [] [] phone.token (codes "user") (codes "Hi") none
      tablet.token

abbrev saved_disk : Disk
saved_disk =
    (
      codes "aaaaaaaa",
      record { is_dir = true; conversation = content (a_nonce ++ (tag ++ codes "Hi")) },
    )
    ∷ []

restart-record_example : after_restart toy_codec two_devices saved_disk phone.token ≡ (
    if text_eq phone.token phone.token
    then get_history [] phone.token ++ said (codes "Hi") ∷ []
    else after_restart toy_codec two_devices [] phone.token)
restart-record_example =
    restart-record toy_codec two_devices [] saved_disk [] phone phone a_nonce true
      (said (codes "Hi")) (unfold values token_prefix in ((λ e. ground arith, tt), (tt, tt))) tt
      (unfold values in (inl refl, refl)) (unfold values in (inl refl, refl)) refl
      (unfold save_session encrypt_session toy_codec token_prefix insert lookup is_utf8 utf8_from
          text_eq in
        refl)
