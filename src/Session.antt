-- ===== src/Session.antt =====
-- src/agent/session.rs: the conversation of each device, in memory and encrypted on disk. The
-- functions that write take the time, the nonce, and whether the file system accepts the write.
pub mod Encoding
pub mod History
mod Loading
pub mod Restart
use rabb1t_claw.Base.{
  Bytes, is_utf8, ℕ, ◌+◌, Bool, true, false, not, Option, none, some, List, [], ◌∷◌, ◌++◌,
  if◌then◌else◌, Text, codes, text_eq, TextMap, lookup, insert, values, unwrap_or, and_then, map_or,
  take, drop, length, ltb, count_if,
}
use rabb1t_claw.Devices.{Device, DeviceStore, token_prefix}
use rabb1t_claw.Session.Encoding.{Codec}

pub record ConversationTurn : Type 0 where
  pub role : Text
  pub content : Text
  pub timestamp_ms : ℕ
  pub run_id : Option Text

pub record ConversationSession : Type 0 where
  pub turns : List ConversationTurn

abbrev pub new_session : ConversationSession
new_session = record { turns = [] }

abbrev pub add_turn : ConversationSession → ConversationTurn → ConversationSession
add_turn s turn = record { turns = s.turns ++ turn ∷ [] }

-- `SessionManager`
abbrev pub Sessions : Type 0
Sessions = TextMap ConversationSession

unfoldable pub get_history : Sessions → Text → List ConversationTurn
get_history sessions token = map_or (lookup token sessions) [] (λ s. s.turns)

abbrev is_user : ConversationTurn → Bool
is_user t = text_eq t.role (codes "user")

unfoldable pub turn_count : Sessions → Text → ℕ
turn_count sessions token = map_or (lookup token sessions) 0 (λ s. count_if is_user s.turns)

-- `conversation.enc` in a directory: no file, one that cannot be read, or its bytes
pub data Conversation : Type 0 where
  absent : Conversation
  unreadable : Conversation
  content : Bytes → Conversation

pub record DirEntry : Type 0 where
  pub is_dir : Bool
  pub conversation : Conversation

-- the entries of the configuration directory, by their names
abbrev pub Disk : Type 0
Disk = TextMap DirEntry

abbrev from_utf8 : Bytes → Option Bytes
from_utf8 bytes = if is_utf8 bytes then some bytes else none

abbrev pub recorded : Sessions → Text → ConversationTurn → ConversationSession
recorded sessions token turn = add_turn (unwrap_or (lookup token sessions) new_session) turn

-- the loop over the devices that fills `token_map`
unfoldable pub token_map_from : TextMap Text → List Device → TextMap Text
token_map_from m [] = m
token_map_from m (d ∷ ds) =
    let m' = if d.revoked then m else insert (token_prefix d.token) d.token m in
    token_map_from m' ds

unfoldable pub insert_all : Sessions → List (Text × ConversationSession) → Sessions
insert_all sessions [] = sessions
insert_all sessions ((key, session) ∷ loaded) = insert_all (insert key session sessions) loaded

module _ (codec : Codec ConversationSession) where
  -- tokens are ASCII: their bytes are their characters
  abbrev derive_key : Text → Bytes
  derive_key token = codec.sha256 token

  unfoldable pub encrypt_session : Text → Bytes → Bytes → Option Bytes
  encrypt_session token nonce plaintext =
      and_then (codec.encrypt (derive_key token) nonce plaintext) λ sealed. some (nonce ++ sealed)

  unfoldable pub decrypt_session : Text → Bytes → Option Bytes
  decrypt_session token stored =
      if ltb 12 (length stored)
      then and_then (codec.decrypt (derive_key token) (take 12 stored) (drop 12 stored)) from_utf8
      else none

  -- `none` when the session is not serialized, encrypted or written
  unfoldable pub save_session : Bytes → Bool → Disk → Text → ConversationSession → Option Disk
  unfolding encrypt_session
  save_session nonce accepts disk token session = and_then (codec.to_yaml session) λ yaml.
      and_then (encrypt_session token nonce yaml) λ stored.
        if accepts
        then some (
            insert (token_prefix token) (record { is_dir = true; conversation = content stored })
              disk)
        else none

  unfoldable pub record_message :
      Bytes → Bool → ℕ → Sessions × Disk → Text → Text → Text → Option Text → Sessions × Disk
  unfolding save_session
  record_message nonce accepts now (sessions, disk) token role text run_id =
      let turn : ConversationTurn = record {
        role = role;
        content = text;
        timestamp_ms = now;
        run_id = run_id;
      } in
      let snapshot = recorded sessions token turn in
      (
        insert token snapshot sessions,
        unwrap_or (save_session nonce accepts disk token snapshot) disk,
      )

  abbrev load_file : Text → Conversation → Option ConversationSession
  load_file token (content stored) = and_then (decrypt_session token stored) codec.from_yaml
  load_file token _ = none

  -- the session in a directory of the device with this token
  unfoldable pub load_entry : Text → DirEntry → Option ConversationSession
  load_entry token entry = if entry.is_dir then load_file token entry.conversation else none

  abbrev pub load_named : TextMap Text → Text → DirEntry → Option (Text × ConversationSession)
  load_named token_map prefix entry =
      and_then (lookup prefix token_map)
        λ token. and_then (load_entry token entry) λ session. some (token, session)

  unfoldable pub batch : TextMap Text → Disk → List (Text × ConversationSession)
  unfolding load_entry
  batch token_map [] = []
  batch token_map ((prefix, entry) ∷ disk) =
      let rest = batch token_map disk in
      elim (load_named token_map prefix entry) [ none ↦ rest | some loaded ↦ loaded ∷ rest ]

  unfoldable pub load_from_disk : Sessions → DeviceStore → Disk → Sessions
  unfolding token_map_from batch insert_all
  load_from_disk sessions store disk =
      insert_all sessions (batch (token_map_from [] (values store.devices)) disk)
