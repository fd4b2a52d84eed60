-- ===== src/Tests/Fixtures.antt =====
-- Stand-ins for the libraries: a cipher that only adds a tag, a serializer of sessions with one
-- turn, and a tokenizer that counts characters.
use rabb1t_claw.Base.{
  Bytes, is_utf8, ℕ, ◌≤◌, Bool, true, ◌&&◌, ◌==◌, Option, none, some, List, [], ◌∷◌, ◌++◌, ◌≡◌, sym,
  ap, subst, arith, if◌then◌else◌, Text, codes, text_eq, text_eq_iff, drop, length, length-append,
  inl, inr, Bool-cases, Option-cases,
}
use rabb1t_claw.Agent.Request.{RequestEnv, StreamJob, ok}
use rabb1t_claw.Agent.Streaming.{StreamEnv}
use rabb1t_claw.Config.Resolve.{openai}
use rabb1t_claw.Connection.{SocketEnv, frame}
use rabb1t_claw.Json.{null}
use rabb1t_claw.Protocol.{request}
use rabb1t_claw.Session.{ConversationTurn, ConversationSession}
use rabb1t_claw.Session.Encoding.{Codec}
use mathlib.Core.Option.{some-injective, none-ne-some}

abbrev pub tag : Bytes
tag = 0 ∷ 0 ∷ 0 ∷ 0 ∷ 0 ∷ 0 ∷ 0 ∷ 0 ∷ 0 ∷ 0 ∷ 0 ∷ 0 ∷ 0 ∷ 0 ∷ 0 ∷ 0 ∷ []

abbrev sealed_with : Bytes → Bytes → Bytes → Option Bytes
sealed_with key nonce plain = some (tag ++ plain)

abbrev opened_with : Bytes → Bytes → Bytes → Option Bytes
opened_with key nonce sealed = some (drop 16 sealed)

abbrev pub said : Text → ConversationTurn
said content = record { role = codes "user"; content = content; timestamp_ms = 5; run_id = none }

abbrev is_said : ConversationTurn → Bool
is_said t = text_eq t.role (codes "user") && t.timestamp_ms == 5 && is_utf8 t.content

abbrev turn_yaml : ConversationTurn → Option Text → Option Bytes
turn_yaml t none = if is_said t then some t.content else none
turn_yaml t (some id) = none

abbrev turns_yaml : List ConversationTurn → Option Bytes
turns_yaml (t ∷ []) = turn_yaml t t.run_id
turns_yaml _ = none

abbrev session_yaml : ConversationSession → Option Bytes
session_yaml s = turns_yaml s.turns

abbrev yaml_session : Bytes → Option ConversationSession
yaml_session yaml = some (record { turns = said yaml ∷ [] })

-- what a turn that is serialized looks like
said_turn :
    (t : ConversationTurn) {yaml : Bytes}
    → turn_yaml t t.run_id ≡ some yaml
    → (t ≡ said yaml) × (is_utf8 yaml ≡ true)
said_turn t {yaml} h = elim (Option-cases t.run_id) [
  | inl e ↦ elim (Bool-cases (is_said t)) [
    | inl f ↦
        let same : t.content ≡ yaml = ground (arith, e, f, h) in
        let role = (text_eq_iff t.role (codes "user")).0 (ground (arith, f)) in
        let time : t.timestamp_ms ≡ 5 = ground (arith, f) in
        (cc (same, role, time, e), ground (arith, f, same))
    | inr f ↦ ground (arith, e, f, h)
  ]
  | inr (id, e) ↦ ground (arith, e, h)
]

turns_said :
    (ts : List ConversationTurn) {yaml : Bytes}
    → turns_yaml ts ≡ some yaml
    → (ts ≡ said yaml ∷ []) × (is_utf8 yaml ≡ true)
turns_said [] {yaml} h = absurd (none-ne-some yaml h)
turns_said (t ∷ []) {yaml} h =
    let (same, text) = said_turn t {yaml = yaml} h in (ap (λ x. x ∷ []) same, text)
turns_said (t ∷ u ∷ ts) {yaml} h = absurd (none-ne-some yaml h)

pub session_text :
    (s : ConversationSession) {yaml : Bytes} → session_yaml s ≡ some yaml → is_utf8 yaml ≡ true
session_text s {yaml} h = (turns_said s.turns {yaml = yaml} h).1

pub session_parses :
    (s : ConversationSession) {yaml : Bytes}
    → session_yaml s ≡ some yaml
    → yaml_session yaml ≡ some s
session_parses s {yaml} h =
    ap (λ ts. some (record { turns = ts })) (sym (turns_said s.turns {yaml = yaml} h).0)

unfoldable pub toy_codec : Codec ConversationSession
toy_codec = record {
  sha256 = λ b. b;
  encrypt = sealed_with;
  decrypt = opened_with;
  to_yaml = session_yaml;
  from_yaml = yaml_session;
  decrypts =
      λ key nonce plain {sealed} e. ap (λ c. some (drop 16 c)) (sym (some-injective _ sealed e));
  tagged = λ key nonce plain {sealed} e.
      subst (λ c. 16 ≤ length c) (some-injective _ sealed e)
        (omega (arith, length-append tag plain));
  serializes_text = λ s {yaml} e. session_text s {yaml = yaml} e;
  parses = λ s {yaml} e. session_parses s {yaml = yaml} e;
}

abbrev pub count_characters : Text → ℕ
count_characters t = length t

abbrev pub a_request_env : RequestEnv
a_request_env = record {
  parse = λ p. ok (record { message = codes " Hello "; idempotency_key = codes "run-1" });
  count_tokens = count_characters;
  default_prompt = codes "You may run {code_max_concurrent} tasks.";
  accepted_at = 7;
  current_time = codes "Monday";
  time_of = λ ms. none;
  memory = none;
  task_log = none;
  now_secs = 130;
  tx_open = true;
}

abbrev pub a_job : Option Text → StreamJob
a_job token = record {
  provider = record {
    kind = openai;
    base_url = codes "https://api.openai.com/v1";
    api_key = codes "sk";
  };
  request = record {
    model = codes "gpt";
    messages = [];
    system = none;
    max_tokens = none;
    temperature = none;
    top_p = none;
    frequency_penalty = none;
    presence_penalty = none;
    reasoning_effort = none;
    thinking = none;
  };
  run_id = codes "run-1";
  request_id = codes "1";
  session_key = codes "default:main";
  device_token = token;
  user_message = codes "Hello";
  prefix = [];
  provider_name = codes "Openai";
  model_id = codes "gpt";
  dedup_key = (token, codes "run-1");
}

abbrev pub a_nonce : Bytes
a_nonce = 1 ∷ 2 ∷ 3 ∷ 4 ∷ 5 ∷ 6 ∷ 7 ∷ 8 ∷ 9 ∷ 10 ∷ 11 ∷ 12 ∷ []

abbrev pub a_stream_env : StreamEnv
a_stream_env = record {
  codec = toy_codec;
  parse_json = λ t. none;
  started_at = 8;
  now = 9;
  user_write = record { nonce = a_nonce; accepts = true };
  assistant_write = record { nonce = a_nonce; accepts = true };
}

abbrev pub a_socket_env : SocketEnv
a_socket_env = record {
  parse_frame = λ t. frame (request (codes "1") (codes "connect") (some null));
  parse_connect = λ p. some (some (record { token = some (codes "aaaaaaaa11") }));
  hello_json = λ h. null;
  version = codes "1";
  config_path = codes "config.yml";
  state_dir = codes "state";
  now = 10;
  request_env = a_request_env;
}
