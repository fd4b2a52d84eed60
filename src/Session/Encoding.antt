-- ===== src/Session/Encoding.antt =====
-- The cipher and the serializer that the sessions are stored with, which come from libraries, with
-- what their documentation promises.
use rabb1t_claw.Base.{◌≤◌, true, Option, some, ◌≡◌, length, Bytes, is_utf8}

-- SHA-256, AES-256-GCM with a key and a nonce, and YAML for a type of values
pub record Codec (V : Type 0) : Type 0 where
  pub sha256 : Bytes → Bytes
  pub encrypt : Bytes → Bytes → Bytes → Option Bytes
  pub decrypt : Bytes → Bytes → Bytes → Option Bytes
  pub to_yaml : V → Option Bytes
  pub from_yaml : Bytes → Option V
  -- the ciphertext with its tag of sixteen bytes decrypts under the same key and nonce
  pub decrypts :
      (key nonce plain : Bytes) {sealed : Bytes}
      → encrypt key nonce plain ≡ some sealed
      → decrypt key nonce sealed ≡ some plain
  pub tagged :
      (key nonce plain : Bytes) {sealed : Bytes}
      → encrypt key nonce plain ≡ some sealed
      → 16 ≤ length sealed
  -- what is serialized is a `String`, and reads back
  pub serializes_text : (v : V) {yaml : Bytes} → to_yaml v ≡ some yaml → is_utf8 yaml ≡ true
  pub parses : (v : V) {yaml : Bytes} → to_yaml v ≡ some yaml → from_yaml yaml ≡ some v
