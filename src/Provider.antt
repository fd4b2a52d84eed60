-- ===== src/Provider.antt =====
-- src/provider/mod.rs: the stream of server-sent events of a provider's answer, read off the pieces
-- in which the network delivers it. What is sent to the channel is a list, in order.
pub mod Lines
pub mod OpenAi
pub mod Ends
pub mod Bodies
pub mod Client
pub mod Anthropic
use mathlib.Core.Option
use rabb1t_claw.Base.{
  ℕ, zero, suc, ◌+◌, Bool, true, false, Option, none, some, List, [], ◌∷◌, ◌++◌, if◌then◌else◌,
  ◌==◌, Text, codes, Bytes, from_utf8_lossy, trim, is_empty, starts_with, strip_prefix, and_then,
  length, take, drop,
}
use rabb1t_claw.Stream.{StreamChunk, text, done, error}

-- one item of `bytes_stream`
pub data Piece : Type 0 where
  bytes : Bytes → Piece
  failed : Text → Piece

-- `iter().position(|&b| b == byte)`
unfoldable pub position : ℕ → Bytes → Option ℕ
position byte [] = none
position byte (b ∷ bs) = if b == byte then some 0 else Option.map suc (position byte bs)

-- what the inner loop has sent, how far it came, and whether `Done` ended the function
pub record Scanned : Type 0 where
  pub sent : List StreamChunk
  pub consumed : ℕ
  pub stopped : Bool

abbrev pub sent_before : StreamChunk → Scanned → Scanned
sent_before done rest = record { sent = done ∷ []; consumed = rest.consumed; stopped = true }
sent_before chunk rest = record rest { sent = chunk ∷ rest.sent }

abbrev pub with_chunk : Option StreamChunk → Scanned → Scanned
with_chunk none rest = rest
with_chunk (some chunk) rest = sent_before chunk rest

-- what `send().await` and `status()` gave
pub data Reply : Type 0 where
  -- no response at all
  unreachable : Text → Reply
  -- a status that is no success, as it is printed, and the body
  refused : Text → Text → Reply
  accepted : List Piece → Reply

module _ (parse_data : Text → Option StreamChunk) where
  -- the line of an event, without its line end
  unfoldable pub line_chunk : Bytes → Option StreamChunk
  line_chunk raw =
      let line = trim (from_utf8_lossy raw) in
      if is_empty line
      then none
      else if starts_with line (codes ":")
      then none
      else and_then (strip_prefix line (codes "data: ")) parse_data

  -- all complete lines of the buffer; each round passes a newline
  unfoldable pub scan_lines : ℕ → Bytes → ℕ → Scanned
  scan_lines zero buffer consumed = record { sent = []; consumed = consumed; stopped = false }
  scan_lines (suc fuel) buffer consumed = elim (position 10 (drop consumed buffer)) [
    | none ↦ record { sent = []; consumed = consumed; stopped = false }
    | some rel_end ↦
        with_chunk (line_chunk (take rel_end (drop consumed buffer)))
          (scan_lines fuel buffer (consumed + rel_end + 1))
  ]

  unfoldable pub process_pieces : Bytes → List Piece → List StreamChunk
  process_pieces buffer [] = done ∷ []
  process_pieces buffer (failed e ∷ pieces) = error e ∷ []
  process_pieces buffer (bytes chunk ∷ pieces) =
      let whole = buffer ++ chunk in
      let scanned = scan_lines (suc (length whole)) whole 0 in
      let rest = process_pieces (drop scanned.consumed whole) pieces in
      if scanned.stopped then scanned.sent else scanned.sent ++ rest

  unfoldable pub process_sse_stream : List Piece → List StreamChunk
  process_sse_stream pieces = process_pieces [] pieces

  unfoldable pub send_and_stream : Text → Reply → List StreamChunk
  send_and_stream provider_name (unreachable e) = error e ∷ []
  send_and_stream provider_name (refused status body) =
      error (provider_name ++ (codes " API error " ++ (status ++ (codes ": " ++ body)))) ∷ []
  send_and_stream provider_name (accepted pieces) = process_sse_stream pieces
