-- ===== src/Stream.antt =====
-- src/agent/stream.rs: think blocks, the streaming marker filter, and stream collection.
pub mod Scan
mod Starts
mod ScanLaws
mod Hold
mod Rounds
pub mod Chunks
pub mod Strip
pub mod Blocks
use rabb1t_claw.Base.{
  ℕ, zero, suc, ◌+◌, ◌-◌, ◌*◌, Bool, true, false, not, ◌&&◌, ◌||◌, Option, none, some, List, [],
  ◌∷◌, ◌++◌, ltb, leb, ◌==◌, if◌then◌else◌, unwrap_or, Text, codes, find, starts_with, strip_prefix,
  trim_start, length, take, drop, is_empty,
}
use rabb1t_claw.Markers.{dispatch_open, block_close, newline_at, trim_block_start}
use Prim.Native.Nat.{min}

pub data ThinkResult : Type 0 where
  pending : ThinkResult
  pass_through : ThinkResult
  stripped : Text → ThinkResult

-- `check_think_block` on the buffer with its leading whitespace removed
unfoldable pub check_trimmed : Text → ThinkResult
check_trimmed trimmed =
    if is_empty trimmed
    then pending
    else if starts_with trimmed (codes "<think>")
    then elim (find (codes "</think>") trimmed) [
      | none ↦ pending
      | some end ↦ stripped (trim_start (drop (end + 8) trimmed))
    ]
    else elim (strip_prefix trimmed (codes "</think>")) [
      | some after ↦ stripped (trim_start after)
      | none ↦
          if starts_with (codes "<think>") trimmed || starts_with (codes "</think>") trimmed
          then pending
          else pass_through
    ]

unfoldable pub check_think_block : Text → ThinkResult
unfolding check_trimmed
check_think_block buf = check_trimmed (trim_start buf)

-- `for len in (1..=max_check).rev()`
unfoldable pub hold_loop : Text → Text → ℕ → Option ℕ
hold_loop marker text zero = none
hold_loop marker text (suc len) =
    let start = length text - suc len in
    let rest = hold_loop marker text len in
    if starts_with marker (drop start text) then some start else rest

abbrev pub hold : Text → Text → Option ℕ
hold marker text = hold_loop marker text (min (length marker) (length text))

abbrev pub newline_open : Text
newline_open = codes "\n@@dispatch\n"

unfoldable pub safe_emit_end : Text → ℕ
unfolding hold_loop
safe_emit_end text = elim (hold newline_open text) [
  | some start ↦ start
  | none ↦ elim (hold dispatch_open text) [ some start ↦ start | none ↦ length text ]
]

unfoldable pub find_dispatch_start : Text → Option ℕ
find_dispatch_start text = elim (find dispatch_open text) [
  | none ↦ none
  | some abs ↦ some (trim_block_start text abs)
]

pub record MarkerFilter : Type 0 where
  pub committed : ℕ
  pub eating : Bool

abbrev pub new_filter : MarkerFilter
new_filter = record { committed = 0; eating = false }

-- What one round of the loop of `drain` does: the slices that it pushes, by how much it moves
-- `committed`, the new `eating`, and whether it continues or breaks.
pub record Round : Type 0 where
  pub deltas : List Text
  pub advance : ℕ
  pub eating : Bool
  pub again : Bool

abbrev one_delta : Text → ℕ → List Text
one_delta remaining n = if ltb 0 n then take n remaining ∷ [] else []

-- the round while a block is eaten; `block_end` is known once the byte behind it is there
unfoldable pub eat_round : Text → Round
eat_round remaining = elim (find block_close remaining) [
  | none ↦ record { deltas = []; advance = 0; eating = true; again = false }
  | some pos ↦
      if (pos + 6) == length remaining
      then record { deltas = []; advance = 0; eating = true; again = false }
      else record {
        deltas = [];
        advance = if newline_at remaining (pos + 6) then pos + 6 + 1 else pos + 6;
        eating = false;
        again = true;
      }
]

unfoldable pub emit_round : Text → Round
emit_round remaining = elim (find_dispatch_start remaining) [
  | some pos ↦ record {
    deltas = one_delta remaining pos;
    advance = pos;
    eating = true;
    again = true;
  }
  | none ↦
      let safe = safe_emit_end remaining in
      record { deltas = one_delta remaining safe; advance = safe; eating = false; again = false }
]

unfoldable pub drain_round : Bool → Text → Round
unfolding eat_round emit_round
drain_round eating remaining =
    if is_empty remaining
    then record { deltas = []; advance = 0; eating = eating; again = false }
    else if eating
    then eat_round remaining
    else emit_round remaining

abbrev pub moved : MarkerFilter → Round → MarkerFilter
moved m r = record { committed = m.committed + r.advance; eating = r.eating }

unfoldable pub drain_loop : ℕ → MarkerFilter → Text → List Text × MarkerFilter
drain_loop zero m full_response = ([], m)
drain_loop (suc fuel) m full_response =
    let r = drain_round m.eating (drop m.committed full_response) in
    let rest = drain_loop fuel (moved m r) full_response in
    if r.again then (r.deltas ++ rest.0, rest.1) else (r.deltas, moved m r)

-- A round that continues either ends a block, which drops its six characters, or begins one.
unfoldable pub drain : MarkerFilter → Text → List Text × MarkerFilter
unfolding drain_loop
drain m full_response =
    drain_loop (suc (suc (2 * length (drop m.committed full_response)))) m full_response

unfoldable pub flush : MarkerFilter → Text → Option Text × MarkerFilter
flush m full_response =
    if m.eating || leb (length full_response) m.committed
    then (none, m)
    else (some (drop m.committed full_response), record m { committed = length full_response })

pub data StreamChunk : Type 0 where
  text : Text → StreamChunk
  done : StreamChunk
  error : Text → StreamChunk

pub data Collected : Type 0 where
  ok : Text → Collected
  err : Text → Collected

-- the loop of `collect_stream`, over the chunks that the channel delivers before it closes
unfoldable pub collect_into : Text → List StreamChunk → Collected
collect_into buf [] = ok buf
collect_into buf (text t ∷ chunks) = collect_into (buf ++ t) chunks
collect_into buf (done ∷ chunks) = ok buf
collect_into buf (error e ∷ chunks) = err (codes "stream error: " ++ e)

unfoldable pub collect_stream : List StreamChunk → Collected
unfolding collect_into
collect_stream = collect_into []

-- The use of the filter in the streaming loop of the runner: each chunk is pushed to the full
-- response and drained, and the end of the stream flushes. The result is what the device is sent.
unfoldable pub relay : MarkerFilter → Text → List Text → List Text
relay m full_response [] = elim (flush m full_response).0 [
  | none ↦ []
  | some remaining ↦ remaining ∷ []
]
relay m full_response (chunk ∷ chunks) =
    let full = full_response ++ chunk in
    let (deltas, m') = drain m full in deltas ++ relay m' full chunks
