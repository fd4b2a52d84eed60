-- ===== src/Markers.antt =====
-- src/agent/markers.rs: the `@@dispatch` blocks of a response. `none` of a slice is the panic of
-- the Rust slice whose end lies before its start.

use rabb1t_claw.Base.{
  ℕ, zero, suc, ◌+◌, ◌-◌, Bool, ◌&&◌, Option, none, some, List, [], ◌∷◌, ◌++◌, ltb, ◌==◌,
  if◌then◌else◌, unwrap_or, Text, codes, find, trim, length, take, drop, get_elem?,
}
use rabb1t_claw.Json.{Json, as_u64, as_str, get}

abbrev pub dispatch_open : Text
dispatch_open = codes "@@dispatch\n"

abbrev pub block_close : Text
block_close = codes "\n@@end"

pub data TaskMarker : Type 0 where
  dispatch : Text → Text → TaskMarker
  answer : ℕ → Text → TaskMarker

-- `u32::try_from(id).unwrap_or(u32::MAX)`
abbrev pub saturate_u32 : ℕ → ℕ
saturate_u32 n = if ltb n 4294967296 then n else 4294967295

abbrev dispatch_of : Option Text → Option Text → Option TaskMarker
dispatch_of (some task_type) (some desc) = some (dispatch task_type desc)
dispatch_of _ _ = none

abbrev marker_of : Option ℕ → Option Text → Option Text → Option Text → Option TaskMarker
marker_of (some id) (some text) task_type desc = some (answer (saturate_u32 id) text)
marker_of _ _ task_type desc = dispatch_of task_type desc

unfoldable pub classify_marker : Json → Option TaskMarker
classify_marker val =
    marker_of (as_u64 (get val (codes "id"))) (as_str (get val (codes "answer")))
      (as_str (get val (codes "type"))) (as_str (get val (codes "desc")))

-- `for val in &arr { if let Some(marker) = classify_marker(val) { results.push(marker); } }`
unfoldable pub classify_all : List Json → List TaskMarker
classify_all [] = []
classify_all (val ∷ vals) = elim (classify_marker val) [
  | none ↦ classify_all vals
  | some marker ↦ marker ∷ classify_all vals
]

-- a block that `serde_json` refuses is logged and gives no marker
unfoldable pub block_markers : Option (List Json) → List TaskMarker
block_markers none = []
block_markers (some arr) = classify_all arr

-- `parse_json` is `serde_json::from_str::<Vec<Value>>`. A round drops at least the 17 characters
-- of the two delimiters, so `length response` rounds are enough.
module _ (parse_json : Text → Option (List Json)) where
  unfoldable pub parse_from : ℕ → Text → List TaskMarker
  parse_from zero rest = []
  parse_from (suc fuel) rest = elim (find dispatch_open rest) [
    | none ↦ []
    | some open_offset ↦
        let content = drop (open_offset + 11) rest in
        elim (find block_close content) [
          | none ↦ []
          | some close_offset ↦
              block_markers (parse_json (trim (take close_offset content)))
              ++ parse_from fuel (drop (close_offset + 6) content)
        ]
  ]

  unfoldable pub parse_task_markers : Text → List TaskMarker
  unfolding parse_from
  parse_task_markers response = parse_from (suc (length response)) response

-- `response.as_bytes()[i] == b'\n'`, false past the end
abbrev pub newline_at : Text → ℕ → Bool
newline_at t i = unwrap_or (get_elem? t i) 0 == b'\n'

-- the start of a block with the newline that belongs to it
abbrev pub trim_block_start : Text → ℕ → ℕ
trim_block_start response abs_start =
    if ltb 0 abs_start && newline_at response (abs_start - 1) then abs_start - 1 else abs_start

-- `&text[from..to]`
abbrev pub slice : Text → ℕ → ℕ → Option Text
slice t from to = if ltb to from then none else some (take (to - from) (drop from t))

-- behind a block, with the trailing newline skipped
abbrev pub after_block : Text → ℕ → ℕ
after_block response block_end = if newline_at response block_end then block_end + 1 else block_end

unfoldable pub strip_from : ℕ → Text → ℕ → Text → Option Text
strip_from zero response search_from result = some result
strip_from (suc fuel) response search_from result =
    elim (find dispatch_open (drop search_from response)) [
      | none ↦ some (result ++ drop search_from response)
      | some open_offset ↦
          let abs_start = search_from + open_offset in
          let content_start = abs_start + 11 in
          elim (slice response search_from (trim_block_start response abs_start)) [
            | none ↦ none
            | some visible ↦ elim (find block_close (drop content_start response)) [
              | none ↦ some (result ++ visible)
              | some close_offset ↦
                  strip_from fuel response (after_block response (content_start + close_offset + 6))
                    (result ++ visible)
            ]
          ]
    ]

unfoldable pub strip_task_markers : Text → Option Text
unfolding strip_from
strip_task_markers response = strip_from (suc (length response)) response 0 []
