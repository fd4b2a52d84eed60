-- ===== src/Budget.antt =====
-- src/agent/runner.rs: the trimming of the history to the context budget. A `u32` sum wraps, as it
-- does in the release build.
pub mod Trim
use rabb1t_claw.Base.{
  ℕ, zero, suc, ◌+◌, ◌-◌, ◌*◌, ◌/◌, ◌%◌, List, [], ◌∷◌, if◌then◌else◌, Text, map, length, drop, ltb,
  leb,
}
use rabb1t_claw.Markers.{saturate_u32}

-- `ChatMessage` of src/provider/mod.rs
pub record ChatMessage : Type 0 where
  pub role : Text
  pub content : Text

abbrev pub wrap_u32 : ℕ → ℕ
wrap_u32 n = n % 4294967296

-- `counts.iter().sum()`
unfoldable pub sum_u32 : List ℕ → ℕ
sum_u32 [] = 0
sum_u32 (c ∷ counts) = wrap_u32 (c + sum_u32 counts)

-- The rounds of the loop from some number of pairs on: `left` is `max_pairs - pairs`, `counts` are
-- those from `pairs * 2` on, and the result is how many rounds follow. An index out of range, the
-- last clause, does not happen below `max_pairs`.
unfoldable pub rounds : ℕ → ℕ → List ℕ → ℕ
rounds zero excess counts = 0
rounds (suc left) excess (a ∷ b ∷ counts) =
    let rest = rounds left (excess - wrap_u32 (a + b)) counts in
    if ltb 0 excess then suc rest else 0
rounds (suc left) excess counts = 0

-- `count_tokens` of the text is a parameter.
module _ (count_tokens : Text → ℕ) where
  abbrev pub msg_tokens : ChatMessage → ℕ
  msg_tokens m = saturate_u32 (count_tokens m.content)

  -- how many messages are drained from the front
  unfoldable pub drained : List ChatMessage → ℕ → ℕ
  unfolding rounds sum_u32
  drained messages budget =
      let counts = map msg_tokens messages in
      let total = sum_u32 counts in
      if leb total budget then 0 else rounds ((length messages - 1) / 2) (total - budget) counts * 2

  unfoldable pub trim_pairs_to_budget : List ChatMessage → ℕ → List ChatMessage
  unfolding drained
  trim_pairs_to_budget messages budget = drop (drained messages budget) messages
