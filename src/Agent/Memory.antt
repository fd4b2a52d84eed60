-- ===== src/Agent/Memory.antt =====
-- src/agent/memory.rs: the limits of the memory agent, the reading of a device's memory, and the
-- limit on its words. The memory is the text of its file, or `none` without a file.
pub mod Words
pub mod Update
pub mod Due
pub mod Updated
use rabb1t_claw.Base.{
  ℕ, suc, Bool, true, false, ◌||◌, Option, none, some, List, [], ◌∷◌, if◌then◌else◌, ltb, Text,
  codes, text_eq, trim, is_whitespace, unwrap_or, and_then, map_or, length, take, is_empty,
}
use rabb1t_claw.Config.{GatewayConfig, agent_config, memory}

abbrev pub empty_sentinel : Text
empty_sentinel = codes "<!-- empty -->"

abbrev pub default_memory_turn_interval : ℕ
default_memory_turn_interval = 5

abbrev pub default_memory_max_words : ℕ
default_memory_max_words = 500

-- the turns between two updates, and the words of the memory
unfoldable pub read_limits : GatewayConfig → ℕ × ℕ
read_limits cfg =
    let ac = agent_config cfg memory in
    (
      unwrap_or (and_then ac (λ a. a.turn_interval)) default_memory_turn_interval,
      unwrap_or (and_then ac (λ a. a.max_words)) default_memory_max_words,
    )

unfoldable pub load_session_memory : Option Text → Option Text
load_session_memory file = and_then file λ content.
    let trimmed = trim content in
    if is_empty trimmed || text_eq trimmed empty_sentinel then none else some content

-- the ends of the words of `split_whitespace`, counted from a position, in a word or between two
unfoldable pub word_ends : ℕ → Bool → Text → List ℕ
word_ends pos in_word [] = if in_word then pos ∷ [] else []
word_ends pos in_word (c ∷ cs) = elim (is_whitespace c) [
  | true ↦ let rest = word_ends (suc pos) false cs in if in_word then pos ∷ rest else rest
  | false ↦ word_ends (suc pos) true cs
]

-- `iter().last()`
unfoldable pub last : List ℕ → Option ℕ
last [] = none
last (x ∷ xs) = some (unwrap_or (last xs) x)

unfoldable pub enforce_word_limit : Text → ℕ → Text
enforce_word_limit t max_words =
    map_or (last (take max_words (word_ends 0 false t))) t
      λ pos. if ltb pos (length t) then take pos t else t
