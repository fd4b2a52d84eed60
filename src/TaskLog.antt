-- ===== src/TaskLog.antt =====
-- src/agent/tasklog.rs: the log of the tasks of a device. A log is the text of its file, or `none`
-- when there is no file; a write that fails leaves it as it was.
pub mod Fifo
pub mod Lines
pub mod Flat
pub mod Block
pub mod Readable
pub mod Shown
use rabb1t_claw.Base.{
  ℕ, ◌-◌, Bool, true, false, not, Option, none, some, List, [], ◌∷◌, ◌++◌, map, if◌then◌else◌, ◌==◌,
  ltb, Text, codes, join, trim, unwrap_or, and_then, length, drop, retain, is_empty,
}

-- a line without the `\r` before its `\n`
unfoldable pub chomp : Text → Text
chomp [] = []
chomp (c ∷ []) = if c == 13 then [] else c ∷ []
chomp (c ∷ d ∷ cs) = c ∷ chomp (d ∷ cs)

-- `str::lines`, with what was read of the current line
unfoldable pub lines_from : Text → Text → List Text
lines_from line [] = if is_empty line then [] else line ∷ []
lines_from line (c ∷ cs) = elim (c == 10) [
  | true ↦ chomp line ∷ lines_from [] cs
  | false ↦ lines_from (line ++ c ∷ []) cs
]

-- the lines of the file that are not empty
unfoldable pub entries : Text → List Text
entries content = retain (λ l. not (is_empty l)) (lines_from [] content)

unfoldable pub event_line : Text → Text → Text
event_line ts event =
    codes "[" ++ (ts ++ (codes "] " ++ map (λ c. if c == 10 then 32 else c) event))

unfoldable pub keep_last : ℕ → List Text → List Text
keep_last max_entries lines =
    if ltb max_entries (length lines) then drop (length lines - max_entries) lines else lines

unfoldable pub append : Option Text → Text → Text → ℕ → Bool → Option Text
append file ts event max_entries written =
    let lines = entries (unwrap_or file []) ++ event_line ts event ∷ [] in
    let content = join (codes "\n") (keep_last max_entries lines) ++ codes "\n" in
    if written then some content else file

unfoldable pub read : Option Text → Option Text
read file = and_then file λ content. if is_empty (trim content) then none else some (trim content)
