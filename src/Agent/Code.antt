-- ===== src/Agent/Code.antt =====
-- src/agent/code/helpers.rs: what a code agent reads off a response. The rest of src/agent/code is
-- in the child modules.
pub mod Act
pub mod Sandbox
pub mod Loop
use rabb1t_claw.Base.{
  ℕ, ◌+◌, Bool, true, false, not, ◌&&◌, Option, none, some, List, [], ◌∷◌, ◌++◌, if◌then◌else◌, map,
  Text, codes, text_eq, find, starts_with, trim, trim_end, is_empty, length, take, drop, retain,
  ◌>>=◌,
}
use rabb1t_claw.TaskLog.{lines_from}

abbrev marker : Text
marker = codes "```python"

abbrev without_newline : Text → Text
without_newline t = if starts_with t (codes "\n") then drop 1 t else t

unfoldable pub extract_python_code : Text → Option Text
extract_python_code response = do
  start ← find marker response
  let body = without_newline (drop (start + length marker) response)
  end ← find (codes "```") body
  let code = trim_end (take end body)
  if is_empty code then none else some code

-- the lines of a block that name a package
abbrev package_lines : Text → List Text
package_lines block =
    retain (λ l. not (is_empty l) && not (starts_with l (codes "#")))
      (map trim (lines_from [] block))

-- the text of the first fenced block behind the header
unfoldable pub packages_block : Text → Option Text
packages_block response = do
  idx ← find (codes "### Packages") response
  let after = drop (idx + 12) response
  fence_start ← find (codes "```") after
  let inner = drop (fence_start + 3) after
  nl ← find (codes "\n") inner
  let block = drop (nl + 1) inner
  fence_end ← find (codes "```") block
  some (take fence_end block)

unfoldable pub extract_packages : Text → List Text
unfolding packages_block
extract_packages response = elim (packages_block response) [
  | none ↦ []
  | some block ↦ package_lines block
]

-- the names of a directory, one in a line
abbrev name_lines : List Text → Text
name_lines [] = []
name_lines (name ∷ names) =
    if text_eq name (codes ".venv")
    then name_lines names
    else name ++ (codes "\n" ++ name_lines names)

unfoldable pub list_workspace : List Text → Text
list_workspace names = if is_empty (name_lines names) then codes "(empty)" else name_lines names
