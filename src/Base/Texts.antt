-- ===== src/Base/Texts.antt =====
-- Rust strings as lists of Unicode scalar values. Every text that the gateway searches for is
-- ASCII, so a byte offset that a search returns stands at a character, and cutting the string
-- there is cutting the list.
use Prim.Native.Nat.{ℕ, suc}
use Prim.Native.Char.{code}
use Prim.Native.String.{String}
use mathlib.Core.Path.{◌≡◌, refl}
use mathlib.Core.Logic.{◌↔◌}
use mathlib.Core.Bool.{Bool, true, false, ◌&&◌, ◌||◌}
use mathlib.Core.Option
use mathlib.Core.Option.{Option, none, some}
use mathlib.Core.List.{List, [], ◌∷◌, ◌++◌, reverse}
use native.Mathlib.Omega.{arith}
use rabb1t_claw.Base.Tests.{◌==◌, leb, if◌then◌else◌}

abbrev pub Text : Type 0
Text = List ℕ

abbrev pub codes : String → Text
codes String.[] = []
codes (String.◌∷◌ c s) = code c ∷ codes s

unfoldable pub text_eq : Text → Text → Bool
text_eq [] [] = true
text_eq (x ∷ xs) (y ∷ ys) = x == y && text_eq xs ys
text_eq _ _ = false

pub text_eq_iff : (s t : Text) → (text_eq s t ≡ true) ↔ (s ≡ t)
unfolding text_eq
text_eq_iff (x ∷ xs) (y ∷ ys) = ground (arith, text_eq_iff xs ys)
text_eq_iff _ _ = ground arith

pub text_eq_refl : (s : Text) → text_eq s s ≡ true
text_eq_refl s = (text_eq_iff s s).1 refl

-- `text.starts_with(prefix)`
unfoldable pub starts_with : Text → Text → Bool
starts_with t [] = true
starts_with (c ∷ cs) (x ∷ xs) = c == x && starts_with cs xs
starts_with [] (x ∷ xs) = false

-- `text.strip_prefix(prefix)`
unfoldable pub strip_prefix : Text → Text → Option Text
strip_prefix t [] = some t
strip_prefix (c ∷ cs) (x ∷ xs) = if c == x then strip_prefix cs xs else none
strip_prefix [] (x ∷ xs) = none

-- `text.find(needle)`
unfoldable pub find : Text → Text → Option ℕ
find needle [] = if starts_with [] needle then some 0 else none
find needle (c ∷ cs) =
    if starts_with (c ∷ cs) needle then some 0 else Option.map suc (find needle cs)

-- `char::is_whitespace`: the White_Space property of Unicode
unfoldable pub is_whitespace : ℕ → Bool
is_whitespace c =
    (leb 9 c && leb c 13)
    || c == 32
    || c == 0x85
    || c == 0xa0
    || c == 0x1680
    || (leb 0x2000 c && leb c 0x200a)
    || c == 0x2028
    || c == 0x2029
    || c == 0x202f
    || c == 0x205f
    || c == 0x3000

unfoldable pub trim_start : Text → Text
unfolding is_whitespace
trim_start [] = []
trim_start (c ∷ cs) = if is_whitespace c then trim_start cs else c ∷ cs

unfoldable pub trim_end : Text → Text
unfolding trim_start
trim_end t = reverse (trim_start (reverse t))

unfoldable pub trim : Text → Text
unfolding trim_start trim_end
trim t = trim_end (trim_start t)

-- `parts.join(separator)`
unfoldable pub join : Text → List Text → Text
join sep [] = []
join sep (x ∷ []) = x
join sep (x ∷ y ∷ ys) = x ++ (sep ++ join sep (y ∷ ys))

-- `parts.concat()`
abbrev pub concat : List Text → Text
concat [] = []
concat (x ∷ xs) = x ++ concat xs

-- `texts.contains(t)`
abbrev pub contains : List Text → Text → Bool
contains [] t = false
contains (x ∷ xs) t = text_eq x t || contains xs t
