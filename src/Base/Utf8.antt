-- ===== src/Base/Utf8.antt =====
-- UTF-8: the check that `String::from_utf8` makes, and `String::from_utf8_lossy`.
use Prim.Native.Nat.{ℕ, zero, suc, ◌+◌, ◌-◌, ◌*◌}
use mathlib.Core.Bool.{Bool, false, ◌&&◌}
use mathlib.Core.Option.{Option, none, some}
use mathlib.Core.List.{List, [], ◌∷◌, ◌++◌}
use rabb1t_claw.Base.Tests.{leb, ltb, ◌==◌, if◌then◌else◌}
use rabb1t_claw.Base.Texts.{Text}

abbrev pub Bytes : Type 0
Bytes = List ℕ

-- what follows a byte: how many continuation bytes, and the range of the first of them
abbrev pub Follow : Type 0
Follow = ℕ × ℕ × ℕ

abbrev pub in_range : ℕ → ℕ → ℕ → Bool
in_range low high b = leb low b && leb b high

abbrev pub lead : ℕ → Option Follow
lead b =
    if ltb b 128
    then some (0, 128, 191)
    else if in_range 194 223 b
    then some (1, 128, 191)
    else if b == 224
    then some (2, 160, 191)
    else if b == 237
    then some (2, 128, 159)
    else if in_range 225 239 b
    then some (2, 128, 191)
    else if b == 240
    then some (3, 144, 191)
    else if in_range 241 243 b
    then some (3, 128, 191)
    else if b == 244
    then some (3, 128, 143)
    else none

abbrev pub next_byte : Follow → ℕ → Option Follow
next_byte (zero, low, high) b = lead b
next_byte (suc left, low, high) b = if in_range low high b then some (left, 128, 191) else none

unfoldable pub utf8_from : Follow → Bytes → Bool
utf8_from (left, low, high) [] = left == 0
utf8_from follow (b ∷ bs) = elim (next_byte follow b) [
  | none ↦ false
  | some next ↦ utf8_from next bs
]

-- well-formed UTF-8: no overlong form, no surrogate, nothing above U+10FFFF
unfoldable pub is_utf8 : Bytes → Bool
unfolding utf8_from
is_utf8 bytes = utf8_from (0, 128, 191) bytes

-- U+FFFD, for each longest start of a character that is not one
abbrev replacement : ℕ
replacement = 65533

-- what a lead byte adds to its own part of the character
abbrev lead_bits : ℕ → ℕ
lead_bits zero = 0
lead_bits (suc zero) = 192
lead_bits (suc (suc zero)) = 224
lead_bits (suc (suc (suc n))) = 240

abbrev start_follow : Follow
start_follow = (0, 128, 191)

abbrev begun : ℕ → Option Follow → Text × Follow × ℕ
begun b none = (replacement ∷ [], start_follow, 0)
begun b (some (zero, low, high)) = (b ∷ [], start_follow, 0)
begun b (some (suc left, low, high)) = ([], (suc left, low, high), b - lead_bits (suc left))

-- One byte: the characters that it completes, what may follow, and the part of the character.
abbrev lossy_byte : Follow → ℕ → ℕ → Text × Follow × ℕ
lossy_byte (zero, low, high) part b = begun b (lead b)
lossy_byte (suc left, low, high) part b =
    if in_range low high b
    then (if left == 0
        then ((part * 64 + (b - 128)) ∷ [], start_follow, 0)
        else ([], (left, 128, 191), part * 64 + (b - 128)))
    else (let (out, follow, part') = begun b (lead b) in (replacement ∷ out, follow, part'))

unfoldable pub lossy_from : Follow → ℕ → List ℕ → Text
lossy_from (left, low, high) part [] = if left == 0 then [] else replacement ∷ []
lossy_from follow part (b ∷ bs) =
    let (out, follow', part') = lossy_byte follow part b in out ++ lossy_from follow' part' bs

unfoldable pub from_utf8_lossy : Bytes → Text
unfolding lossy_from
from_utf8_lossy bytes = lossy_from start_follow 0 bytes
