-- ===== src/Stream/Scan.antt =====
-- What a device sees of a response, read off it one character at a time: a reference for the
-- filter of the parent module, with no positions and no buffering.
use rabb1t_claw.Base.{ℕ, zero, suc, Bool, true, false, ◌||◌, [], ◌∷◌, ◌==◌, Text, starts_with}
use rabb1t_claw.Markers.{dispatch_open, block_close}
use rabb1t_claw.Stream.{newline_open}

-- a block begins here, or at the next character if this one is a newline
unfoldable pub opens : Text → Bool
opens t = starts_with t newline_open || starts_with t dispatch_open

unfoldable pub closes : Text → Bool
closes t = starts_with t block_close

-- `skip n` passes over the `n` characters that are left of `\n@@end`, and then over one newline.
pub data Mode : Type 0 where
  showing : Mode
  eating : Mode
  skip : ℕ → Mode

unfoldable pub scan : Mode → Text → Text
scan mode [] = []
scan showing (c ∷ cs) = elim (opens (c ∷ cs)) [
  | true ↦ scan eating cs
  | false ↦ c ∷ scan showing cs
]
scan eating (c ∷ cs) = elim (closes (c ∷ cs)) [ true ↦ scan (skip 5) cs | false ↦ scan eating cs ]
scan (skip (suc n)) (c ∷ cs) = scan (skip n) cs
scan (skip zero) (c ∷ cs) = elim (c == b'\n') [
  | true ↦ scan showing cs
  | false ↦ elim (opens (c ∷ cs)) [ true ↦ scan eating cs | false ↦ c ∷ scan showing cs ]
]

unfoldable pub visible : Text → Text
unfolding scan
visible = scan showing
