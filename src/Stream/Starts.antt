-- ===== src/Stream/Starts.antt =====
-- Where the next block starts, by `find` and one character at a time.
use rabb1t_claw.Base.{
  ℕ, zero, suc, ◌-◌, true, false, ◌&&◌, Option, none, some, [], ◌∷◌, ◌==◌, if◌then◌else◌, inl, inr,
  ◌≡◌, refl, arith, Bool-cases, Option-cases, Text, find, starts_with,
}
use mathlib.Core.Option
use rabb1t_claw.Markers.{dispatch_open, trim_block_start}
use rabb1t_claw.Stream.{newline_open, find_dispatch_start}
use rabb1t_claw.Stream.Scan.{opens}

unfoldable pub find_start : Text → Option ℕ
find_start [] = none
find_start (c ∷ cs) = if opens (c ∷ cs) then some 0 else Option.map suc (find_start cs)

find-none : (n t : Text) → find n t ≡ none → starts_with t n ≡ false
unfolding find
find-none n [] h = ground arith
find-none n (c ∷ cs) h = ground arith

find-zero : (n t : Text) → find n t ≡ some 0 → starts_with t n ≡ true
unfolding find
find-zero n [] h = ground arith
find-zero n (c ∷ cs) h = ground arith

find-suc : (n t : Text) {a : ℕ} → find n t ≡ some (suc a) → starts_with t n ≡ false
unfolding find
find-suc n [] h = ground arith
find-suc n (c ∷ cs) h = ground arith

newline_open-cons :
    (c : ℕ) (cs : Text)
    → starts_with (c ∷ cs) newline_open ≡ ((c == b'\n') && starts_with cs dispatch_open)
unfolding starts_with
newline_open-cons c cs = refl

pub opens-cons :
    (c : ℕ) (cs : Text)
    → starts_with (c ∷ cs) dispatch_open ≡ false
    → opens (c ∷ cs) ≡ ((c == b'\n') && starts_with cs dispatch_open)
unfolding opens
opens-cons c cs h = rw (newline_open-cons c cs, h) (ground arith)

pub opens_here : (t : Text) → starts_with t dispatch_open ≡ true → opens t ≡ true
unfolding opens
opens_here t h = rw h (ground arith)

trim_block_start-suc :
    (c d : ℕ) (cs : Text)
    → trim_block_start (c ∷ cs) (suc (suc d)) ≡ suc (trim_block_start cs (suc d))
trim_block_start-suc c d cs =
    let e : suc d - 1 ≡ d = omega arith in
    let e' : suc (suc d) - 1 ≡ suc d = omega arith in rw (e, e') (ground arith)

pub find_dispatch_start-find_start : (t : Text) → find_dispatch_start t ≡ find_start t
unfolding find_dispatch_start find_start find
find_dispatch_start-find_start [] = unfold starts_with in refl
find_dispatch_start-find_start (c ∷ cs) = elim (Bool-cases (starts_with (c ∷ cs) dispatch_open)) [
  | inl e ↦ ground (arith, opens_here (c ∷ cs) e)
  | inr e ↦ elim (Option-cases (find dispatch_open cs)) [
    | inl p ↦
        ground (
          arith,
          opens-cons c cs e,
          find-none dispatch_open cs p,
          find_dispatch_start-find_start cs,
        )
    | inr (zero, p) ↦
        ground (
          arith,
          opens-cons c cs e,
          find-zero dispatch_open cs p,
          find_dispatch_start-find_start cs,
        )
    | inr (suc d, p) ↦ ground (
      arith,
      opens-cons c cs e,
      find-suc dispatch_open cs p,
      find_dispatch_start-find_start cs,
      trim_block_start-suc c d cs,
    )
  ]
]
