-- ===== src/Stream/ScanLaws.antt =====
-- How `scan` runs over the start of a text, whatever follows.
use rabb1t_claw.Base.{
  ℕ, zero, suc, ◌+◌, ◌≤◌, true, none, some, [], ◌∷◌, ◌++◌, inl, inr, ◌≡◌, refl, arith, Bool-cases,
  Option-cases, Text, find, starts_with, length, take, drop, starts_with-append_long,
  starts_with-append_mono, starts_with-length, find-length,
}
use rabb1t_claw.Markers.{dispatch_open, block_close}
use rabb1t_claw.Stream.{newline_open}
use rabb1t_claw.Stream.Scan.{opens, closes, showing, eating, skip, scan}
use rabb1t_claw.Stream.Starts.{find_start}

closes-append_long : (t u : Text) → 6 ≤ length t → closes (t ++ u) ≡ closes t
unfolding closes
closes-append_long t u h = starts_with-append_long t u block_close h

closes_lem : (t : Text) → closes t ≡ starts_with t block_close
unfolding closes
closes_lem t = refl

-- a block begins at an at sign or a newline that no `\n@@end` begins at
scan-opens : (c : ℕ) (cs : Text) → opens (c ∷ cs) ≡ true → scan eating (c ∷ cs) ≡ scan eating cs
unfolding opens closes scan starts_with
scan-opens c cs h = ground arith

opens-append_mono : (t u : Text) → opens t ≡ true → opens (t ++ u) ≡ true
unfolding opens
opens-append_mono t u h =
    ground
      (arith, starts_with-append_mono t u newline_open, starts_with-append_mono t u dispatch_open)

opens-append_long : (t u : Text) → 12 ≤ length t → opens (t ++ u) ≡ opens t
unfolding opens
opens-append_long t u h =
    rw (starts_with-append_long t u newline_open h)
      (rw (starts_with-append_long t u dispatch_open (omega arith)))

opens-length : (t : Text) → opens t ≡ true → 11 ≤ length t
unfolding opens
opens-length t h =
    ground (arith, starts_with-length t newline_open, starts_with-length t dispatch_open)

pub find_start-length : (t : Text) {p : ℕ} → find_start t ≡ some p → p + 11 ≤ length t
unfolding find_start
find_start-length [] h = cc
find_start-length (c ∷ cs) {p} h = elim (Option-cases (find_start cs)) [
  | inl e ↦ ground (arith, opens-length (c ∷ cs))
  | inr (b, e) ↦ ground (arith, opens-length (c ∷ cs), find_start-length cs e)
]

scan-skip :
    (n : ℕ) (t u : Text) → n ≤ length t → scan (skip n) (t ++ u) ≡ scan (skip 0) (drop n t ++ u)
unfolding scan
scan-skip zero t u h = refl
scan-skip (suc n) [] u h = absurd (omega arith)
scan-skip (suc n) (c ∷ cs) u h = scan-skip n cs u (omega arith)

-- Nothing is shown before a block, and nothing is hidden: `u` is what follows.
pub scan_showing-start :
    (t u : Text) {p : ℕ}
    → find_start t ≡ some p
    → scan showing (t ++ u) ≡ take p t ++ scan eating (drop p t ++ u)
unfolding scan find_start
scan_showing-start [] u h = cc
scan_showing-start (c ∷ cs) u {p} h = elim (Bool-cases (opens (c ∷ cs))) [
  | inl e ↦ ground (arith, opens-append_mono (c ∷ cs) u e, scan-opens c (cs ++ u))
  | inr e ↦ elim (Option-cases (find_start cs)) [
    | inl q ↦ ground arith
    | inr (b, q) ↦
        ground
          (arith, find_start-length cs q, opens-append_long (c ∷ cs) u, scan_showing-start cs u q)
  ]
]

pub scan_showing-none : (t : Text) → find_start t ≡ none → scan showing t ≡ t
unfolding scan find_start
scan_showing-none [] h = refl
scan_showing-none (c ∷ cs) h = ground (arith, scan_showing-none cs)

pub scan_eating-none : (t : Text) → find block_close t ≡ none → scan eating t ≡ []
unfolding scan find closes
scan_eating-none [] h = refl
scan_eating-none (c ∷ cs) h = ground (arith, scan_eating-none cs)

pub scan_eating-find :
    (t u : Text) {z : ℕ}
    → find block_close t ≡ some z
    → scan eating (t ++ u) ≡ scan (skip 0) (drop (z + 6) t ++ u)
unfolding scan find
scan_eating-find [] u h = unfold starts_with in cc
scan_eating-find (c ∷ cs) u {z} h = elim (Bool-cases (starts_with (c ∷ cs) block_close)) [
  | inl e ↦
      let fits = starts_with-length (c ∷ cs) block_close e in
      ground (
        arith,
        closes_lem (c ∷ cs),
        closes-append_long (c ∷ cs) u fits,
        scan-skip 5 cs u (omega arith),
      )
  | inr e ↦ elim (Option-cases (find block_close cs)) [
    | inl p ↦ ground arith
    | inr (b, p) ↦ ground (
      arith,
      find-length block_close cs p,
      closes-append_long (c ∷ cs) u,
      scan_eating-find cs u p,
      closes_lem (c ∷ cs),
    )
  ]
]
