-- ===== src/Stream/Hold.antt =====
-- What `safe_emit_end` holds back, and the start of a block.
use Prim.Native.Nat.{min}
use Prim.Native.Nat.add
use mathlib.Core.Bool.{false≢true}
use native.Mathlib.Decide.{dec_le}
use rabb1t_claw.Base.{
  ℕ, zero, suc, ◌+◌, ◌-◌, ◌≤◌, ◌<◌, true, false, none, some, [], ◌∷◌, ◌++◌, inl, inr, ◌≡◌, ◌≢◌,
  refl, sym, ◌∙◌, ap, arith, Bool-cases, Option-cases, Text, codes, starts_with, get_elem?, length,
  drop, unwrap_or, starts_with-append_split, starts_with-length, length-drop,
}
use rabb1t_claw.Markers.{dispatch_open}
use rabb1t_claw.Stream.{newline_open, hold_loop, hold, safe_emit_end}
use rabb1t_claw.Stream.Scan.{opens}
use rabb1t_claw.Stream.Starts.{find_start}

-- No rest of the text that starts before the place where the marker may begin is a part of it.
hold_loop-before :
    (marker text : Text) (len i : ℕ)
    → length text - len ≤ i
    → i < unwrap_or (hold_loop marker text len) (length text)
    → starts_with marker (drop i text) ≡ false
unfolding hold_loop
hold_loop-before marker text zero i h lt = absurd (omega arith)
hold_loop-before marker text (suc len) i h lt =
    elim (Bool-cases (starts_with marker (drop (length text - suc len) text))) [
      | inl e ↦ absurd (ground arith)
      | inr e ↦ elim (dec_le (length text - len) i) [
        | yes p ↦ hold_loop-before marker text len i p (rw e at lt)
        | no p ↦ let same : length text - suc len ≡ i = omega arith in rw same at e
      ]
    ]

hold-before :
    (marker text : Text) (i : ℕ)
    → i < unwrap_or (hold marker text) (length text)
    → starts_with marker (drop i text) ≡ false
hold-before marker text i lt = elim (dec_le (length text - min (length marker) (length text)) i) [
  | yes p ↦ hold_loop-before marker text (min (length marker) (length text)) i p lt
  | no p ↦ elim (Bool-cases (starts_with marker (drop i text))) [
    | inl e ↦ absurd (omega (arith, starts_with-length marker (drop i text) e, length-drop i text))
    | inr e ↦ e
  ]
]

abbrev Lacks : ℕ → Text → Type 0
Lacks n [] = Unit
Lacks n (x ∷ xs) = (x ≢ n) × Lacks n xs

-- A part of `m ++ n ∷ []` that holds `n`, with no `n` in `m`, is all of it.
whole_of_last :
    (m x : Text) (n k : ℕ)
    → Lacks n m
    → starts_with (m ++ n ∷ []) x ≡ true
    → get_elem? x k ≡ some n
    → x ≡ m ++ n ∷ []
unfolding starts_with
whole_of_last m [] n k h s g = cc
whole_of_last [] (y ∷ []) n k h s g = ground arith
whole_of_last [] (y ∷ z ∷ x) n k h s g = ground arith
whole_of_last (a ∷ m) (y ∷ x) n zero h s g = ground arith
whole_of_last (a ∷ m) (y ∷ x) n (suc k) h s g = ground (arith, whole_of_last m x n k h.1)

pub get_elem?-drop : (t : Text) (i j : ℕ) → get_elem? (drop i t) j ≡ get_elem? t (i + j)
get_elem?-drop t zero j = ap (get_elem? t) (omega arith)
get_elem?-drop [] (suc i) j = refl
get_elem?-drop (c ∷ t) (suc i) j = get_elem?-drop t i j ∙ rw add.suc

head_of_part :
    (x : Text) → starts_with newline_open x ≡ true → 0 < length x → get_elem? x 0 ≡ some b'\n'
unfolding starts_with
head_of_part [] h lt = absurd (omega arith)
head_of_part (c ∷ cs) h lt = ground arith

hold_loop-le :
    (marker t : Text) (len : ℕ) → unwrap_or (hold_loop marker t len) (length t) ≤ length t
unfolding hold_loop
hold_loop-le marker t zero = omega arith
hold_loop-le marker t (suc len) = ground (arith, hold_loop-le marker t len)

-- at the place where the longer marker may begin stands its newline
hold_loop-newline :
    (t : Text) (len : ℕ) {s : ℕ}
    → len ≤ length t
    → hold_loop newline_open t len ≡ some s
    → get_elem? t s ≡ some b'\n'
unfolding hold_loop
hold_loop-newline t zero h e = cc
hold_loop-newline t (suc len) {s} h e =
    elim (Bool-cases (starts_with newline_open (drop (length t - suc len) t))) [
      | inl p ↦
          let start = length t - suc len in
          let same : start ≡ s = ground arith in
          rw (← same) (
            sym (
              get_elem?-drop t start 0
              ∙ ap (get_elem? t) (let z : start + 0 ≡ start = omega arith in z))
            ∙ head_of_part (drop start t) p (omega (arith, length-drop start t)))
      | inr p ↦ ground (arith, hold_loop-newline t len {s = s})
    ]

find_start-drop : (t : Text) (i : ℕ) → find_start t ≡ none → i < length t → opens (drop i t) ≡ false
unfolding find_start
find_start-drop [] i h lt = absurd (omega arith)
find_start-drop (c ∷ cs) zero h lt = ground arith
find_start-drop (c ∷ cs) (suc i) h lt = elim (Option-cases (find_start cs)) [
  | inl e ↦ find_start-drop cs i e (omega arith)
  | inr (b, e) ↦ ground arith
]

opens-dispatch_open : opens dispatch_open ≡ true
unfolding opens starts_with
opens-dispatch_open = refl

module _ (t : Text) (closed : find_start t ≡ none) where
  no_open_before_newline :
      (s i : ℕ)
      → hold newline_open t ≡ some s
      → i < s
      → i < length t
      → starts_with dispatch_open (drop i t) ≡ false
  no_open_before_newline s i q before le =
      elim (Bool-cases (starts_with dispatch_open (drop i t))) [
        | inr e ↦ e
        | inl e ↦
            let at_s : get_elem? (drop i t) (s - i) ≡ some b'\n' =
              get_elem?-drop t i (s - i)
              ∙ ap (get_elem? t) (omega arith)
              ∙ hold_loop-newline t (min 12 (length t)) (omega arith) q in
            let whole =
              whole_of_last (codes "@@dispatch") (drop i t) b'\n' (s - i) (omega arith) e at_s in
            absurd (
              false≢true
                (sym (find_start-drop t i closed le) ∙ ap opens whole ∙ opens-dispatch_open))
      ]

  -- no part of a marker begins before the safe end
  safe-no_part :
      (i : ℕ)
      → i < safe_emit_end t
      → i < length t
      → (starts_with newline_open (drop i t) ≡ false)
        × (starts_with dispatch_open (drop i t) ≡ false)
  unfolding safe_emit_end
  safe-no_part i lt le = elim (Option-cases (hold newline_open t)) [
    | inl q ↦ elim (Option-cases (hold dispatch_open t)) [
      | inl q' ↦ (hold-before newline_open t i (rw q le), hold-before dispatch_open t i (rw q' le))
      | inr (s, q') ↦ (
        hold-before newline_open t i (rw q le),
        hold-before dispatch_open t i (rw q' (ground arith)),
      )
    ]
    | inr (s, q) ↦
        let before : i < s = ground arith in
        (hold-before newline_open t i (rw q before), no_open_before_newline s i q before le)
  ]

  pub safe-le-length : safe_emit_end t ≤ length t
  unfolding safe_emit_end
  safe-le-length = elim (Option-cases (hold newline_open t)) [
    | inl q ↦ elim (Option-cases (hold dispatch_open t)) [
      | inl q' ↦ ground arith
      | inr (s, q') ↦ ground (arith, rw q' at (hold_loop-le dispatch_open t (min 11 (length t))))
    ]
    | inr (s, q) ↦ ground (arith, rw q at (hold_loop-le newline_open t (min 12 (length t))))
  ]

  pub safe-opens :
      (u : Text) (i : ℕ) → i < safe_emit_end t → i < length t → opens (drop i t ++ u) ≡ false
  unfolding opens
  safe-opens u i lt le =
      let parts = safe-no_part i lt le in
      ground (
        arith,
        starts_with-append_split (drop i t) u newline_open,
        starts_with-append_split (drop i t) u dispatch_open,
        find_start-drop t i closed le,
        parts.0,
        parts.1,
      )
