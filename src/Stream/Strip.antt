-- ===== src/Stream/Strip.antt =====
-- `strip_task_markers` against the scan: the stored text and the streamed text.
use native.Mathlib.Decide.{dec_le}
use rabb1t_claw.Base.{
  ℕ, zero, suc, ◌+◌, ◌-◌, ◌≤◌, ◌<◌, true, false, none, some, [], ◌∷◌, ◌++◌, ◌==◌, if◌then◌else◌,
  inl, inr, ◌≡◌, refl, sym, ◌∙◌, ap, arith, Bool-cases, Option-cases, Text, codes, find, length,
  take, drop, unwrap_or, append-nil, append_assoc, length-drop, drop-drop, starts_with,
  starts_with-eq, find-length, ltb, lt→ltb, ltb→lt, uncons_drop, drop-past, ==_iff,
}
use rabb1t_claw.Markers.{
  dispatch_open, block_close, newline_at, trim_block_start, slice, after_block, strip_from,
  strip_task_markers,
}
use rabb1t_claw.Stream.{find_dispatch_start}
use rabb1t_claw.Stream.Scan.{scan, showing, eating, skip, visible, closes}
use rabb1t_claw.Stream.Starts.{find_start, find_dispatch_start-find_start}
use rabb1t_claw.Stream.ScanLaws.{
  scan_showing-start, scan_eating-find, scan_showing-none, scan_eating-none,
}
use rabb1t_claw.Stream.Rounds.{scan-skip_zero}
use rabb1t_claw.Stream.Hold.{get_elem?-drop}

-- a block with no content, which the filter closes at once and the other two functions do not
abbrev pub empty_block : Text
empty_block = codes "@@dispatch\n@@end"

find-starts_with : (n t : Text) {a : ℕ} → find n t ≡ some a → starts_with (drop a t) n ≡ true
unfolding find
find-starts_with n [] {a = zero} h = ground arith
find-starts_with n [] {a = suc a} h = ground arith
find-starts_with n (c ∷ cs) {a = zero} h = ground arith
find-starts_with n (c ∷ cs) {a = suc a} h = elim (Option-cases (find n cs)) [
  | inl e ↦ ground arith
  | inr (b, e) ↦ ground (arith, find-starts_with n cs e)
]

find-drop-none :
    (n t : Text) (i : ℕ)
    → find n t ≡ none
    → starts_with [] n ≡ false
    → starts_with (drop i t) n ≡ false
unfolding find
find-drop-none n [] zero h e = e
find-drop-none n [] (suc i) h e = e
find-drop-none n (c ∷ cs) zero h e = ground arith
find-drop-none n (c ∷ cs) (suc i) h e = elim (Option-cases (find n cs)) [
  | inl q ↦ find-drop-none n cs i q e
  | inr (b, q) ↦ ground arith
]

-- The opening of a block is its marker and the content.
block_shape :
    (t : Text) {off : ℕ}
    → find dispatch_open t ≡ some off
    → drop off t ≡ dispatch_open ++ drop (off + 11) t
block_shape t {off} e =
    starts_with-eq (drop off t) dispatch_open (find-starts_with dispatch_open t e)
    ∙ ap (λ x. dispatch_open ++ x) (drop-drop off 11 t)

scan_eating-marker :
    (content : Text)
    → starts_with content (codes "@@end") ≡ false
    → scan eating (dispatch_open ++ content) ≡ scan eating content
unfolding scan closes starts_with
scan_eating-marker content h = ground (arith, h)

scan_eating-newline_marker :
    (content : Text)
    → scan eating (b'\n' ∷ (dispatch_open ++ content)) ≡ scan eating (dispatch_open ++ content)
unfolding scan closes starts_with
scan_eating-newline_marker content = refl

newline_at-drop : (t : Text) (s j : ℕ) → newline_at (drop s t) j ≡ newline_at t (s + j)
newline_at-drop t s j = ap (λ o. unwrap_or o 0 == b'\n') (get_elem?-drop t s j)

trim_block_start-suc :
    (t : Text) (off : ℕ)
    → trim_block_start t (suc off) ≡ (if newline_at t off then off else suc off)
trim_block_start-suc t off =
    let back : suc off - 1 ≡ off = omega arith in rw (back, lt→ltb 0 (suc off) (omega arith))

trim_block_start-add :
    (t : Text) (s off : ℕ)
    → trim_block_start t (s + suc off) ≡ s + trim_block_start (drop s t) (suc off)
trim_block_start-add t s off =
    let e : s + suc off ≡ suc (s + off) = omega arith in
    rw
      (
        e,
        trim_block_start-suc t (s + off),
        trim_block_start-suc (drop s t) off,
        newline_at-drop t s off,
      )
      (ground arith)

slice-add : (t : Text) (s p : ℕ) → slice t s (s + p) ≡ some (take p (drop s t))
slice-add t s p =
    let e : s + p - s ≡ p = omega arith in
    elim (Bool-cases (ltb (s + p) s)) [
      | inl x ↦ absurd (omega (arith, ltb→lt (s + p) s x))
      | inr x ↦ rw (x, e)
    ]

-- A slice that begins at the block is empty, if it does not panic.
slice_at_block :
    (t : Text) (s : ℕ) {shown : Text} → slice t s (trim_block_start t s) ≡ some shown → shown ≡ []
slice_at_block t s h = ground arith

-- In a round at a block that does not panic, the cut stands where the scan stops.
slice_shown :
    (t : Text) (s off : ℕ) {shown : Text}
    → slice t s (trim_block_start t (s + off)) ≡ some shown
    → shown ≡ take (trim_block_start (drop s t) off) (drop s t)
slice_shown t s zero h = let e : s + 0 ≡ s = omega arith in slice_at_block t s (rw e at h)
slice_shown t s (suc off) h = cc (
  h,
  ap (slice t s) (trim_block_start-add t s off),
  slice-add t s (trim_block_start (drop s t) (suc off)),
)

shown_none : (t : Text) → find dispatch_open t ≡ none → find_start t ≡ none
unfolding find_dispatch_start
shown_none t e = sym (find_dispatch_start-find_start t) ∙ rw (e, find_dispatch_start)

shown_start :
    (t : Text) {off : ℕ}
    → find dispatch_open t ≡ some off
    → find_start t ≡ some (trim_block_start t off)
unfolding find_dispatch_start
shown_start t e = sym (find_dispatch_start-find_start t) ∙ rw (e, find_dispatch_start)

-- From the start of a block the scan comes to its content.
scan_eating-block :
    (t : Text) (off : ℕ)
    → find dispatch_open t ≡ some off
    → starts_with (drop (off + 11) t) (codes "@@end") ≡ false
    → scan eating (drop (trim_block_start t off) t) ≡ scan eating (drop (off + 11) t)
scan_eating-block t zero e h = ap (scan eating) (block_shape t e) ∙ scan_eating-marker _ h
scan_eating-block t (suc off) e h = elim (Bool-cases (newline_at t off)) [
  | inr x ↦
      rw (trim_block_start-suc t off, x)
        (ap (scan eating) (block_shape t e) ∙ scan_eating-marker _ h)
  | inl x ↦
      let (c, cs, p, q, r) = uncons_drop off t (omega (arith, find-length dispatch_open t e)) in
      let next : off + 1 ≡ suc off = omega arith in
      let newline : c ≡ b'\n' = (==_iff c b'\n').0 (rw r at x) in
      let rest : cs ≡ dispatch_open ++ drop (suc off + 11) t =
        sym q ∙ ap (λ k. drop k t) next ∙ block_shape t e in
      rw (trim_block_start-suc t off, x)
        (ap (scan eating) (p ∙ cc (newline, rest))
          ∙ scan_eating-newline_marker _
          ∙ scan_eating-marker _ h)
]

-- behind a block
after_block-le : (t : Text) (n : ℕ) → n ≤ after_block t n
after_block-le t n = ground arith

scan-after_block :
    (t : Text) (n : ℕ) → scan (skip 0) (drop n t) ≡ scan showing (drop (after_block t n) t)
scan-after_block t n = elim (dec_le (length t) n) [
  | yes past ↦
      rw (drop-past n t past, drop-past (after_block t n) t (omega (arith, after_block-le t n)))
        (unfold scan in refl)
  | no inside ↦
      let (c, cs, p, q, r) = uncons_drop n t (omega arith) in
      elim (Bool-cases (c == b'\n')) [
        | inl x ↦ rw (r, x) (ap (scan (skip 0)) p ∙ scan-skip_zero c cs ∙ rw (x, q))
        | inr x ↦ rw (r, x) (ap (scan (skip 0)) p ∙ scan-skip_zero c cs ∙ rw (x, p))
      ]
]

starts_with_marker :
    (content : Text)
    → starts_with content (codes "@@end") ≡ starts_with (dispatch_open ++ content) empty_block
unfolding starts_with
starts_with_marker content = refl

module _ (t : Text) (fine : find empty_block t ≡ none) where
  content_fine :
      (s off : ℕ)
      → find dispatch_open (drop s t) ≡ some off
      → starts_with (drop (off + 11) (drop s t)) (codes "@@end") ≡ false
  content_fine s off e =
      let shape = sym (drop-drop s off t) ∙ block_shape (drop s t) e in
      let same = find-drop-none empty_block t (s + off) fine (unfold starts_with in refl) in
      starts_with_marker _ ∙ (rw shape at same)

  -- one block, with what is shown before it
  block_scan :
      (s off : ℕ) {shown : Text}
      → find dispatch_open (drop s t) ≡ some off
      → slice t s (trim_block_start t (s + off)) ≡ some shown
      → scan showing (drop s t) ≡ shown ++ scan eating (drop (s + off + 11) t)
  block_scan s off e cut =
      let rest = drop s t in
      let place : s + (off + 11) ≡ s + off + 11 = omega arith in
      ap (scan showing) (sym (append-nil rest))
      ∙ scan_showing-start rest [] (shown_start rest e)
      ∙ ap (λ x. take (trim_block_start rest off) rest ++ x)
          (rw append-nil (scan_eating-block rest off e (content_fine s off e))
            ∙ ap (scan eating) (drop-drop s (off + 11) t ∙ ap (λ k. drop k t) place))
      ∙ ap (λ x. x ++ scan eating (drop (s + off + 11) t)) (sym (slice_shown t s off cut))

  content_scan :
      (n z : ℕ)
      → find block_close (drop n t) ≡ some z
      → scan eating (drop n t) ≡ scan showing (drop (after_block t (n + z + 6)) t)
  content_scan n z e =
      let place : n + (z + 6) ≡ n + z + 6 = omega arith in
      ap (scan eating) (sym (append-nil (drop n t)))
      ∙ scan_eating-find (drop n t) [] e
      ∙ rw append-nil (ap (scan (skip 0)) (drop-drop n (z + 6) t ∙ ap (λ k. drop k t) place))
      ∙ scan-after_block t (n + z + 6)

  strip_from-scan :
      (fuel s : ℕ) (result : Text) {r : Text}
      → length (drop s t) < fuel
      → strip_from fuel t s result ≡ some r
      → r ≡ result ++ scan showing (drop s t)
  unfolding strip_from
  strip_from-scan zero s result lt h = absurd (omega arith)
  strip_from-scan (suc fuel) s result {r} lt h =
      elim (Option-cases (find dispatch_open (drop s t))) [
        | inl e ↦
            let shown = scan_showing-none (drop s t) (shown_none (drop s t) e) in
            ground (arith, shown)
        | inr (off, e) ↦ elim (Option-cases (slice t s (trim_block_start t (s + off)))) [
          | inl cut ↦ ground arith
          | inr (shown, cut) ↦ elim (Option-cases (find block_close (drop (s + off + 11) t))) [
            | inl f ↦
                let last : r ≡ result ++ shown = ground arith in
                last
                ∙ ap (◌++◌ result) (
                    sym (
                      block_scan s off e cut
                      ∙ ap (◌++◌ shown) (scan_eating-none _ f)
                      ∙ append-nil shown))
            | inr (z, f) ↦
                let n = s + off + 11 in
                let behind = after_block t (n + z + 6) in
                let shorter : length (drop behind t) < fuel = omega (
                  arith,
                  find-length block_close (drop n t) f,
                  length-drop n t,
                  length-drop s t,
                  length-drop behind t,
                  after_block-le t (n + z + 6),
                ) in
                strip_from-scan fuel behind (result ++ shown) shorter (ground arith)
                ∙ append_assoc result shown _
                ∙ ap (◌++◌ result)
                    (sym (block_scan s off e cut ∙ ap (◌++◌ shown) (content_scan n z f)))
          ]
        ]
      ]

-- On a response with no empty block: if stripping does not panic, the text that is stored and sent
-- at the end is exactly what the scan shows, which is what the device was streamed.
pub strip-visible :
    (response : Text) {clean : Text}
    → find empty_block response ≡ none
    → strip_task_markers response ≡ some clean
    → clean ≡ visible response
unfolding strip_task_markers visible
strip-visible response fine h =
    strip_from-scan response fine (suc (length response)) 0 [] (omega arith) h
