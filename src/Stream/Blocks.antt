-- ===== src/Stream/Blocks.antt =====
-- Shapes of a response at which the reading of blocks goes wrong.
use Prim.Native.Nat.{ℕ}
use rabb1t_claw.Base.{
  suc, ◌+◌, ◌-◌, true, none, some, [], ◌∷◌, ◌++◌, ◌==◌, inl, inr, ◌≡◌, refl, sym, ◌∙◌, ap, arith,
  Bool-cases, Option-cases, Text, find, unwrap_or, length, drop, append_assoc, get_elem?,
  length-append, starts_with, find-length, ==_refl, starts_with-append_long,
  starts_with-append_mono, lt→ltb, drop-drop,
}
use rabb1t_claw.Markers.{
  dispatch_open, block_close, newline_at, trim_block_start, slice, after_block, strip_from,
  strip_task_markers,
}
use rabb1t_claw.Stream.Hold.{get_elem?-drop}

starts_with_self : (n u : Text) → starts_with (n ++ u) n ≡ true
unfolding starts_with
starts_with_self [] u = ground arith
starts_with_self (c ∷ n) u = ground (arith, starts_with_self n u, ==_refl c)

find-here : (n t : Text) → starts_with t n ≡ true → find n t ≡ some 0
unfolding find
find-here n [] h = ground arith
find-here n (c ∷ cs) h = ground arith

find-append : (n t u : Text) {a : ℕ} → find n t ≡ some a → find n (t ++ u) ≡ some a
unfolding find
find-append n [] u h = ground (arith, starts_with-append_mono [] u n, find-here n u)
find-append n (c ∷ cs) u {a} h = elim (Bool-cases (starts_with (c ∷ cs) n)) [
  | inl e ↦ ground (arith, starts_with-append_mono (c ∷ cs) u n e)
  | inr e ↦ elim (Option-cases (find n cs)) [
    | inl p ↦ ground arith
    | inr (b, p) ↦
        ground
          (arith, find-length n cs p, starts_with-append_long (c ∷ cs) u n, find-append n cs u p)
  ]
]

drop_prefix : (p t : Text) → drop (length p) (p ++ t) ≡ t
drop_prefix [] t = refl
drop_prefix (c ∷ p) t = drop_prefix p t

strip_from-step :
    (fuel : ℕ) (t : Text) (s : ℕ) (result : Text) {off z : ℕ} {shown : Text}
    → find dispatch_open (drop s t) ≡ some off
    → slice t s (trim_block_start t (s + off)) ≡ some shown
    → find block_close (drop (s + off + 11) t) ≡ some z
    → strip_from (suc fuel) t s result
      ≡ strip_from fuel t (after_block t (s + off + 11 + z + 6)) (result ++ shown)
unfolding strip_from
strip_from-step fuel t s result p q r = rw (p, strip_from, q, r)

module _ (content rest : Text) where
  abbrev tail_block : Text
  tail_block = b'\n' ∷ (dispatch_open ++ rest)

  abbrev pub adjacent : Text
  adjacent = dispatch_open ++ (content ++ (block_close ++ tail_block))

  -- where the first block ends
  abbrev block_end : ℕ
  block_end = 11 + length content + 6

  drop-block_end : drop block_end adjacent ≡ tail_block
  drop-block_end =
      let first = dispatch_open ++ (content ++ block_close) in
      let e : block_end ≡ length first = omega (arith, length-append content block_close) in
      ap (drop block_end)
        (sym (ap (◌++◌ dispatch_open) (append_assoc content block_close tail_block)))
      ∙ ap (λ k. drop k (first ++ tail_block)) e
      ∙ drop_prefix first tail_block

  newline_at-block_end : newline_at adjacent block_end ≡ true
  newline_at-block_end =
      let e : block_end ≡ block_end + 0 = omega arith in
      ap (newline_at adjacent) e
      ∙ ap (λ o. unwrap_or o 0 == b'\n')
          (sym (get_elem?-drop adjacent block_end 0) ∙ ap (λ t. get_elem? t 0) drop-block_end)

  drop-second : drop (block_end + 1) adjacent ≡ dispatch_open ++ rest
  drop-second = sym (drop-drop block_end 1 adjacent) ∙ ap (drop 1) drop-block_end

  second_slice :
      slice adjacent (block_end + 1) (trim_block_start adjacent (block_end + 1 + 0)) ≡ none
  second_slice =
      let e : block_end + 1 + 0 - 1 ≡ block_end = omega arith in
      rw (
        e,
        newline_at-block_end,
        lt→ltb 0 (block_end + 1 + 0) (omega arith),
        lt→ltb block_end (block_end + 1) (omega arith),
      )

  second_panics :
      (fuel : ℕ) (result : Text) → strip_from (suc fuel) adjacent (block_end + 1) result ≡ none
  unfolding strip_from
  second_panics fuel result = rw (
    drop-second,
    strip_from,
    find-here dispatch_open (dispatch_open ++ rest) (starts_with_self dispatch_open rest),
    second_slice,
  )

  -- Two blocks with one newline between them, the first with any content that does not end early:
  -- `strip_task_markers` panics.
  pub strip-adjacent :
      find block_close (content ++ block_close) ≡ some (length content)
      → strip_task_markers adjacent ≡ none
  unfolding strip_task_markers
  strip-adjacent closed =
      let inner = content ++ (block_close ++ tail_block) in
      let opened = find-here dispatch_open adjacent (starts_with_self dispatch_open inner) in
      let close : find block_close inner ≡ some (length content) =
        ap (find block_close) (sym (append_assoc content block_close tail_block))
        ∙ find-append block_close (content ++ block_close) tail_block closed in
      strip_from-step (length adjacent) adjacent 0 [] {shown = []} opened refl close
      ∙ rw newline_at-block_end (second_panics (length (drop 1 adjacent)) [])
