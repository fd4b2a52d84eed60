-- ===== src/Stream/Chunks.antt =====
-- The filter over a whole stream, and the chunks into which the response is cut.
use Prim.Native.Nat.{ℕ}
use rabb1t_claw.Base.{
  zero, suc, ◌*◌, ◌≤◌, ◌<◌, Bool, true, false, List, [], ◌∷◌, ◌++◌, inl, inr, ◌≡◌, refl, sym, ◌∙◌,
  ap, arith, Bool-cases, Text, length, drop, concat, append-nil, append_assoc, length-drop,
  drop-drop, drop-append, concat-append, leb, length-append, leb→le, drop-past,
}
use rabb1t_claw.Stream.{
  Round, MarkerFilter, new_filter, moved, drain_round, drain_loop, drain, flush, relay,
}
use rabb1t_claw.Stream.Scan.{scan, visible}
use rabb1t_claw.Stream.Rounds.{mode_of, measure, IsSettled, drain_round-IsRound}

-- what is left to look at
abbrev left : MarkerFilter → Text → Text
left m full = drop m.committed full

record IsDrained (m : MarkerFilter) (full : Text) (d : List Text × MarkerFilter) : Type 0 where
  shows :
      (u : Text)
      → scan (mode_of m.eating) (left m full ++ u)
        ≡ concat d.0 ++ scan (mode_of d.1.eating) (left d.1 full ++ u)
  inside : d.1.committed ≤ length full
  settles : IsSettled d.1.eating (left d.1 full)

left-moved :
    (m : MarkerFilter) (full : Text) (r : Round)
    → left (moved m r) full ≡ drop r.advance (left m full)
left-moved m full r = sym (drop-drop m.committed r.advance full)

drain_loop-IsDrained :
    (fuel : ℕ) (m : MarkerFilter) (full : Text)
    → m.committed ≤ length full
    → measure m.eating (length (left m full)) < fuel
    → IsDrained m full (drain_loop fuel m full)
unfolding drain_loop
drain_loop-IsDrained zero m full le lt = absurd (omega arith)
drain_loop-IsDrained (suc fuel) m full le lt =
    let r = drain_round m.eating (left m full) in
    let k = drain_round-IsRound m.eating (left m full) in
    let le' : (moved m r).committed ≤ length full =
      omega (arith, k.inside, length-drop m.committed full) in
    elim (Bool-cases r.again) [
      | inl again ↦
          let ih =
            drain_loop-IsDrained fuel (moved m r) full le'
              (rw (left-moved m full r) (omega (arith, k.progress again))) in
          rw again (record {
            shows = λ u.
                k.shows u
                ∙ ap (λ x. concat r.deltas ++ (scan (mode_of r.eating) (x ++ u)))
                    (sym (left-moved m full r))
                ∙ ap (◌++◌ (concat r.deltas)) (ih.shows u)
                ∙ rw (concat-append, append_assoc);
            inside = ih.inside;
            settles = ih.settles;
          })
      | inr stop ↦ rw stop (record {
        shows = λ u. rw (left-moved m full r) (k.shows u);
        inside = le';
        settles = rw (left-moved m full r) (k.settles stop);
      })
    ]

measure-lt : (e : Bool) (n : ℕ) → measure e n < suc (suc (2 * n))
measure-lt true n = omega arith
measure-lt false n = omega arith

drain-IsDrained :
    (m : MarkerFilter) (full : Text) → m.committed ≤ length full → IsDrained m full (drain m full)
unfolding drain
drain-IsDrained m full le =
    drain_loop-IsDrained _ m full le (measure-lt m.eating (length (left m full)))

relay_end :
    (e : Bool) (full : Text) (c : ℕ)
    → IsSettled e (drop c full)
    → concat (relay (record { committed = c; eating = e }) full []) ≡ scan (mode_of e) (drop c full)
unfolding relay flush
relay_end true full c h = sym h
relay_end false full c h = elim (Bool-cases (leb (length full) c)) [
  | inl x ↦ ground (arith, drop-past c full (leb→le _ _ x))
  | inr x ↦ ground (arith, append-nil (drop c full))
]

pub relay-cons :
    (m : MarkerFilter) (full chunk : Text) (chunks : List Text)
    → relay m full (chunk ∷ chunks)
      ≡ (drain m (full ++ chunk)).0 ++ relay (drain m (full ++ chunk)).1 (full ++ chunk) chunks
unfolding relay
relay-cons m full chunk chunks = refl

relay-scan :
    (m : MarkerFilter) (full : Text) (chunks : List Text)
    → m.committed ≤ length full
    → IsSettled m.eating (left m full)
    → concat (relay m full chunks) ≡ scan (mode_of m.eating) (left m full ++ concat chunks)
relay-scan m full [] le h = relay_end m.eating full m.committed h ∙ rw append-nil
relay-scan m full (chunk ∷ chunks) le h =
    let all = full ++ chunk in
    let d = drain m all in
    let k = drain-IsDrained m all (omega (arith, length-append full chunk)) in
    ap concat (relay-cons m full chunk chunks)
    ∙ concat-append d.0 (relay d.1 all chunks)
    ∙ ap (◌++◌ (concat d.0)) (relay-scan d.1 all chunks k.inside k.settles)
    ∙ sym (k.shows (concat chunks))
    ∙ ap (scan (mode_of m.eating)) (rw (drop-append m.committed full chunk le, append_assoc))

-- However a response is cut into chunks, what the filter lets through, all slices together, is
-- exactly what the one-pass scan of the whole response shows.
pub relay-visible :
    (chunks : List Text) → concat (relay new_filter [] chunks) ≡ visible (concat chunks)
unfolding visible
relay-visible chunks = relay-scan new_filter [] chunks (omega arith) (unfold scan in refl)
