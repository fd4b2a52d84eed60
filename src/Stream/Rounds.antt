-- ===== src/Stream/Rounds.antt =====
-- One round of the loop of `drain`, for every continuation of the response.
use rabb1t_claw.Base.{
  ℕ, zero, suc, ◌+◌, ◌*◌, ◌≤◌, ◌<◌, Bool, true, false, none, some, [], ◌∷◌, ◌++◌, ◌==◌,
  if◌then◌else◌, inl, inr, ◌≡◌, ◌≢◌, refl, sym, ◌∙◌, ap, arith, Bool-cases, Option-cases, Text,
  find, length, take, drop, concat, append-nil, length-drop, uncons_drop, drop-length, find-length,
  lt→ltb, ==_iff,
}
use rabb1t_claw.Markers.{block_close, newline_at}
use rabb1t_claw.Stream.{Round, one_delta, eat_round, emit_round, drain_round, safe_emit_end}
use rabb1t_claw.Stream.Scan.{Mode, opens, showing, eating, skip, scan}
use rabb1t_claw.Stream.Starts.{find_start, find_dispatch_start-find_start}
use rabb1t_claw.Stream.ScanLaws.{
  scan_showing-start, scan_eating-find, scan_showing-none, scan_eating-none, find_start-length,
}
use rabb1t_claw.Stream.Hold.{safe-le-length, safe-opens}

abbrev pub mode_of : Bool → Mode
mode_of true = eating
mode_of false = showing

concat-one_delta : (t : Text) (n : ℕ) → concat (one_delta t n) ≡ take n t
concat-one_delta t zero = refl
concat-one_delta t (suc n) = rw (lt→ltb 0 (suc n) (omega arith)) (append-nil (take (suc n) t))

pub scan-skip_zero :
    (c : ℕ) (cs : Text)
    → scan (skip 0) (c ∷ cs) ≡ (if c == b'\n' then scan showing cs else scan showing (c ∷ cs))
unfolding scan
scan-skip_zero c cs = ground arith

scan-safe :
    (t u : Text) (s : ℕ)
    → s ≤ length t
    → ((i : ℕ) → i < s → i < length t → opens (drop i t ++ u) ≡ false)
    → scan showing (t ++ u) ≡ take s t ++ scan showing (drop s t ++ u)
unfolding scan
scan-safe t u zero le safe = refl
scan-safe [] u (suc s) le safe = absurd (omega arith)
scan-safe (c ∷ cs) u (suc s) le safe = ground (
  arith,
  safe 0 (omega arith) (omega arith),
  scan-safe cs u s (omega arith) (λ i h k. safe (suc i) (omega arith) (omega arith)),
)

find_start-drop-none : (t : Text) (n : ℕ) → find_start t ≡ none → find_start (drop n t) ≡ none
unfolding find_start
find_start-drop-none t zero h = h
find_start-drop-none [] (suc n) h = refl
find_start-drop-none (c ∷ cs) (suc n) h = elim (Option-cases (find_start cs)) [
  | inl e ↦ find_start-drop-none cs n e
  | inr (b, e) ↦ ground arith
]

-- each round that continues makes this smaller
abbrev pub measure : Bool → ℕ → ℕ
measure true n = 2 * n
measure false n = 2 * n + 1

-- what is left at the end of the loop is shown whole or not at all
abbrev pub IsSettled : Bool → Text → Type 0
IsSettled true t = scan eating t ≡ []
IsSettled false t = scan showing t ≡ t

-- A round shows what the scan shows, whatever text `u` comes later.
pub record IsRound (e : Bool) (t : Text) (r : Round) : Type 0 where
  pub shows :
      (u : Text)
      → scan (mode_of e) (t ++ u)
        ≡ concat r.deltas ++ scan (mode_of r.eating) (drop r.advance t ++ u)
  pub inside : r.advance ≤ length t
  pub progress :
      r.again ≡ true → measure r.eating (length (drop r.advance t)) < measure e (length t)
  pub settles : r.again ≡ false → IsSettled r.eating (drop r.advance t)

eating_on : Round
eating_on = record { deltas = []; advance = 0; eating = true; again = false }

-- the round behind a block that ends at `n`
eaten : Text → ℕ → Round
eaten t n = record {
  deltas = [];
  advance = if newline_at t n then n + 1 else n;
  eating = false;
  again = true;
}

eating_on-IsRound : (t : Text) → scan eating t ≡ [] → IsRound true t eating_on
unfolding eating_on
eating_on-IsRound t h = record {
  shows = λ u. refl;
  inside = omega arith;
  progress = λ e. cc;
  settles = λ e. h;
}

eaten-IsRound :
    (t : Text) {z : ℕ}
    → find block_close t ≡ some z
    → z + 6 ≢ length t
    → IsRound true t (eaten t (z + 6))
unfolding eaten
eaten-IsRound t {z} e ne =
    let fits = find-length block_close t e in
    let (c, cs, p, q, r) = uncons_drop (z + 6) t (omega arith) in
    elim (Bool-cases (c == b'\n')) [
      | inl x ↦
          rw (r, x)
            (record {
              shows = λ u. scan_eating-find t u e ∙ rw p (scan-skip_zero c (cs ++ u) ∙ rw (x, q));
              inside = omega arith;
              progress = λ _. omega (arith, length-drop (z + 6 + 1) t);
              settles = λ x. cc;
            })
      | inr x ↦
          rw (r, x)
            (record {
              shows = λ u. scan_eating-find t u e ∙ rw p (scan-skip_zero c (cs ++ u) ∙ rw x);
              inside = omega arith;
              progress = λ _. omega (arith, length-drop (z + 6) t);
              settles = λ x. cc;
            })
    ]

scan_eating-at_end :
    (t : Text) {z : ℕ} → find block_close t ≡ some z → z + 6 ≡ length t → scan eating t ≡ []
unfolding scan
scan_eating-at_end t {z} e p =
    ap (scan eating) (sym (append-nil t)) ∙ scan_eating-find t [] e ∙ rw (p, drop-length t)

eat_round-IsRound : (t : Text) → IsRound true t (eat_round t)
unfolding eat_round
eat_round-IsRound t = elim (Option-cases (find block_close t)) [
  | inl e ↦ rw (e, eat_round) (unfold eating_on in eating_on-IsRound t (scan_eating-none t e))
  | inr (z, e) ↦ elim (Bool-cases ((z + 6) == length t)) [
    | inl x ↦
        rw (e, eat_round, x)
          (unfold eating_on in
            eating_on-IsRound t (scan_eating-at_end t e ((==_iff (z + 6) (length t)).0 x)))
    | inr x ↦ rw (e, eat_round, x) (unfold eaten in eaten-IsRound t e (ground arith))
  ]
]

emit_round-IsRound : (t : Text) → IsRound false t (emit_round t)
unfolding emit_round
emit_round-IsRound t = elim (Option-cases (find_start t)) [
  | inl e ↦
      rw (find_dispatch_start-find_start t ∙ e, emit_round)
        (record {
          shows = λ u.
              rw concat-one_delta
                (scan-safe t u (safe_emit_end t) (safe-le-length t e) (safe-opens t e u));
          inside = safe-le-length t e;
          progress = λ x. cc;
          settles = λ _. scan_showing-none _ (find_start-drop-none t (safe_emit_end t) e);
        })
  | inr (z, e) ↦
      rw (find_dispatch_start-find_start t ∙ e, emit_round)
        (record {
          shows = λ u. rw concat-one_delta (scan_showing-start t u e);
          inside = omega (arith, find_start-length t e);
          progress = λ _. omega (arith, find_start-length t e, length-drop z t);
          settles = λ x. cc;
        })
]

pub drain_round-IsRound : (e : Bool) (t : Text) → IsRound e t (drain_round e t)
unfolding drain_round
drain_round-IsRound true [] =
    unfold scan in
    record { shows = λ u. refl; inside = omega arith; progress = λ x. cc; settles = λ _. refl }
drain_round-IsRound false [] =
    unfold scan in
    record { shows = λ u. refl; inside = omega arith; progress = λ x. cc; settles = λ _. refl }
drain_round-IsRound true (c ∷ cs) = eat_round-IsRound (c ∷ cs)
drain_round-IsRound false (c ∷ cs) = emit_round-IsRound (c ∷ cs)
