-- ===== src/Tracker/Bounds.antt =====
-- What a tracker keeps bounded.
use mathlib.Core.Path.{subst}
use rabb1t_claw.Base.{
  ℕ, ◌+◌, ◌-◌, ◌≤◌, Bool, true, false, List, [], ◌∷◌, ◌++◌, ◌≡◌, ◌≢◌, refl, arith, if◌then◌else◌,
  inl, inr, Text, insert, length, count_if, leb, text_eq, text_eq_iff, text_eq_refl, lookup-insert,
  count_if-append, count_if-le-length, length-append, Bool-cases, leb→le, leb→gt,
}
use rabb1t_claw.Tracker.{
  TaskStatus, TrackedItem, Tracker, items_of, running_item, drop_finished, new_item, register,
}

module _ {S : Type 0} ⦃status : TaskStatus S⦄ where
  abbrev pub running_count : Tracker S → Text → ℕ
  running_count items prefix = count_if running_item (items_of items prefix)

  abbrev pub finished_count : Tracker S → Text → ℕ
  finished_count items prefix = length (items_of items prefix) - running_count items prefix

  drop_finished-running :
      (excess : ℕ) (ts : List (TrackedItem S))
      → count_if running_item (drop_finished excess ts) ≡ count_if running_item ts
  unfolding drop_finished
  drop_finished-running excess [] = refl
  drop_finished-running excess (t ∷ ts) =
      ground (arith, drop_finished-running excess ts, drop_finished-running (excess - 1) ts)

  drop_finished-length :
      (excess : ℕ) (ts : List (TrackedItem S))
      → excess ≤ length ts - count_if running_item ts
      → length (drop_finished excess ts) + excess ≡ length ts
  unfolding drop_finished
  drop_finished-length excess [] h = omega arith
  drop_finished-length excess (t ∷ ts) h = ground (
    arith,
    drop_finished-length excess ts,
    drop_finished-length (excess - 1) ts,
    count_if-le-length running_item ts,
  )

  items_of-insert :
      (k j : Text) (l : List (TrackedItem S)) (items : Tracker S)
      → items_of (insert k l items) j ≡ (if text_eq k j then l else items_of items j)
  unfolding items_of
  items_of-insert k j l items = rw (lookup-insert k j l items) (ground arith)

  items_of-insert_other :
      (k j : Text) (l : List (TrackedItem S)) (items : Tracker S)
      → k ≢ j
      → items_of (insert k l items) j ≡ items_of items j
  items_of-insert_other k j l items ne =
      rw (items_of-insert k j l items) (ground (arith, text_eq_iff k j))

  items_of-insert_self :
      (k : Text) (l : List (TrackedItem S)) (items : Tracker S) → items_of (insert k l items) k ≡ l
  items_of-insert_self k l items = rw (items_of-insert k k l items) (rw (text_eq_refl k) refl)

  items_of-same :
      (k j : Text) (items : Tracker S)
      → items_of (insert k (items_of items k) items) j ≡ items_of items j
  items_of-same k j items = elim (Bool-cases (text_eq k j)) [
    | inl e ↦
        subst (λ i. items_of (insert k (items_of items k) items) i ≡ items_of items i)
          ((text_eq_iff k j).0 e) (items_of-insert_self k (items_of items k) items)
    | inr e ↦ rw (items_of-insert k j (items_of items k) items) (rw e refl)
  ]

  kept-counts :
      (excess : ℕ) (ts : List (TrackedItem S)) (t : TrackedItem S)
      → excess ≤ length ts - count_if running_item ts
      → running_item t ≡ true
      → (count_if running_item (drop_finished excess ts ++ t ∷ []) ≡ count_if running_item ts + 1)
        × (length (drop_finished excess ts ++ t ∷ []) + excess ≡ length ts + 1)
  kept-counts excess ts t h r =
      let counts = count_if-append running_item (drop_finished excess ts) (t ∷ []) in
      let lengths = length-append (drop_finished excess ts) (t ∷ []) in
      (
        ground (arith, counts, r, drop_finished-running excess ts),
        omega (arith, lengths, drop_finished-length excess ts h),
      )

  abbrev pub Bounded : Tracker S → Text → ℕ → ℕ → Tracker S × Bool → Type 0
  Bounded before prefix max_concurrent max_retained (after, accepted) =
      (accepted ≡ true
        → (running_count after prefix ≡ running_count before prefix + 1)
          × (running_count after prefix ≤ max_concurrent)
          × (finished_count after prefix ≤ max_retained))
      × (accepted ≡ false
          → (max_concurrent ≤ running_count before prefix)
            × ((j : Text) → items_of after j ≡ items_of before j))

  -- A registration within the limit adds one running item, and leaves at most `max_concurrent`
  -- running items and at most `max_retained` finished ones for the device; a refused one means
  -- that `max_concurrent` items run already, and leaves the items of every device as they were.
  pub register_bounds :
      (items : Tracker S) (prefix : Text) (id : ℕ) (description : Text)
      (max_concurrent max_retained now : ℕ)
      → Bounded items prefix max_concurrent max_retained
          (register items prefix id description max_concurrent max_retained now)
  unfolding register
  register_bounds items prefix id description max_concurrent max_retained now =
      let entry = items_of items prefix in
      let excess = (length entry - count_if running_item entry) - max_retained in
      let item = new_item id description now in
      let kept = kept-counts excess entry item (omega arith) status.default_is_running in
      elim (Bool-cases (leb max_concurrent (count_if running_item entry))) [
        | inl e ↦ rw e (
          λ h. ground arith,
          λ h. (
            leb→le max_concurrent (count_if running_item entry) e,
            λ j. items_of-same prefix j items,
          ),
        )
        | inr e ↦
            let le = leb→gt max_concurrent (count_if running_item entry) e in
            rw e (
              rw (items_of-insert_self prefix (drop_finished excess entry ++ item ∷ []) items) (
                λ h. (kept.0, ground (arith, kept.0, le), omega (arith, kept.0, kept.1)),
                λ h. ground arith,
              ))
      ]

  -- Whatever a registration does, the items of every other device stay as they were.
  pub register_other :
      (items : Tracker S) (prefix j : Text) (id : ℕ) (description : Text)
      (max_concurrent max_retained now : ℕ)
      → prefix ≢ j
      → items_of (register items prefix id description max_concurrent max_retained now).0 j
        ≡ items_of items j
  unfolding register
  register_other items prefix j id description max_concurrent max_retained now ne =
      let entry = items_of items prefix in
      elim (Bool-cases (leb max_concurrent (count_if running_item entry))) [
        | inl e ↦ rw e (items_of-insert_other prefix j entry items ne)
        | inr e ↦ rw e (items_of-insert_other prefix j _ items ne)
      ]
