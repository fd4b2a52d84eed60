-- ===== src/Tracker/Complete.antt =====
-- What the end of a task does to the items of a tracker.
use rabb1t_claw.Base.{
  ℕ, ◌+◌, Bool, true, false, some, List, [], ◌∷◌, ◌≡◌, ◌≢◌, refl, ap, ◌∙◌, sym, arith,
  if◌then◌else◌, inl, inr, Text, text_eq, text_eq_iff, text_eq_refl, lookup, lookup-insert,
  count_if, update_first, find_first, unwrap_or, Bool-cases, Option-cases,
}
use rabb1t_claw.Tracker.{
  TaskStatus, TrackedItem, Tracker, items_of, running_item, complete, update_status, has_id,
  finished, with_status,
}
use rabb1t_claw.Tracker.Bounds.{running_count}

module _ {S : Type 0} ⦃status : TaskStatus S⦄ where
  update_first-count :
      (p : TrackedItem S → Bool) (f : TrackedItem S → TrackedItem S) (ts : List (TrackedItem S))
      {t : TrackedItem S}
      → find_first p ts ≡ some t
      → running_item t ≡ true
      → running_item (f t) ≡ false
      → count_if running_item (update_first p f ts) + 1 ≡ count_if running_item ts
  update_first-count p f [] h r e = cc
  update_first-count p f (x ∷ xs) {t} h r e = elim (Bool-cases (p x)) [
    | inl here ↦
        let same : x ≡ t = ground (arith, here, h) in
        let before : running_item x ≡ true = ap running_item same ∙ r in
        let after : running_item (f x) ≡ false = ap (λ i. running_item (f i)) same ∙ e in
        rw here (ground (arith, before, after))
    | inr later ↦
        let found : find_first p xs ≡ some t = ground (arith, later, h) in
        rw later (ground (arith, update_first-count p f xs found r e))
  ]

  update_first-found :
      (p : TrackedItem S → Bool) (f : TrackedItem S → TrackedItem S) (ts : List (TrackedItem S))
      {t : TrackedItem S}
      → find_first p ts ≡ some t
      → p (f t) ≡ p t
      → find_first p (update_first p f ts) ≡ some (f t)
  update_first-found p f [] h e = cc
  update_first-found p f (x ∷ xs) {t} h e = elim (Bool-cases (p x)) [
    | inl here ↦
        let same : x ≡ t = ground (arith, here, h) in
        let again : p (f x) ≡ true = ap (λ i. p (f i)) same ∙ (e ∙ (ap p (sym same) ∙ here)) in
        rw (here, again) (ap (λ i. some (f i)) same)
    | inr later ↦
        let found : find_first p xs ≡ some t = ground (arith, later, h) in
        rw (later, later) (update_first-found p f xs found e)
  ]

  update_first-same_count :
      (p : TrackedItem S → Bool) (f : TrackedItem S → TrackedItem S) (ts : List (TrackedItem S))
      {t : TrackedItem S}
      → find_first p ts ≡ some t
      → running_item (f t) ≡ running_item t
      → count_if running_item (update_first p f ts) ≡ count_if running_item ts
  update_first-same_count p f [] h e = refl
  update_first-same_count p f (x ∷ xs) {t} h e = elim (Bool-cases (p x)) [
    | inl here ↦
        let same : x ≡ t = ground (arith, here, h) in
        let after : running_item (f x) ≡ running_item x =
          ap (λ i. running_item (f i)) same ∙ (e ∙ ap running_item (sym same)) in
        rw here (ground (arith, after))
    | inr later ↦
        let found : find_first p xs ≡ some t = ground (arith, later, h) in
        rw later (ground (arith, update_first-same_count p f xs found e))
  ]

  items_of-complete :
      (items : Tracker S) (prefix j : Text) (id : ℕ) (s : S) (now : ℕ)
      → items_of (complete items prefix id s now) j ≡ (
          if text_eq prefix j
          then update_first (has_id id) (finished s now) (items_of items prefix)
          else items_of items j)
  unfolding items_of complete
  items_of-complete items prefix j id s now = elim (Option-cases (lookup prefix items)) [
    | inl e ↦ elim (Bool-cases (text_eq prefix j)) [
      | inl q ↦
          rw (e, q)
            (ap (λ k. unwrap_or (lookup k items) []) (sym ((text_eq_iff prefix j).0 q)) ∙ rw e refl)
      | inr q ↦ rw (e, q) refl
    ]
    | inr (ts, e) ↦ rw e (
        rw (lookup-insert prefix j (update_first (has_id id) (finished s now) ts) items)
          (ground arith))
  ]

  items_of-update_status :
      (items : Tracker S) (prefix j : Text) (id : ℕ) (s : S)
      → items_of (update_status items prefix id s) j ≡ (
          if text_eq prefix j
          then update_first (has_id id) (with_status s) (items_of items prefix)
          else items_of items j)
  unfolding items_of update_status
  items_of-update_status items prefix j id s = elim (Option-cases (lookup prefix items)) [
    | inl e ↦ elim (Bool-cases (text_eq prefix j)) [
      | inl q ↦
          rw (e, q)
            (ap (λ k. unwrap_or (lookup k items) []) (sym ((text_eq_iff prefix j).0 q)) ∙ rw e refl)
      | inr q ↦ rw (e, q) refl
    ]
    | inr (ts, e) ↦ rw e (
        rw (lookup-insert prefix j (update_first (has_id id) (with_status s) ts) items)
          (ground arith))
  ]

  -- an item with the id is found, and is running
  pub record IsRunning (items : Tracker S) (prefix : Text) (id : ℕ) : Type 0 where
    pub item : TrackedItem S
    pub found : find_first (has_id id) (items_of items prefix) ≡ some item
    pub running : running_item item ≡ true

  -- Another running status leaves the task running, the count as it is, and other devices alone.
  pub update_status-IsRunning :
      (items : Tracker S) (prefix : Text) (id : ℕ) (s : S)
      → IsRunning items prefix id
      → status.is_running s ≡ true
      → IsRunning (update_status items prefix id s) prefix id
        × (running_count (update_status items prefix id s) prefix ≡ running_count items prefix)
        × ((j : Text)
            → prefix ≢ j
            → items_of (update_status items prefix id s) j ≡ items_of items j)
  update_status-IsRunning items prefix id s h e =
      let own : items_of (update_status items prefix id s) prefix
          ≡ update_first (has_id id) (with_status s) (items_of items prefix) =
        items_of-update_status items prefix prefix id s ∙ rw (text_eq_refl prefix) refl in
      (
        record {
          item = with_status s h.item;
          found =
              ap (find_first (has_id id)) own
              ∙ update_first-found (has_id id) (with_status s) (items_of items prefix) h.found refl;
          running = e;
        },
        ap (count_if running_item) own
            ∙ update_first-same_count (has_id id) (with_status s) (items_of items prefix) h.found
                (e ∙ sym h.running),
        λ j ne.
            items_of-update_status items prefix j id s ∙ ground (arith, text_eq_iff prefix j, ne),
      )

  -- a task that has ended with some status
  abbrev pub HasEnded : Tracker S → Text → ℕ → S → ℕ → Type 0
  HasEnded items prefix id s now =
      (t : TrackedItem S) × (find_first (has_id id) (items_of items prefix) ≡ some t)
      × (t.status ≡ s)
      × (t.completed_at ≡ some now)

  -- a task has ended with a status: one more place is free for its device, and the items of every
  -- other device are as they were
  abbrev pub Frees : Tracker S → Tracker S → Text → ℕ → S → ℕ → Type 0
  Frees items end prefix id s now =
      (running_count end prefix + 1 ≡ running_count items prefix)
      × HasEnded end prefix id s now
      × ((j : Text) → prefix ≢ j → items_of end j ≡ items_of items j)

  -- The end of a running task with a status that is not running frees its place for the device,
  -- keeps that status and the time, and leaves the items of every other device as they are.
  pub complete-Frees :
      (items : Tracker S) (prefix : Text) (id : ℕ) (s : S) (now : ℕ)
      → IsRunning items prefix id
      → status.is_running s ≡ false
      → Frees items (complete items prefix id s now) prefix id s now
  complete-Frees items prefix id s now h e =
      let own : items_of (complete items prefix id s now) prefix
          ≡ update_first (has_id id) (finished s now) (items_of items prefix) =
        items_of-complete items prefix prefix id s now ∙ rw (text_eq_refl prefix) refl in
      (
        ap (λ ts. count_if running_item ts + 1) own
            ∙ update_first-count (has_id id) (finished s now) (items_of items prefix) h.found
                h.running e,
        (
          finished s now h.item,
          ap (find_first (has_id id)) own
              ∙ update_first-found (has_id id) (finished s now) (items_of items prefix) h.found
                  refl,
          refl,
          refl,
        ),
        λ j ne.
            items_of-complete items prefix j id s now ∙ ground (arith, text_eq_iff prefix j, ne),
      )
