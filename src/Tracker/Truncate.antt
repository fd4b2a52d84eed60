-- ===== src/Tracker/Truncate.antt =====
-- `truncate` and `count_tokens` over a tokenizer that the gateway takes from a library: `encode`
-- is `encode_with_special_tokens` and `decode` refuses tokens that are no UTF-8 text.
use rabb1t_claw.Base.{
  ℕ, zero, suc, ◌≤◌, ◌<◌, Option, none, some, List, ◌++◌, ◌≡◌, refl, arith, if◌then◌else◌, inl, inr,
  Text, codes, length, take, leb, Option-cases, gt→leb, le_suc-cases, ◌⊎◌,
}

module _ (encode : Text → List ℕ) (decode : List ℕ → Option Text) where
  unfoldable pub count_tokens : Text → ℕ
  count_tokens s = length (encode s)

  -- the loop: step back from `n` tokens until the prefix decodes
  unfoldable pub step_back : List ℕ → ℕ → Text
  step_back tokens zero = codes "..."
  step_back tokens (suc n) = elim (decode (take (suc n) tokens)) [
    | some t ↦ t ++ codes "..."
    | none ↦ step_back tokens n
  ]

  unfoldable pub truncate : Text → ℕ → Text
  unfolding step_back count_tokens
  truncate s max_tokens =
      if leb (count_tokens s) max_tokens then s else step_back (encode s) max_tokens

  -- the longest prefix of at most `n` tokens that decodes, or none does
  abbrev pub CutAt : List ℕ → ℕ → Text → Type 0
  CutAt tokens n out =
      ((k : ℕ) × (t : Text) × (k ≤ n)
        × (decode (take k tokens) ≡ some t)
        × (out ≡ t ++ codes "...")
        × ((j : ℕ) → k < j → j ≤ n → decode (take j tokens) ≡ none))
      ⊎ ((out ≡ codes "...") × ((j : ℕ) → 0 < j → j ≤ n → decode (take j tokens) ≡ none))

  CutAt-suc :
      (tokens : List ℕ) (n : ℕ) (out : Text)
      → decode (take (suc n) tokens) ≡ none
      → CutAt tokens n out
      → CutAt tokens (suc n) out
  CutAt-suc tokens n out e (inl (k, t, le, d, o, above)) = inl (
    k,
    t,
    omega arith,
    d,
    o,
    λ j h m. elim (le_suc-cases j n m) [ inl l ↦ above j h l | inr q ↦ rw q e ],
  )
  CutAt-suc tokens n out e (inr (o, above)) =
      inr (o, λ j h m. elim (le_suc-cases j n m) [ inl l ↦ above j h l | inr q ↦ rw q e ])

  step_back-CutAt : (tokens : List ℕ) (n : ℕ) → CutAt tokens n (step_back tokens n)
  unfolding step_back
  step_back-CutAt tokens zero = inr (refl, λ j h k. absurd (omega arith))
  step_back-CutAt tokens (suc n) = elim (Option-cases (decode (take (suc n) tokens))) [
    | inr (t, e) ↦
        inl (suc n, t, omega arith, e, rw (e, step_back) refl, λ j h k. absurd (omega arith))
    | inl e ↦
        rw (e, step_back) (CutAt-suc tokens n (step_back tokens n) e (step_back-CutAt tokens n))
  ]

  -- A text within the limit stays as it is. A longer one is cut to the longest prefix of at most
  -- `max_tokens` tokens that decodes, and "..." follows; "..." alone stands where none does.
  pub truncate_cases :
      (s : Text) (max_tokens : ℕ)
      → ((count_tokens s ≤ max_tokens) → truncate s max_tokens ≡ s)
        × ((max_tokens < count_tokens s) → CutAt (encode s) max_tokens (truncate s max_tokens))
  unfolding truncate
  truncate_cases s max_tokens = (
    λ h. ground arith,
    λ h. rw (gt→leb (count_tokens s) max_tokens h) (step_back-CutAt (encode s) max_tokens),
  )
