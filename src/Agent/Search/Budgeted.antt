-- ===== src/Agent/Search/Budgeted.antt =====
-- The context of a search fits its budget, and no result is left out that would fit behind the others.
use rabb1t_claw.Base.{
  ℕ, suc, ◌+◌, ◌≤◌, ◌<◌, Option, List, [], ◌∷◌, inl, inr, ◌⊎◌, ◌≡◌, refl, ap, arith, ltb, ltb→lt,
  Bool-cases, Text, codes, join, map, take, drop,
}
use rabb1t_claw.Agent.Search.{EnrichedResult, entry, context_parts, create_context}
use rabb1t_claw.Tracker.Truncate.{count_tokens}

module _ (encode : Text → List ℕ) (decode : List ℕ → Option Text) where
  unfoldable pub total_of : List Text → ℕ
  total_of [] = 0
  total_of (t ∷ ts) = count_tokens encode decode t + total_of ts

  -- The parts are the entries of the first results, their tokens with some before them are within the budget,
  -- and they are all, or the next entry would go beyond it.
  abbrev pub IsBudgeted : ℕ → ℕ → List EnrichedResult → List Text → Type 0
  IsBudgeted max_total_tokens before results parts =
      (k : ℕ) × (parts ≡ map (entry encode decode) (take k results))
      × (before + total_of parts ≤ max_total_tokens)
      × ((drop k results ≡ [])
          ⊎ ((r : EnrichedResult) × (rest : List EnrichedResult) × (drop k results ≡ r ∷ rest)
              × (max_total_tokens
                  < before + total_of parts + count_tokens encode decode (entry encode decode r))))

  context_parts-IsBudgeted :
      (max_total_tokens before : ℕ) (results : List EnrichedResult)
      → before ≤ max_total_tokens
      → IsBudgeted max_total_tokens before results
          (context_parts encode decode max_total_tokens before results)
  unfolding context_parts total_of
  context_parts-IsBudgeted max_total_tokens before [] h = (0, refl, omega arith, inl refl)
  context_parts-IsBudgeted max_total_tokens before (r ∷ rs) h =
      let n = count_tokens encode decode (entry encode decode r) in
      elim (Bool-cases (ltb max_total_tokens (before + n))) [
        | inl e ↦ rw e (
          0,
          refl,
          omega arith,
          inr (r, rs, refl, omega (arith, ltb→lt max_total_tokens (before + n) e)),
        )
        | inr e ↦
            let (k, same, fits, last) =
              context_parts-IsBudgeted max_total_tokens (before + n) rs (ground (arith, e)) in
            rw e (
              suc k,
              ap (entry encode decode r ∷◌) same,
              omega (arith, fits),
              elim last [
                | inl all ↦ inl all
                | inr (x, rest, d, more) ↦ inr (x, rest, d, omega (arith, more))
              ],
            )
      ]

  -- The context is the entries of the first results, joined by line breaks. Their tokens are within the
  -- budget, and they are all results, or the next one would go beyond it. The line breaks
  -- between the entries are not counted.
  pub create_context-IsBudgeted :
      (results : List EnrichedResult) (max_total_tokens : ℕ)
      → (parts : List Text) × (create_context encode decode results max_total_tokens
          ≡ join (codes "\n") parts)
        × IsBudgeted max_total_tokens 0 results parts
  unfolding create_context
  create_context-IsBudgeted results max_total_tokens = (
    context_parts encode decode max_total_tokens 0 results,
    refl,
    context_parts-IsBudgeted max_total_tokens 0 results (omega arith),
  )
