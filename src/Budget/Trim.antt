-- ===== src/Budget/Trim.antt =====
-- What trimming keeps.
use rabb1t_claw.Base.{
  ℕ, zero, suc, ◌+◌, ◌-◌, ◌*◌, ◌/◌, ◌≤◌, ◌<◌, List, [], ◌∷◌, ◌≡◌, refl, ◌⊎◌, inl, inr, arith, ap,
  Text, map, length, drop, ltb, leb, Bool-cases, leb→le, length-drop,
}
use rabb1t_claw.Budget.{
  ChatMessage, wrap_u32, sum_u32, rounds, msg_tokens, drained, trim_pairs_to_budget,
}

-- the sum with no wrap-around
unfoldable pub sum : List ℕ → ℕ
sum [] = 0
sum (c ∷ counts) = c + sum counts

sum_u32-sum : (counts : List ℕ) → sum counts < 4294967296 → sum_u32 counts ≡ sum counts
unfolding sum_u32 sum
sum_u32-sum [] h = refl
sum_u32-sum (c ∷ counts) h = omega (arith, sum_u32-sum counts)

sum-drop : (n : ℕ) (counts : List ℕ) → sum (drop n counts) ≤ sum counts
unfolding sum
sum-drop zero counts = omega arith
sum-drop (suc n) [] = omega arith
sum-drop (suc n) (c ∷ counts) = omega (arith, sum-drop n counts)

-- Dropping `n` of at most `left` pairs is enough, unless all are dropped, and no fewer would do.
record IsCut (left budget : ℕ) (counts : List ℕ) (n : ℕ) : Type 0 where
  within : n ≤ left
  enough : (sum (drop (n * 2) counts) ≤ budget) ⊎ (n ≡ left)
  least : (k : ℕ) → k < n → budget < sum (drop (k * 2) counts)

IsCut-zero : (left budget : ℕ) (counts : List ℕ) → sum counts ≤ budget → IsCut left budget counts 0
IsCut-zero left budget counts h = record {
  within = omega arith;
  enough = inl h;
  least = λ k b. absurd (omega arith);
}

sum-two : (a b : ℕ) (counts : List ℕ) → sum (a ∷ b ∷ counts) ≡ a + b + sum counts
unfolding sum
sum-two a b counts = omega arith

drop-pair :
    {A : Type 0} (k : ℕ) (a b : A) (xs : List A) → drop (suc k * 2) (a ∷ b ∷ xs) ≡ drop (k * 2) xs
drop-pair k a b xs =
    let e : suc k * 2 ≡ suc (suc (k * 2)) = omega arith in ap (λ n. drop n (a ∷ b ∷ xs)) e

IsCut-suc :
    (left budget a b : ℕ) (counts : List ℕ) (n : ℕ)
    → budget < sum (a ∷ b ∷ counts)
    → IsCut left budget counts n
    → IsCut (suc left) budget (a ∷ b ∷ counts) (suc n)
IsCut-suc left budget a b counts n h c = record {
  within = omega (arith, c.within);
  enough = elim c.enough [ inl e ↦ inl (rw (drop-pair n a b counts) e) | inr e ↦ inr (ap suc e) ];
  least = λ k le. least_suc k le;
}
  where
    least_suc : (k : ℕ) → k < suc n → budget < sum (drop (k * 2) (a ∷ b ∷ counts))
    least_suc zero le = h
    least_suc (suc k) le = rw (drop-pair k a b counts) (c.least k (omega arith))

rounds-IsCut :
    (left budget : ℕ) (counts : List ℕ)
    → sum counts < 4294967296
    → left * 2 ≤ length counts
    → IsCut left budget counts (rounds left (sum counts - budget) counts)
unfolding rounds
rounds-IsCut zero budget counts h l = record {
  within = omega arith;
  enough = inr refl;
  least = λ k b. absurd (omega arith);
}
rounds-IsCut (suc left) budget [] h l = absurd (omega arith)
rounds-IsCut (suc left) budget (a ∷ []) h l = absurd (omega arith)
rounds-IsCut (suc left) budget (a ∷ b ∷ counts) h l =
    let two = sum-two a b counts in
    elim (Bool-cases (ltb 0 (sum (a ∷ b ∷ counts) - budget))) [
      | inl e ↦
          let rest = rounds-IsCut left budget counts (omega (arith, two)) (omega arith) in
          let next : sum (a ∷ b ∷ counts) - budget - wrap_u32 (a + b) ≡ sum counts - budget =
            omega (arith, two) in
          rw (e, next)
            (IsCut-suc left budget a b counts (rounds left (sum counts - budget) counts)
              (ground (arith, e)) rest)
      | inr e ↦ rw e (IsCut-zero (suc left) budget (a ∷ b ∷ counts) (ground arith))
    ]

map-drop :
    (n : ℕ) (f : ChatMessage → ℕ) (ms : List ChatMessage) → map f (drop n ms) ≡ drop n (map f ms)
map-drop zero f ms = refl
map-drop (suc n) f [] = refl
map-drop (suc n) f (m ∷ ms) = map-drop n f ms

length-map : (f : ChatMessage → ℕ) (ms : List ChatMessage) → length (map f ms) ≡ length ms
length-map f [] = refl
length-map f (m ∷ ms) = ap suc (length-map f ms)

module _ (count_tokens : Text → ℕ) where
  abbrev pub tokens : List ChatMessage → ℕ
  tokens ms = sum (map (msg_tokens count_tokens) ms)

  -- `out` is the messages without the fewest leading pairs that bring the rest within the budget;
  -- where none do, one or two messages are left. The last message is always kept.
  pub record IsTrimmed (messages : List ChatMessage) (budget : ℕ) (out : List ChatMessage)
      : Type 0 where
    pub pairs : ℕ
    pub suffix : out ≡ drop (pairs * 2) messages
    pub keeps_last : 0 < length messages → pairs * 2 < length messages
    pub fits : (tokens out ≤ budget) ⊎ (length out ≤ 2)
    pub least : (k : ℕ) → k < pairs → budget < tokens (drop (k * 2) messages)

  -- If the messages count fewer than 2 ^ 32 tokens in all, trimming drops from the front the fewest
  -- pairs with which the rest is within the budget, or all but one or two messages where none are
  -- enough, and always keeps the last message.
  pub trim-IsTrimmed :
      (messages : List ChatMessage) (budget : ℕ)
      → tokens messages < 4294967296
      → IsTrimmed messages budget (trim_pairs_to_budget count_tokens messages budget)
  unfolding trim_pairs_to_budget drained
  trim-IsTrimmed messages budget h =
      let counts = map (msg_tokens count_tokens) messages in
      let total = sum_u32-sum counts h in
      elim (Bool-cases (leb (sum counts) budget)) [
        | inl e ↦
            rw (total, e)
              record {
                pairs = 0;
                suffix = refl;
                keeps_last = λ x. x;
                fits = inl (leb→le (sum counts) budget e);
                least = λ k l. absurd (omega arith);
              }
        | inr e ↦
            rw (total, e)
              (let left = (length messages - 1) / 2 in
                let n = rounds left (sum counts - budget) counts in
                let c =
                  rounds-IsCut left budget counts h
                    (omega (arith, length-map (msg_tokens count_tokens) messages)) in
                record {
                  pairs = n;
                  suffix = refl;
                  keeps_last = λ x. omega (arith, c.within);
                  fits = elim c.enough [
                    | inl f ↦ inl (rw (map-drop (n * 2) (msg_tokens count_tokens) messages) f)
                    | inr f ↦ inr (omega (arith, f, length-drop (n * 2) messages))
                  ];
                  least =
                      λ k l. rw (map-drop (k * 2) (msg_tokens count_tokens) messages) (c.least k l);
                })
      ]
