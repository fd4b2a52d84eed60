-- ===== src/Agent/Memory/Words.antt =====
-- The words of a text that `enforce_word_limit` cuts.
use rabb1t_claw.Base.{
  ℕ, zero, suc, ◌-◌, ◌≤◌, Bool, true, false, none, some, List, [], ◌∷◌, inl, inr, ◌⊎◌, ◌≡◌, refl,
  sym, ap, ◌∙◌, arith, Text, length, take, ◌<◌, ◌++◌, append-nil, drop-past, take-append-drop,
  length-take, Bool-cases, Option-cases, is_whitespace, ltb, unwrap_or,
}
use rabb1t_claw.Agent.Memory.{word_ends, last, enforce_word_limit}

same_end : {a b : ℕ} → some a ≡ some b → a ≡ b
same_end {a} h = ap (λ o. unwrap_or o a) h

last-none : (xs : List ℕ) → last xs ≡ none → xs ≡ []
unfolding last
last-none [] h = refl
last-none (x ∷ xs) h = ground (arith, h)

-- Cutting a text at an end of a word keeps the ends up to it.
abbrev Cuts : ℕ → ℕ → Bool → Text → ℕ → Type 0
Cuts n pos in_word t e =
    (pos ≤ e) × (word_ends pos in_word (take (e - pos) t) ≡ take (suc n) (word_ends pos in_word t))

-- one character further
Cuts-later :
    (n pos : ℕ) (b b' : Bool) (c : ℕ) (cs : Text) (e : ℕ)
    → ((s : Text) → word_ends pos b (c ∷ s) ≡ word_ends (suc pos) b' s)
    → Cuts n (suc pos) b' cs e
    → Cuts n pos b (c ∷ cs) e
Cuts-later n pos b b' c cs e step (le, cut) =
    let next : e - pos ≡ suc (e - suc pos) = omega (arith, le) in
    (
      omega (arith, le),
      ap (λ k. word_ends pos b (take k (c ∷ cs))) next
          ∙ (step (take (e - suc pos) cs) ∙ (cut ∙ ap (take (suc n)) (sym (step cs)))),
    )

step-space :
    (pos c : ℕ) (s : Text)
    → is_whitespace c ≡ true
    → word_ends pos false (c ∷ s) ≡ word_ends (suc pos) false s
unfolding word_ends
step-space pos c s e = rw (word_ends, e) refl

step-closes :
    (pos c : ℕ) (s : Text)
    → is_whitespace c ≡ true
    → word_ends pos true (c ∷ s) ≡ pos ∷ word_ends (suc pos) false s
unfolding word_ends
step-closes pos c s e = rw (word_ends, e) refl

step-letter :
    (pos : ℕ) (b : Bool) (c : ℕ) (s : Text)
    → is_whitespace c ≡ false
    → word_ends pos b (c ∷ s) ≡ word_ends (suc pos) true s
unfolding word_ends
step-letter pos b c s e = rw (word_ends, e) refl

-- the end is at the position itself
Cuts-here :
    (n pos : ℕ) (t : Text) (e : ℕ)
    → e ≡ pos
    → take (suc n) (word_ends pos true t) ≡ pos ∷ []
    → Cuts n pos true t e
unfolding word_ends
Cuts-here n pos t e same one =
    let none_left : e - pos ≡ 0 = omega (arith, same) in
    (omega (arith, same), ap (λ k. word_ends pos true (take k t)) none_left ∙ sym one)

Cuts-closes :
    (n pos c : ℕ) (cs : Text) (e : ℕ)
    → is_whitespace c ≡ true
    → last (pos ∷ take n (word_ends (suc pos) false cs)) ≡ some e
    → ((m : ℕ)
        → n ≡ suc m
        → (e' : ℕ) → last (take (suc m) (word_ends (suc pos) false cs)) ≡ some e'
        → Cuts m (suc pos) false cs e')
    → Cuts n pos true (c ∷ cs) e
unfolding last
Cuts-closes zero pos c cs e w h ih =
    Cuts-here zero pos (c ∷ cs) e (sym (same_end h)) (ap (take 1) (step-closes pos c cs w))
Cuts-closes (suc m) pos c cs e w h ih =
    let rest = take (suc m) (word_ends (suc pos) false cs) in
    let whole = ap (take (suc (suc m))) (step-closes pos c cs w) in
    elim (Option-cases (last rest)) [
      | inl empty ↦
          Cuts-here (suc m) pos (c ∷ cs) e (sym (same_end h) ∙ ap (λ o. unwrap_or o pos) empty)
            (whole ∙ ap (pos ∷◌) (last-none rest empty))
      | inr (e', found) ↦
          let same : e ≡ e' = sym (same_end h) ∙ ap (λ o. unwrap_or o pos) found in
          let (le, cut) = ih m refl e (found ∙ ap some (sym same)) in
          let next : e - pos ≡ suc (e - suc pos) = omega (arith, le) in
          (
            omega (arith, le),
            ap (λ k. word_ends pos true (take k (c ∷ cs))) next
                ∙ (step-closes pos c (take (e - suc pos) cs) w ∙ (ap (pos ∷◌) cut ∙ sym whole)),
          )
    ]

word_ends-cut :
    (n pos : ℕ) (b : Bool) (t : Text) (e : ℕ)
    → last (take (suc n) (word_ends pos b t)) ≡ some e
    → Cuts n pos b t e
unfolding word_ends last
word_ends-cut n pos false [] e h = ground (arith, h)
word_ends-cut zero pos true [] e h = Cuts-here zero pos [] e (sym (same_end h)) refl
word_ends-cut (suc n) pos true [] e h = Cuts-here (suc n) pos [] e (sym (same_end h)) refl
word_ends-cut n pos true (c ∷ cs) e h = elim (Bool-cases (is_whitespace c)) [
  | inl w ↦
      Cuts-closes n pos c cs e w
        (ap (λ l. last (take (suc n) l)) (sym (step-closes pos c cs w)) ∙ h)
        (λ m _ e'. word_ends-cut m (suc pos) false cs e')
  | inr w ↦
      Cuts-later n pos true true c cs e (λ s. step-letter pos true c s w)
        (word_ends-cut n (suc pos) true cs e
          (ap (λ l. last (take (suc n) l)) (sym (step-letter pos true c cs w)) ∙ h))
]
word_ends-cut n pos false (c ∷ cs) e h = elim (Bool-cases (is_whitespace c)) [
  | inl w ↦
      Cuts-later n pos false false c cs e (λ s. step-space pos c s w)
        (word_ends-cut n (suc pos) false cs e
          (ap (λ l. last (take (suc n) l)) (sym (step-space pos c cs w)) ∙ h))
  | inr w ↦
      Cuts-later n pos false true c cs e (λ s. step-letter pos false c s w)
        (word_ends-cut n (suc pos) true cs e
          (ap (λ l. last (take (suc n) l)) (sym (step-letter pos false c cs w)) ∙ h))
]

take-whole : (k : ℕ) (t : Text) → length t ≤ k → take k t ≡ t
take-whole k t h =
    sym (append-nil (take k t)) ∙ (ap (take k t ++◌) (sym (drop-past k t h)) ∙ take-append-drop k t)

take-length-take : (k : ℕ) (t : Text) → k ≤ length t → take (length (take k t)) t ≡ take k t
take-length-take k t h =
    let same : length (take k t) ≡ k = omega (arith, length-take k t) in ap (λ i. take i t) same

no_words : (n : ℕ) (ends : List ℕ) → take (suc n) ends ≡ [] → ends ≡ take (suc n) ends
no_words n [] h = refl
no_words n (x ∷ xs) h = ground (arith, h)

-- What the text is cut to: all of it for a limit of no words, else its start with the first words.
abbrev pub IsLimited : Text → ℕ → Text → Type 0
IsLimited t max_words cut =
    (take (length cut) t ≡ cut)
    × (((max_words ≡ 0) × (cut ≡ t))
        ⊎ ((0 < max_words) × (word_ends 0 false cut ≡ take max_words (word_ends 0 false t))))

IsLimited-whole :
    (t : Text) (n : ℕ)
    → word_ends 0 false t ≡ take (suc n) (word_ends 0 false t)
    → IsLimited t (suc n) t
IsLimited-whole t n same = (take-whole (length t) t (omega arith), inr (omega arith, same))

-- `enforce_word_limit` cuts a text to a start of it. With a limit of at least one word, the words
-- of the result are the first words of the text, as many as the limit or all of them, at the
-- places where they stand in the text; with a limit of no words, nothing is cut.
pub enforce_word_limit-IsLimited :
    (t : Text) (max_words : ℕ) → IsLimited t max_words (enforce_word_limit t max_words)
unfolding enforce_word_limit last
enforce_word_limit-IsLimited t zero = (take-whole (length t) t (omega arith), inl (refl, refl))
enforce_word_limit-IsLimited t (suc n) =
    let ends = word_ends 0 false t in
    elim (Option-cases (last (take (suc n) ends))) [
      | inl empty ↦
          rw empty (IsLimited-whole t n (no_words n ends (last-none (take (suc n) ends) empty)))
      | inr (e, found) ↦
          let cut : word_ends 0 false (take e t) ≡ take (suc n) ends =
            (let start : e ≡ e - 0 = omega arith in ap (λ k. word_ends 0 false (take k t)) start)
            ∙ (word_ends-cut n 0 false t e found).1 in
          elim (Bool-cases (ltb e (length t))) [
            | inl inside ↦
                rw (found, inside)
                  (take-length-take e t (ground (arith, inside)), inr (omega arith, cut))
            | inr outside ↦
                let all : length t ≤ e = ground (arith, outside) in
                rw (found, outside)
                  (IsLimited-whole t n (ap (word_ends 0 false) (sym (take-whole e t all)) ∙ cut))
          ]
    ]
