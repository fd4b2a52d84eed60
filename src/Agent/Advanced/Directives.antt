-- ===== src/Agent/Advanced/Directives.antt =====
-- The directives of a response, against the way in which a directive is written.
use mathlib.Core.Path.{◌≡⟨◌⟩◌, ◌∎}
use rabb1t_claw.Base.{
  ℕ, zero, suc, ◌+◌, ◌<◌, true, some, [], ◌∷◌, ◌++◌, inl, inr, ◌≡◌, ◌≢◌, refl, sym, ap, ◌∙◌, arith,
  Text, codes, find, starts_with, trim, trim_start, trim_end, is_whitespace, text_eq, All,
  All-append, length, take, drop, Option-cases, ltb, lt→ltb, drop-drop, find-length, length-append,
  length-drop, append_assoc,
}
use rabb1t_claw.Agent.Advanced.{
  Directive, code, search, question, done, content_of, label, fence, directive_of, pushed,
  type_end_of, content_start_of, directives_from, parse_directives,
}

-- more fuel than characters is enough
directives_from-fuel :
    (f g : ℕ) (t : Text) → length t < f → length t < g → directives_from f t ≡ directives_from g t
unfolding directives_from
directives_from-fuel zero g t h k = absurd (omega arith)
directives_from-fuel (suc f) zero t h k = absurd (omega arith)
directives_from-fuel (suc f) (suc g) t h k = elim (Option-cases (find fence t)) [
  | inl e ↦ rw (directives_from, e) refl
  | inr (n, e) ↦
      let after = drop (n + 3) t in
      let behind = drop (content_start_of after) after in
      let shorter : (length after < f) × (length after < g) = (
        omega (arith, length-drop (n + 3) t, find-length fence t e, h),
        omega (arith, length-drop (n + 3) t, find-length fence t e, k),
      ) in
      elim (Option-cases (find fence behind)) [
        | inl q ↦ rw (directives_from, e, q) (directives_from-fuel f g after shorter.0 shorter.1)
        | inr (m, q) ↦
            let rest = drop (m + 3) behind in
            rw (directives_from, e, q)
              (ap
                (pushed
                  (directive_of (trim (take (type_end_of after) after)) (trim (take m behind))))
                (directives_from-fuel f g rest
                  (omega (
                    arith,
                    length-drop (m + 3) behind,
                    length-drop (content_start_of after) after,
                    shorter.0,
                  ))
                  (omega (
                    arith,
                    length-drop (m + 3) behind,
                    length-drop (content_start_of after) after,
                    shorter.1,
                  ))))
      ]
]

-- a fence stands behind a text without its character
find-fence :
    (t rest : Text) → All (λ c. c ≢ b'`') t → find fence (t ++ (fence ++ rest)) ≡ some (length t)
unfolding find starts_with
find-fence [] rest h = refl
find-fence (c ∷ cs) rest h = ground (arith, h.0, find-fence cs rest h.1)

find-newline :
    (t rest : Text) → All (λ c. c ≢ 10) t → find (codes "\n") (t ++ 10 ∷ rest) ≡ some (length t)
unfolding find starts_with
find-newline [] rest h = refl
find-newline (c ∷ cs) rest h = ground (arith, h.0, find-newline cs rest h.1)

drop-whole : (xs ys : Text) → drop (length xs) (xs ++ ys) ≡ ys
drop-whole [] ys = refl
drop-whole (x ∷ xs) ys = drop-whole xs ys

take-whole : (xs ys : Text) → take (length xs) (xs ++ ys) ≡ xs
take-whole [] ys = refl
take-whole (x ∷ xs) ys = ap (x ∷◌) (take-whole xs ys)

drop-behind : (xs ys zs : Text) → drop (length xs + length ys) (xs ++ (ys ++ zs)) ≡ zs
drop-behind xs ys zs =
    sym (drop-drop (length xs) (length ys) (xs ++ (ys ++ zs)))
    ∙ (ap (drop (length ys)) (drop-whole xs (ys ++ zs)) ∙ drop-whole ys zs)

content-behind :
    (t body : Text)
    → All (λ c. c ≢ 10) t
    → drop (content_start_of (t ++ 10 ∷ body)) (t ++ 10 ∷ body) ≡ body
content-behind t body h =
    let inside : ltb (length t) (length (t ++ 10 ∷ body)) ≡ true =
      lt→ltb _ _ (omega (arith, length-append t (10 ∷ body))) in
    rw (find-newline t body h) (rw inside (drop-behind t (codes "\n") body))

-- one round at a fence that is closed
round :
    (fuel : ℕ) (t : Text) {after behind : Text} {n m : ℕ}
    → find fence t ≡ some n
    → drop (n + 3) t ≡ after
    → drop (content_start_of after) after ≡ behind
    → find fence behind ≡ some m
    → directives_from (suc fuel) t
      ≡ pushed
          (directive_of (trim (take (type_end_of after) after)) (trim (take m behind)))
          (directives_from fuel (drop (m + 3) behind))
unfolding directives_from
round fuel t e p q r =
    let closed = ap (find fence) (ap (λ (a : Text). drop (content_start_of a) a) p ∙ q) ∙ r in
    rw (directives_from, e, sym q, sym p, closed) refl

-- one round at a fence of some type, with a content that has no backtick
round-written :
    (fuel : ℕ) (fence_type content rest : Text)
    → All (λ c. c ≢ 10) fence_type
    → All (λ c. c ≢ b'`') content
    → directives_from (suc fuel) (fence ++ (fence_type ++ 10 ∷ (content ++ (fence ++ rest))))
      ≡ pushed (directive_of (trim fence_type) (trim content)) (directives_from fuel rest)
round-written fuel fence_type content rest h k =
    let body : Text = content ++ (fence ++ rest) in
    let after : Text = fence_type ++ 10 ∷ body in
    let opened : find fence (fence ++ after) ≡ some 0 = find-fence [] after tt in
    let ends : type_end_of after ≡ length fence_type = rw (find-newline fence_type body h) refl in
    let behind : drop (content_start_of after) after ≡ body = content-behind fence_type body h in
    round fuel (fence ++ after) opened refl behind (find-fence content rest k)
    ∙ rw ends (
        rw
          (
            take-whole fence_type (10 ∷ body),
            take-whole content (fence ++ rest),
            drop-behind content fence rest,
          )
          refl)

-- a directive as the model writes it
unfoldable pub written : Directive → Text
written d = fence ++ (label d ++ (codes "\n" ++ (content_of d ++ (codes "\n" ++ fence))))

-- the written text, bracketed the way a round reads it
written-append :
    (d : Directive) (rest : Text)
    → written d ++ rest
      ≡ fence ++ (label d ++ 10 ∷ ((content_of d ++ codes "\n") ++ (fence ++ rest)))
unfolding written
written-append d rest = simp append_assoc refl

label-behind : (d : Directive) → All (λ c. c ≢ 10) (label d)
label-behind (code s) = omega arith
label-behind (search s) = omega arith
label-behind (question s) = omega arith
label-behind (done s) = omega arith

directive_of-label : (d : Directive) → directive_of (trim (label d)) (content_of d) ≡ some d
unfolding directive_of text_eq trim trim_start trim_end is_whitespace
directive_of-label (code s) = refl
directive_of-label (search s) = refl
directive_of-label (question s) = refl
directive_of-label (done s) = refl

written-longer : (d : Directive) (rest : Text) → length rest < length (written d ++ rest)
unfolding written
written-longer d rest = omega (arith, length-append (written d) rest)

-- Reading a written directive gives it back, and goes on behind it, where its content has no
-- backtick and is what trimming leaves of it.
pub parse-written :
    (d : Directive) (rest : Text)
    → All (λ c. c ≢ b'`') (content_of d)
    → trim (content_of d ++ codes "\n") ≡ content_of d
    → parse_directives (written d ++ rest) ≡ d ∷ parse_directives rest
unfolding parse_directives
parse-written d rest h t =
    let n : ℕ = length (written d ++ rest) in
    let more : length rest < n = written-longer d rest in
    directives_from (suc n) (written d ++ rest)
    ≡⟨ ap (directives_from (suc n)) (written-append d rest) ⟩
      directives_from (suc n)
        (fence ++ (label d ++ 10 ∷ ((content_of d ++ codes "\n") ++ (fence ++ rest))))
    ≡⟨ round-written n (label d) (content_of d ++ codes "\n") rest (label-behind d)
        (All-append _ (content_of d) _ h (omega arith)) ⟩
      pushed (directive_of (trim (label d)) (trim (content_of d ++ codes "\n")))
        (directives_from n rest)
    ≡⟨ rw t (rw (directive_of-label d) refl) ⟩ d ∷ directives_from n rest
    ≡⟨ ap (d ∷◌) (directives_from-fuel n (suc (length rest)) rest more (omega arith)) ⟩
      d ∷ directives_from (suc (length rest)) rest ∎
