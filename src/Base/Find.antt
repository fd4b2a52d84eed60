-- ===== src/Base/Find.antt =====
-- Laws of `starts_with` and `find`, and of cutting lists.
use Prim.Native.Nat.{ℕ, zero, suc, ◌+◌, ◌≤◌, ◌<◌}
use mathlib.Core.Path.{◌≡◌, refl, ap, sym, ◌∙◌}
use mathlib.Core.Logic.{◌⊎◌, inl, inr}
use mathlib.Core.Bool.{true}
use mathlib.Core.Option.{some}
use mathlib.Core.List.{List, [], ◌∷◌, ◌++◌, append_assoc}
use native.Mathlib.Omega.{arith}
use rabb1t_claw.Base.Tests.{Bool-cases, Option-cases}
use rabb1t_claw.Base.Lists.{get_elem?, length, take, drop}
use rabb1t_claw.Base.Texts.{concat, Text, starts_with, find}

module _ {ℓ} {A : Type ℓ} where
  pub drop-append : (n : ℕ) (xs ys : List A) → n ≤ length xs → drop n (xs ++ ys) ≡ drop n xs ++ ys
  drop-append zero xs ys h = refl
  drop-append (suc n) [] ys h = absurd (omega arith)
  drop-append (suc n) (x ∷ xs) ys h = drop-append n xs ys (omega arith)

  pub take-append : (n : ℕ) (xs ys : List A) → n ≤ length xs → take n (xs ++ ys) ≡ take n xs
  take-append zero xs ys h = refl
  take-append (suc n) [] ys h = absurd (omega arith)
  take-append (suc n) (x ∷ xs) ys h = ap (◌∷◌ x) (take-append n xs ys (omega arith))

  pub drop-nil : (n : ℕ) → drop {A = A} n [] ≡ []
  drop-nil zero = refl
  drop-nil (suc n) = refl

  pub drop-drop : (m n : ℕ) (xs : List A) → drop n (drop m xs) ≡ drop (m + n) xs
  drop-drop zero n xs = ap (λ k. drop k xs) (omega arith)
  drop-drop (suc m) n [] = drop-nil n ∙ sym (drop-nil (suc m + n))
  drop-drop (suc m) n (x ∷ xs) =
      drop-drop m n xs
      ∙ ap (λ k. drop k (x ∷ xs)) (let e : suc (m + n) ≡ suc m + n = omega arith in e)

  pub drop-length : (xs : List A) → drop (length xs) xs ≡ []
  drop-length [] = refl
  drop-length (x ∷ xs) = drop-length xs

module _ {ℓ} {A : Type ℓ} where
  pub drop-past : (n : ℕ) (xs : List A) → length xs ≤ n → drop n xs ≡ []
  drop-past zero [] h = refl
  drop-past zero (x ∷ xs) h = absurd (omega arith)
  drop-past (suc n) [] h = refl
  drop-past (suc n) (x ∷ xs) h = drop-past n xs (omega arith)

pub starts_with-length : (t n : Text) → starts_with t n ≡ true → length n ≤ length t
unfolding starts_with
starts_with-length t [] h = omega arith
starts_with-length [] (x ∷ n) h = ground arith
starts_with-length (c ∷ t) (x ∷ n) h = ground (arith, starts_with-length t n)

pub starts_with-eq : (t n : Text) → starts_with t n ≡ true → t ≡ n ++ drop (length n) t
unfolding starts_with
starts_with-eq t [] h = refl
starts_with-eq [] (x ∷ n) h = ground arith
starts_with-eq (c ∷ t) (x ∷ n) h = ground (arith, starts_with-eq t n)

pub starts_with-append_long :
    (t u n : Text) → length n ≤ length t → starts_with (t ++ u) n ≡ starts_with t n
unfolding starts_with
starts_with-append_long t u [] h = ground arith
starts_with-append_long [] u (x ∷ n) h = absurd (omega arith)
starts_with-append_long (c ∷ t) u (x ∷ n) h = ground (arith, starts_with-append_long t u n)

pub starts_with-append_mono :
    (t u n : Text) → starts_with t n ≡ true → starts_with (t ++ u) n ≡ true
starts_with-append_mono t u n h = starts_with-append_long t u n (starts_with-length t n h) ∙ h

-- A match that reaches into what follows `t` began as a match of all of `t`.
pub starts_with-append_split :
    (t u n : Text)
    → starts_with (t ++ u) n ≡ true
    → (starts_with t n ≡ true) ⊎ (starts_with n t ≡ true)
unfolding starts_with
starts_with-append_split t u [] h = inl (ground arith)
starts_with-append_split [] u (x ∷ n) h = inr refl
starts_with-append_split (c ∷ t) u (x ∷ n) h = ground (arith, starts_with-append_split t u n)

pub find-length : (n t : Text) {a : ℕ} → find n t ≡ some a → a + length n ≤ length t
unfolding find starts_with
find-length n [] h = ground (arith, starts_with-length [] n)
find-length n (c ∷ t) {a} h = elim (Bool-cases (starts_with (c ∷ t) n)) [
  | inl e ↦ ground (arith, starts_with-length (c ∷ t) n e)
  | inr e ↦ elim (Option-cases (find n t)) [
    | inl p ↦ ground arith
    | inr (b, p) ↦ ground (arith, find-length n t p)
  ]
]

module _ {ℓ} {A : Type ℓ} where
  pub uncons_drop :
      (n : ℕ) (t : List A)
      → n < length t
      → (c : A) × (cs : List A) × (drop n t ≡ c ∷ cs)
        × (drop (n + 1) t ≡ cs)
        × (get_elem? t n ≡ some c)
  uncons_drop n [] h = absurd (omega arith)
  uncons_drop zero (c ∷ cs) h = (c, cs, refl, refl, refl)
  uncons_drop (suc n) (c ∷ cs) h =
      let (d, ds, p, q, r) = uncons_drop n cs (omega arith) in
      let e : suc n + 1 ≡ suc (n + 1) = omega arith in
      (d, ds, p, ap (λ k. drop k (c ∷ cs)) e ∙ q, r)

pub concat-append : (xs ys : List Text) → concat (xs ++ ys) ≡ concat xs ++ concat ys
concat-append [] ys = refl
concat-append (x ∷ xs) ys =
    ap (◌++◌ x) (concat-append xs ys) ∙ sym (append_assoc x (concat xs) (concat ys))
