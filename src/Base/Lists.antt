-- ===== src/Base/Lists.antt =====
-- Lists measured and cut by native numbers, under the library's names, and filters by a test.
use Prim.Native.Nat.{ℕ, zero, suc, ◌+◌, ◌-◌, ◌≤◌, min}
use mathlib.Core.Path.{◌≡◌, refl, ap, sym, subst, ◌∙◌}
use mathlib.Core.Logic.{◌≢◌, ◌⊎◌, inl, inr}
use mathlib.Core.Bool.{Bool, true, false}
use mathlib.Core.Option.{Option, none, some}
use mathlib.Core.List.{List, [], ◌∷◌, ◌++◌}
use native.Mathlib.Omega.{arith}
use rabb1t_claw.Base.Tests.{if◌then◌else◌, Bool-cases}

module _ {ℓ} {A : Type ℓ} where
  abbrev pub length : List A → ℕ
  length [] = 0
  length (x ∷ xs) = suc (length xs)

  abbrev pub get_elem? : List A → ℕ → Option A
  get_elem? [] i = none
  get_elem? (x ∷ xs) zero = some x
  get_elem? (x ∷ xs) (suc i) = get_elem? xs i

  abbrev pub take : ℕ → List A → List A
  take zero xs = []
  take (suc n) [] = []
  take (suc n) (x ∷ xs) = x ∷ take n xs

  abbrev pub drop : ℕ → List A → List A
  drop zero xs = xs
  drop (suc n) [] = []
  drop (suc n) (x ∷ xs) = drop n xs

  abbrev pub is_empty : List A → Bool
  is_empty [] = true
  is_empty (x ∷ xs) = false

  -- `iter().filter(p)`, and `retain(p)`
  abbrev pub retain : (A → Bool) → List A → List A
  retain p [] = []
  retain p (x ∷ xs) = if p x then x ∷ retain p xs else retain p xs

  -- `iter().filter(p).count()`
  abbrev pub count_if : (A → Bool) → List A → ℕ
  count_if p [] = 0
  count_if p (x ∷ xs) = (if p x then 1 else 0) + count_if p xs

  -- `iter().find(p)`
  abbrev pub find_first : (A → Bool) → List A → Option A
  find_first p [] = none
  find_first p (x ∷ xs) = if p x then some x else find_first p xs

  -- the change of the first item that passes, through `iter_mut().find(p)`
  abbrev pub update_first : (A → Bool) → (A → A) → List A → List A
  update_first p f [] = []
  update_first p f (x ∷ xs) = if p x then f x ∷ xs else x ∷ update_first p f xs

module _ {ℓ} {A : Type ℓ} where
  pub length-append : (xs ys : List A) → length (xs ++ ys) ≡ length xs + length ys
  length-append [] ys = omega arith
  length-append (x ∷ xs) ys = omega (arith, length-append xs ys)

  pub take-append-drop : (n : ℕ) (xs : List A) → take n xs ++ drop n xs ≡ xs
  take-append-drop zero xs = refl
  take-append-drop (suc n) [] = refl
  take-append-drop (suc n) (x ∷ xs) = ap (◌∷◌ x) (take-append-drop n xs)

  pub length-drop : (n : ℕ) (xs : List A) → length (drop n xs) ≡ length xs - n
  length-drop zero xs = omega arith
  length-drop (suc n) [] = omega arith
  length-drop (suc n) (x ∷ xs) = omega (arith, length-drop n xs)

  pub length-take : (n : ℕ) (xs : List A) → length (take n xs) ≡ min n (length xs)
  length-take zero xs = omega arith
  length-take (suc n) [] = omega arith
  length-take (suc n) (x ∷ xs) = omega (arith, length-take n xs)

  pub count_if-append :
      (p : A → Bool) (xs ys : List A) → count_if p (xs ++ ys) ≡ count_if p xs + count_if p ys
  count_if-append p [] ys = omega arith
  count_if-append p (x ∷ xs) ys = omega (arith, count_if-append p xs ys)

  pub count_if-le-length : (p : A → Bool) (xs : List A) → count_if p xs ≤ length xs
  count_if-le-length p [] = omega arith
  count_if-le-length p (x ∷ xs) = ground (arith, count_if-le-length p xs)

-- Predicates by recursion, which compute to tuples and sums.
abbrev pub All {ℓ κ} : {A : Type ℓ} → (A → Type κ) → List A → Type κ
All P [] = Unit
All P (x ∷ xs) = P x × All P xs

abbrev pub Occurs : {A : Type 0} → A → List A → Type 0
Occurs a [] = ⊥
Occurs a (x ∷ xs) = (a ≡ x) ⊎ Occurs a xs

-- no two items have one key
abbrev pub Distinct {ℓ κ} : {A : Type ℓ} {K : Type κ} → (A → K) → List A → Type κ
Distinct f [] = Unit
Distinct f (x ∷ xs) = All (λ y. f x ≢ f y) xs × Distinct f xs

pub All-append :
    {A : Type 0} (P : A → Type 0) (xs ys : List A) → All P xs → All P ys → All P (xs ++ ys)
All-append P [] ys h k = k
All-append P (x ∷ xs) ys h k = (h.0, All-append P xs ys h.1 k)

pub All-Occurs : {A : Type 0} (P : A → Type 0) (xs : List A) {a : A} → All P xs → Occurs a xs → P a
All-Occurs P [] h o = elim o [ ]
All-Occurs P (x ∷ xs) h (inl e) = subst P (sym e) h.0
All-Occurs P (x ∷ xs) h (inr o) = All-Occurs P xs h.1 o

-- items that occur and have one key are one item
pub Distinct-Occurs :
    {A : Type 0} {K : Type 0} (f : A → K) (xs : List A) {a b : A}
    → Distinct f xs
    → Occurs a xs
    → Occurs b xs
    → f a ≡ f b
    → a ≡ b
Distinct-Occurs f [] h o p e = elim o [ ]
Distinct-Occurs f (x ∷ xs) h (inl i) (inl j) e = i ∙ sym j
Distinct-Occurs f (x ∷ xs) h (inl i) (inr j) e =
    absurd (All-Occurs (λ y. f x ≢ f y) xs h.0 j (ap f (sym i) ∙ e))
Distinct-Occurs f (x ∷ xs) h (inr i) (inl j) e =
    absurd (All-Occurs (λ y. f x ≢ f y) xs h.0 i (ap f (sym j) ∙ sym e))
Distinct-Occurs f (x ∷ xs) h (inr i) (inr j) e = Distinct-Occurs f xs h.1 i j e

pub Occurs-append_left : {A : Type 0} (a : A) (xs ys : List A) → Occurs a xs → Occurs a (xs ++ ys)
Occurs-append_left a [] ys o = elim o [ ]
Occurs-append_left a (x ∷ xs) ys (inl e) = inl e
Occurs-append_left a (x ∷ xs) ys (inr o) = inr (Occurs-append_left a xs ys o)

pub Occurs-append_right : {A : Type 0} (a : A) (xs ys : List A) → Occurs a ys → Occurs a (xs ++ ys)
Occurs-append_right a [] ys o = o
Occurs-append_right a (x ∷ xs) ys o = inr (Occurs-append_right a xs ys o)

pub Occurs-append-cases :
    {A : Type 0} (a : A) (xs ys : List A) → Occurs a (xs ++ ys) → Occurs a xs ⊎ Occurs a ys
Occurs-append-cases a [] ys o = inr o
Occurs-append-cases a (x ∷ xs) ys (inl e) = inl (inl e)
Occurs-append-cases a (x ∷ xs) ys (inr o) = elim (Occurs-append-cases a xs ys o) [
  | inl p ↦ inl (inr p)
  | inr p ↦ inr p
]

pub Occurs-retain :
    {A : Type 0} (a : A) (p : A → Bool) (xs : List A)
    → Occurs a (retain p xs)
    → Occurs a xs × (p a ≡ true)
Occurs-retain a p [] o = elim o [ ]
Occurs-retain a p (x ∷ xs) o = elim (Bool-cases (p x)) [
  | inl e ↦
      let kept : Occurs a (x ∷ retain p xs) = rw e at o in
      elim kept [
        | inl same ↦ (inl same, ap p same ∙ e)
        | inr q ↦ let (r, t) = Occurs-retain a p xs q in (inr r, t)
      ]
  | inr e ↦ let (q, r) = Occurs-retain a p xs (rw e at o) in (inr q, r)
]
