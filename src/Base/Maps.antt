-- ===== src/Base/Maps.antt =====
-- A `HashMap` with text keys, as the list of its entries in the order in which it is iterated.
use mathlib.Core.Path.{◌≡◌, refl, subst, sym, ap}
use mathlib.Core.Logic.{◌≢◌, inl, inr}
use mathlib.Core.Option.{Option, none, some}
use mathlib.Core.List.{List, [], ◌∷◌}
use native.Mathlib.Omega.{arith}
use rabb1t_claw.Base.Tests.{if◌then◌else◌, Bool-cases}
use rabb1t_claw.Base.Lists.{All, Distinct, Occurs}
use rabb1t_claw.Base.Texts.{Text, text_eq, text_eq_iff, text_eq_refl}

abbrev pub TextMap {ℓ} : Type ℓ → Type ℓ
TextMap V = List (Text × V)

module _ {ℓ} {V : Type ℓ} where
  unfoldable pub lookup : Text → TextMap V → Option V
  lookup k [] = none
  lookup k ((j, v) ∷ m) = if text_eq j k then some v else lookup k m

  unfoldable pub insert : Text → V → TextMap V → TextMap V
  insert k v [] = (k, v) ∷ []
  insert k v ((j, w) ∷ m) = if text_eq j k then (k, v) ∷ m else (j, w) ∷ insert k v m

  -- a key stands in one entry at most
  unfoldable pub remove : Text → TextMap V → TextMap V
  remove k [] = []
  remove k ((j, w) ∷ m) = let rest = remove k m in if text_eq j k then rest else (j, w) ∷ rest

  unfoldable pub values : TextMap V → List V
  values [] = []
  values ((j, v) ∷ m) = v ∷ values m

module _ {ℓ} {V : Type ℓ} where
  pub lookup-insert :
      (k j : Text) (v : V) (m : TextMap V)
      → lookup j (insert k v m) ≡ (if text_eq k j then some v else lookup j m)
  unfolding lookup insert
  lookup-insert k j v [] = refl
  lookup-insert k j v ((i, w) ∷ m) =
      ground (arith, text_eq_iff k j, text_eq_iff i k, text_eq_iff i j, lookup-insert k j v m)

  pub lookup-insert_self : (k : Text) (v : V) (m : TextMap V) → lookup k (insert k v m) ≡ some v
  lookup-insert_self k v m = simp (lookup-insert, text_eq_refl)

  pub lookup-remove :
      (k j : Text) (m : TextMap V)
      → lookup j (remove k m) ≡ (if text_eq k j then none else lookup j m)
  unfolding lookup remove
  lookup-remove k j [] = ground arith
  lookup-remove k j ((i, w) ∷ m) =
      ground (arith, text_eq_iff k j, text_eq_iff i k, text_eq_iff i j, lookup-remove k j m)

  pub lookup-absent : (k : Text) (m : TextMap V) → All (λ e. k ≢ e.0) m → lookup k m ≡ none
  unfolding lookup
  lookup-absent k [] h = refl
  lookup-absent k ((j, v) ∷ m) h = ground (arith, text_eq_iff j k, h.0, lookup-absent k m h.1)

  All-key-insert :
      (k j : Text) (v : V) (m : TextMap V)
      → k ≢ j
      → All (λ e. k ≢ e.0) m
      → All (λ e. k ≢ e.0) (insert j v m)
  unfolding insert
  All-key-insert k j v [] ne h = (ne, tt)
  All-key-insert k j v ((i, w) ∷ m) ne h = elim (Bool-cases (text_eq i j)) [
    | inl e ↦ rw e (ne, h.1)
    | inr e ↦ rw e (h.0, All-key-insert k j v m ne h.1)
  ]

  -- insertion keeps the keys of a map distinct
  pub Distinct-insert :
      (k : Text) (v : V) (m : TextMap V)
      → Distinct (λ e. e.0) m
      → Distinct (λ e. e.0) (insert k v m)
  unfolding insert
  Distinct-insert k v [] h = (tt, tt)
  Distinct-insert k v ((i, w) ∷ m) h = elim (Bool-cases (text_eq i k)) [
    | inl e ↦ rw e (subst (λ x. All (λ y. x ≢ y.0) m) ((text_eq_iff i k).0 e) h.0, h.1)
    | inr e ↦
        let ne : i ≢ k = λ q. ground (arith, text_eq_iff i k) in
        rw e (All-key-insert i k v m ne h.0, Distinct-insert k v m h.1)
  ]

module _ {V : Type 0} where
  pub lookup-Occurs : (k : Text) (m : TextMap V) {v : V} → lookup k m ≡ some v → Occurs v (values m)
  unfolding lookup values
  lookup-Occurs k [] h = cc
  lookup-Occurs k ((j, w) ∷ m) h = elim (Bool-cases (text_eq j k)) [
    | inl x ↦ inl (ground arith)
    | inr x ↦ inr (lookup-Occurs k m (rw x at h))
  ]

  -- with distinct keys, each value is found under its own
  pub Occurs-lookup :
      (m : TextMap V) (v : V)
      → Distinct (λ e. e.0) m
      → Occurs v (values m)
      → (k : Text) × (lookup k m ≡ some v)
  unfolding lookup values
  Occurs-lookup [] v h o = elim o [ ]
  Occurs-lookup ((j, w) ∷ m) v h (inl e) = (j, rw (text_eq_refl j) (ap some (sym e)))
  Occurs-lookup ((j, w) ∷ m) v h (inr o) =
      let (k, found) = Occurs-lookup m v h.1 o in
      (
        k,
        elim (Bool-cases (text_eq j k)) [
          | inl x ↦
              let absent = lookup-absent j m h.0 in
              absurd (ground (arith, text_eq_iff j k, ap (λ i. lookup i m) ((text_eq_iff j k).0 x)))
          | inr x ↦ rw x found
        ],
      )
