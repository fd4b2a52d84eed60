-- ===== src/TaskLog/Flat.antt =====
-- Texts without line breaks: the parts of a line of src/agent/tasklog.rs.
use rabb1t_claw.Base.{
  ℕ, zero, suc, ◌+◌, ◌/◌, ◌%◌, Bool, true, not, ◌&&◌, List, [], ◌∷◌, ◌++◌, map, ◌≡◌, inl, inr,
  arith, Text, All, Bool-cases, ◌==◌,
}
use rabb1t_claw.Agent.Background.{decimal, decimal_from}
use rabb1t_claw.TaskLog.Lines.{Avoids, Avoids-append}

unfoldable pub lacks : ℕ → Text → Bool
lacks c [] = true
lacks c (x ∷ xs) = not (x == c) && lacks c xs

pub lacks-Avoids : (c : ℕ) (t : Text) → lacks c t ≡ true → Avoids c t
unfolding lacks
lacks-Avoids c [] h = tt
lacks-Avoids c (x ∷ xs) h = elim (Bool-cases (x == c)) [
  | inl e ↦ ground (arith, e, h)
  | inr e ↦ (ground (arith, e), lacks-Avoids c xs (ground (arith, e, h)))
]

-- neither line breaks nor carriage returns
abbrev pub IsFlat : Text → Type 0
IsFlat t = Avoids 10 t × Avoids 13 t

pub lacks-IsFlat : (t : Text) → lacks 10 t ≡ true → lacks 13 t ≡ true → IsFlat t
lacks-IsFlat t h g = (lacks-Avoids 10 t h, lacks-Avoids 13 t g)

pub IsFlat-append : (s t : Text) → IsFlat s → IsFlat t → IsFlat (s ++ t)
IsFlat-append s t h g = (Avoids-append 10 s t h.0 g.0, Avoids-append 13 s t h.1 g.1)

digit-IsFlat : (d : ℕ) → IsFlat ((48 + d) ∷ [])
digit-IsFlat d = ((omega arith, tt), (omega arith, tt))

decimal_from-IsFlat : (fuel n : ℕ) → IsFlat (decimal_from fuel n)
decimal_from-IsFlat zero n = (tt, tt)
decimal_from-IsFlat (suc fuel) n = elim (Bool-cases ((n / 10) == 0)) [
  | inl e ↦ rw e (digit-IsFlat (n % 10))
  | inr e ↦ rw e (
      IsFlat-append (decimal_from fuel (n / 10)) ((48 + n % 10) ∷ [])
        (decimal_from-IsFlat fuel (n / 10)) (digit-IsFlat (n % 10)))
]

pub decimal-IsFlat : (n : ℕ) → IsFlat (decimal n)
unfolding decimal
decimal-IsFlat n = decimal_from-IsFlat 20 n

pub All-map :
    {A B : Type 0} (P : A → Type 0) (Q : B → Type 0) (f : A → B)
    → ((a : A) → P a → Q (f a))
    → (xs : List A) → All P xs
    → All Q (map f xs)
All-map P Q f h [] k = tt
All-map P Q f h (x ∷ xs) k = (h x k.0, All-map P Q f h xs k.1)
