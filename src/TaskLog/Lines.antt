-- ===== src/TaskLog/Lines.antt =====
-- Writing lines to a text and reading them back.
use rabb1t_claw.Base.{
  ℕ, false, not, List, [], ◌∷◌, ◌++◌, inl, inr, ◌≡◌, ◌≢◌, refl, ap, ◌∙◌, sym, arith, Text, codes,
  join, is_empty, All, retain, Bool-cases, append-nil, append_assoc, ◌==◌, subst,
}
use rabb1t_claw.TaskLog.{chomp, lines_from, entries}

abbrev pub Avoids : ℕ → Text → Type 0
Avoids c t = All (λ x. x ≢ c) t

-- a line that can be read back
abbrev pub IsEntry : Text → Type 0
IsEntry l = Avoids 10 l × Avoids 13 l × (is_empty l ≡ false)

pub Avoids-append : (k : ℕ) (s t : Text) → Avoids k s → Avoids k t → Avoids k (s ++ t)
Avoids-append k [] t h g = g
Avoids-append k (x ∷ xs) t h g = (h.0, Avoids-append k xs t h.1 g)

pub chomp_same : (l : Text) → Avoids 13 l → chomp l ≡ l
unfolding chomp
chomp_same [] h = refl
chomp_same (c ∷ []) h = ground arith
chomp_same (c ∷ d ∷ cs) h = ap (c ∷◌) (chomp_same (d ∷ cs) h.1)

chomp-Avoids : (k : ℕ) (l : Text) → Avoids k l → Avoids k (chomp l)
unfolding chomp
chomp-Avoids k [] h = h
chomp-Avoids k (c ∷ []) h = elim (Bool-cases (c == 13)) [ inl e ↦ rw e tt | inr e ↦ rw e h ]
chomp-Avoids k (c ∷ d ∷ cs) h = (h.0, chomp-Avoids k (d ∷ cs) h.1)

pub lines_from-line :
    (acc l rest : Text)
    → Avoids 10 l
    → lines_from acc (l ++ 10 ∷ rest) ≡ chomp (acc ++ l) ∷ lines_from [] rest
unfolding lines_from
lines_from-line acc [] rest h = rw (append-nil acc) refl
lines_from-line acc (c ∷ cs) rest h = elim (Bool-cases (c == 10)) [
  | inl e ↦ ground (arith, h.0)
  | inr e ↦
      rw (lines_from, e)
        (lines_from-line (acc ++ c ∷ []) cs rest h.1
          ∙ ap (λ t. chomp t ∷ lines_from [] rest) (append_assoc acc (c ∷ []) cs))
]

abbrev unlines : List Text → Text
unlines [] = []
unlines (l ∷ ls) = l ++ 10 ∷ unlines ls

lines_from-unlines : (ls : List Text) → All IsEntry ls → lines_from [] (unlines ls) ≡ ls
unfolding lines_from
lines_from-unlines [] h = refl
lines_from-unlines (l ∷ ls) h =
    lines_from-line [] l (unlines ls) h.0.0
    ∙ (ap (◌∷ lines_from [] (unlines ls)) (chomp_same l h.0.1)
        ∙ ap (l ∷◌) (lines_from-unlines ls h.1))

join-unlines :
    (l : Text) (ls : List Text) → join (codes "\n") (l ∷ ls) ++ codes "\n" ≡ unlines (l ∷ ls)
unfolding join
join-unlines l [] = refl
join-unlines l (m ∷ ls) =
    append_assoc l (10 ∷ join (codes "\n") (m ∷ ls)) (codes "\n")
    ∙ ap (λ t. l ++ 10 ∷ t) (join-unlines m ls)

retain-entries : (ls : List Text) → All IsEntry ls → retain (λ l. not (is_empty l)) ls ≡ ls
retain-entries [] h = refl
retain-entries (l ∷ ls) h = rw h.0.2 (ap (l ∷◌) (retain-entries ls h.1))

pub entries-written :
    (ls : List Text) → All IsEntry ls → entries (join (codes "\n") ls ++ codes "\n") ≡ ls
unfolding entries lines_from join chomp
entries-written [] h = refl
entries-written (l ∷ ls) h =
    ap entries (join-unlines l ls)
    ∙ (ap (retain (λ x. not (is_empty x))) (lines_from-unlines (l ∷ ls) h)
        ∙ retain-entries (l ∷ ls) h)

-- a line as it is read, which may be empty
abbrev pub IsLine : Text → Type 0
IsLine l = Avoids 10 l × Avoids 13 l

lines_from-IsLine : (acc t : Text) → IsLine acc → Avoids 13 t → All IsLine (lines_from acc t)
unfolding lines_from
lines_from-IsLine acc [] a h = elim (Bool-cases (is_empty acc)) [
  | inl e ↦ rw e tt
  | inr e ↦ rw e (a, tt)
]
lines_from-IsLine acc (c ∷ cs) a h = elim (Bool-cases (c == 10)) [
  | inl e ↦
      rw (lines_from, e)
        ((chomp-Avoids 10 acc a.0, chomp-Avoids 13 acc a.1), lines_from-IsLine [] cs (tt, tt) h.1)
  | inr e ↦
      rw (lines_from, e)
        (lines_from-IsLine (acc ++ c ∷ []) cs
          (
            Avoids-append 10 acc (c ∷ []) a.0 (ground arith, tt),
            Avoids-append 13 acc (c ∷ []) a.1 (h.0, tt),
          )
          h.1)
]

retain-IsEntry : (ls : List Text) → All IsLine ls → All IsEntry (retain (λ l. not (is_empty l)) ls)
retain-IsEntry [] h = tt
retain-IsEntry (l ∷ ls) h = elim (Bool-cases (is_empty l)) [
  | inl e ↦ rw e (retain-IsEntry ls h.1)
  | inr e ↦ rw e ((h.0.0, h.0.1, e), retain-IsEntry ls h.1)
]

pub entries-IsEntry : (t : Text) → Avoids 13 t → All IsEntry (entries t)
unfolding entries
entries-IsEntry t h = retain-IsEntry (lines_from [] t) (lines_from-IsLine [] t (tt, tt) h)

pub written-Avoids :
    (ls : List Text) → All IsEntry ls → Avoids 13 (join (codes "\n") ls ++ codes "\n")
unfolding join
written-Avoids [] h = (ground arith, tt)
written-Avoids (l ∷ ls) h = subst (Avoids 13) (sym (join-unlines l ls)) (go (l ∷ ls) h)
  where
    go : (ls : List Text) → All IsEntry ls → Avoids 13 (unlines ls)
    go [] h = tt
    go (l ∷ ls) h = Avoids-append 13 l (10 ∷ unlines ls) h.0.1 (ground arith, go ls h.1)
