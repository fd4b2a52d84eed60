-- ===== src/Agent/Memory/Due.antt =====
-- src/agent/memory.rs: when an update is due and what is asked then, in their own terms.
use Prim.Native.Nat.{min}
use native.Mathlib.Nat.{div-add-mod', mod-lt}
use rabb1t_claw.Base.{
  ℕ, zero, suc, ◌+◌, ◌-◌, ◌*◌, ◌/◌, ◌%◌, ◌<◌, true, false, ◌⊎◌, Option, none, some, List, [], ◌∷◌,
  ◌++◌, map, inl, inr, ◌≡◌, ◌≢◌, refl, sym, append_assoc, ap, ◌∙◌, ltb, Text, codes, concat,
  text_eq, text_eq_iff, trim, is_empty, length, take, take-append-drop, length-drop, Bool-cases,
  arith,
}
use rabb1t_claw.Agent.Memory.{empty_sentinel}
use rabb1t_claw.Agent.Memory.Update.{
  is_due, recent, turn_lines, format_turns_for_subagent, is_nothing,
}
use rabb1t_claw.Session.{ConversationTurn}

-- The turns are a multiple of the interval, and there are some.
abbrev pub IsDue : ℕ → ℕ → Type 0
IsDue turns interval = (k : ℕ) × (turns ≡ k * interval) × (0 < turns) × (0 < interval)

abbrev pub IsEarly : ℕ → ℕ → Type 0
IsEarly turns interval =
    (turns ≡ 0)
    ⊎ ((interval ≡ 0) ⊎ ((k : ℕ) × (r : ℕ) × (turns ≡ k * interval + r) × (0 < r) × (r < interval)))

pub is_due-true : (turns interval : ℕ) → is_due turns interval ≡ true → IsDue turns interval
unfolding is_due
is_due-true turns zero h = ground arith
is_due-true zero (suc n) h = ground arith
is_due-true (suc t) (suc n) h =
    let left = div-add-mod' (suc t) (suc n) in
    let exact : suc t % suc n ≡ 0 = ground arith in
    (suc t / suc n, sym left ∙ rw exact (omega arith), omega arith, omega arith)

pub is_due-false : (turns interval : ℕ) → is_due turns interval ≡ false → IsEarly turns interval
unfolding is_due
is_due-false turns zero h = inr (inl refl)
is_due-false zero (suc n) h = inl refl
is_due-false (suc t) (suc n) h =
    let over : (suc t % suc n) ≢ 0 = ground arith in
    inr (
      inr (
        suc t / suc n,
        suc t % suc n,
        sym (div-add-mod' (suc t) (suc n)),
        omega (arith, over),
        mod-lt (suc t) (omega arith),
      ))

-- the last turns, twice as many as the interval, or all
abbrev pub AreRecent : ℕ → List ConversationTurn → List ConversationTurn → Type 0
AreRecent interval history turns =
    (front : List ConversationTurn) × (front ++ turns ≡ history)
    × (length turns ≡ min (interval * 2) (length history))

pub recent-AreRecent :
    (interval : ℕ) (history : List ConversationTurn)
    → AreRecent interval history (recent interval history)
unfolding recent
recent-AreRecent interval history = elim (Bool-cases (ltb (interval * 2) (length history))) [
  | inl e ↦
      let k = length history - interval * 2 in
      rw e (take k history, take-append-drop k history, ground (arith, length-drop k history))
  | inr e ↦ rw e ([], refl, ground arith)
]

-- what the model is asked: the memory before, if there is one, and the turns with their roles
abbrev turn_text : ConversationTurn → Text
turn_text t = codes "**" ++ (t.role ++ (codes "**: " ++ (t.content ++ codes "\n\n")))

abbrev memory_text : Option Text → Text
memory_text none = []
memory_text (some mem) = codes "## Existing Memory\n\n" ++ (mem ++ codes "\n\n---\n\n")

abbrev pub question_of : List ConversationTurn → Option Text → Text
question_of turns mem =
    memory_text mem ++ (codes "## Recent Exchanges\n\n" ++ concat (map turn_text turns))

turn_lines_lem : (turns : List ConversationTurn) → turn_lines turns ≡ concat (map turn_text turns)
turn_lines_lem [] = refl
turn_lines_lem (t ∷ ts) = rw (turn_lines_lem ts) (simp append_assoc refl)

pub format_lem :
    (turns : List ConversationTurn) (mem : Option Text)
    → format_turns_for_subagent turns mem ≡ question_of turns mem
unfolding format_turns_for_subagent
format_lem turns none = ap (codes "## Recent Exchanges\n\n" ++◌) (turn_lines_lem turns)
format_lem turns (some mem) =
    ap (λ t. memory_text (some mem) ++ (codes "## Recent Exchanges\n\n" ++ t))
      (turn_lines_lem turns)

-- Nothing is worth remembering.
abbrev pub IsNothing : Text → Type 0
IsNothing raw = (trim raw ≡ codes "<!-- empty -->") ⊎ (trim raw ≡ [])

is_empty_of : (t : Text) → is_empty t ≡ true → t ≡ []
is_empty_of [] h = refl
is_empty_of (c ∷ cs) h = ground arith

pub is_nothing-true : (raw : Text) → is_nothing raw ≡ true → IsNothing raw
is_nothing-true raw h = elim (Bool-cases (text_eq (trim raw) empty_sentinel)) [
  | inl e ↦ inl ((text_eq_iff (trim raw) empty_sentinel).0 e)
  | inr e ↦ inr (is_empty_of (trim raw) (rw e at h))
]

pub is_nothing-false : (raw : Text) → is_nothing raw ≡ false → IsNothing raw → ⊥
is_nothing-false raw h (inl e) = ground (arith, h, (text_eq_iff (trim raw) empty_sentinel).1 e)
is_nothing-false raw h (inr e) = ground (arith, h, ap is_empty e)
