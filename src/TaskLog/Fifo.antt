-- ===== src/TaskLog/Fifo.antt =====
-- The log of a device over a sequence of events, against a queue of their lines.
use Prim.Native.Nat.{zero, suc, min}
use rabb1t_claw.Base.{
  ℕ, ◌+◌, ◌-◌, ◌≤◌, Bool, true, false, Option, none, some, List, [], ◌∷◌, ◌++◌, map, ◌⊎◌, inl, inr,
  ◌≡◌, ◌≢◌, refl, ap, ◌∙◌, sym, arith, Text, codes, join, All, Bool-cases, ◌==◌, subst, length,
  drop, ltb, if◌then◌else◌, unwrap_or, take, take-append-drop, drop-append, drop-drop, length-drop,
  length-append,
}
use rabb1t_claw.TaskLog.{append, entries, keep_last, event_line, lines_from}
use rabb1t_claw.TaskLog.Lines.{
  Avoids, IsEntry, Avoids-append, entries-written, entries-IsEntry, written-Avoids,
}

module _ {A : Type 0} (P : A → Type 0) where
  All-snoc : (xs : List A) (y : A) → All P xs → P y → All P (xs ++ y ∷ [])
  All-snoc [] y h p = (p, tt)
  All-snoc (x ∷ xs) y h p = (h.0, All-snoc xs y h.1 p)

  All-drop : (n : ℕ) (xs : List A) → All P xs → All P (drop n xs)
  All-drop zero xs h = h
  All-drop (suc n) [] h = h
  All-drop (suc n) (x ∷ xs) h = All-drop n xs h.1

pub keep_last-drop : (n : ℕ) (ls : List Text) → keep_last n ls ≡ drop (length ls - n) ls
unfolding keep_last
keep_last-drop n ls = elim (Bool-cases (ltb n (length ls))) [
  | inl e ↦ rw e refl
  | inr e ↦ rw e (ap (λ k. drop k ls) (let z : 0 ≡ length ls - n = ground arith in z))
]

keep_last-keep_last :
    (n : ℕ) (xs : List Text) (y : Text)
    → keep_last n (keep_last n xs ++ y ∷ []) ≡ keep_last n (xs ++ y ∷ [])
keep_last-keep_last n xs y =
    let k = length xs - n in
    let le : k ≤ length xs = omega arith in
    let snoc : keep_last n xs ++ y ∷ [] ≡ drop k (xs ++ y ∷ []) =
      ap (◌++ y ∷ []) (keep_last-drop n xs) ∙ sym (drop-append k xs (y ∷ []) le) in
    let same : k + (length (drop k (xs ++ y ∷ [])) - n) ≡ length (xs ++ y ∷ []) - n =
      omega (arith, length-drop k (xs ++ y ∷ []), length-append xs (y ∷ [])) in
    ap (keep_last n) snoc
    ∙ (keep_last-drop n (drop k (xs ++ y ∷ []))
        ∙ (drop-drop k (length (drop k (xs ++ y ∷ [])) - n) (xs ++ y ∷ [])
            ∙ (ap (λ i. drop i (xs ++ y ∷ [])) same ∙ sym (keep_last-drop n (xs ++ y ∷ [])))))

-- the time, the text of the event, and whether the file could be written
abbrev pub Event : Type 0
Event = Text × Text × Bool

-- The clock prints no line break, and the text has no carriage return.
abbrev pub IsPlain : Event → Type 0
IsPlain (ts, event, written) = Avoids 10 ts × Avoids 13 ts × Avoids 13 event

flat-Avoids :
    (k : ℕ) (event : Text)
    → 32 ≢ k
    → (k ≡ 10) ⊎ Avoids k event
    → Avoids k (map (λ c. if c == 10 then 32 else c) event)
flat-Avoids k [] ne h = tt
flat-Avoids k (c ∷ cs) ne (inl e) = (ground arith, flat-Avoids k cs ne (inl e))
flat-Avoids k (c ∷ cs) ne (inr a) = (ground (arith, a.0), flat-Avoids k cs ne (inr a.1))

event_line-IsEntry :
    (ts event : Text)
    → Avoids 10 ts
    → Avoids 13 ts
    → Avoids 13 event
    → IsEntry (event_line ts event)
unfolding event_line
event_line-IsEntry ts event t10 t13 e13 =
    let flat = map (λ c. if c == 10 then 32 else c) event in
    (
      (
        ground arith,
        Avoids-append 10 ts (codes "] " ++ flat) t10
            (ground arith, (ground arith, flat-Avoids 10 event (ground arith) (inl refl))),
      ),
      (
        ground arith,
        Avoids-append 13 ts (codes "] " ++ flat) t13
            (ground arith, (ground arith, flat-Avoids 13 event (ground arith) (inr e13))),
      ),
      refl,
    )

abbrev pub content_of : Option Text → Text
content_of file = unwrap_or file []

kept-IsEntry :
    (n : ℕ) (file : Option Text) (ts event : Text)
    → Avoids 13 (content_of file)
    → IsEntry (event_line ts event)
    → All IsEntry (keep_last n (entries (content_of file) ++ event_line ts event ∷ []))
kept-IsEntry n file ts event h e =
    let lines = entries (content_of file) ++ event_line ts event ∷ [] in
    subst (All IsEntry) (sym (keep_last-drop n lines)) (
      All-drop IsEntry (length lines - n) lines (
        All-snoc IsEntry (entries (content_of file)) (event_line ts event)
          (entries-IsEntry (content_of file) h) e))

-- the log after the events in turn
unfoldable pub append_all : Option Text → List Event → ℕ → Option Text
append_all file [] max_entries = file
append_all file ((ts, event, written) ∷ events) max_entries =
    append_all (append file ts event max_entries written) events max_entries

-- the lines of the events whose file could be written, behind those given
unfoldable pub lines_of : List Text → List Event → List Text
lines_of lines [] = lines
lines_of lines ((ts, event, true) ∷ events) = lines_of (lines ++ event_line ts event ∷ []) events
lines_of lines ((ts, event, false) ∷ events) = lines_of lines events

append_all-from :
    (n : ℕ) (file : Option Text) (lines : List Text) (events : List Event)
    → Avoids 13 (content_of file)
    → entries (content_of file) ≡ keep_last n lines
    → All IsPlain events
    → entries (content_of (append_all file events n)) ≡ keep_last n (lines_of lines events)
unfolding append_all lines_of append
append_all-from n file lines [] a e h = e
append_all-from n file lines ((ts, event, false) ∷ events) a e h =
    append_all-from n file lines events a e h.1
append_all-from n file lines ((ts, event, true) ∷ events) a e h =
    let line = event_line ts event in
    let kept = keep_last n (entries (content_of file) ++ line ∷ []) in
    let all = kept-IsEntry n file ts event a (event_line-IsEntry ts event h.0.0 h.0.1 h.0.2) in
    append_all-from n (some (join (codes "\n") kept ++ codes "\n")) (lines ++ line ∷ []) events
      (written-Avoids kept all)
      (entries-written kept all
        ∙ (ap (λ ls. keep_last n (ls ++ line ∷ [])) e ∙ keep_last-keep_last n lines line))
      h.1

no_entries : (n : ℕ) → entries [] ≡ keep_last n []
unfolding entries keep_last lines_from
no_entries n = ground arith

-- the last items of a list, as many as there are up to the bound
abbrev pub IsLast : ℕ → List Text → List Text → Type 0
IsLast n kept lines =
    (take (length lines - length kept) lines ++ kept ≡ lines) × (length kept ≡ min n (length lines))

pub keep_last-IsLast : (n : ℕ) (lines : List Text) → IsLast n (keep_last n lines) lines
keep_last-IsLast n lines =
    let k = length lines - n in
    let cut = length-drop k lines in
    let same : length lines - length (drop k lines) ≡ k = omega (arith, cut) in
    subst (λ kept. IsLast n kept lines) (sym (keep_last-drop n lines))
      (ap (λ i. take i lines ++ drop k lines) same ∙ take-append-drop k lines, omega (arith, cut))

-- After any events, of which the time holds no line break and the text no carriage return, a log
-- that was empty has as its lines the last `max_entries` lines, or all if there are fewer, of the
-- events whose file could be written, in their order, each as one line.
pub append_all-IsLast :
    (max_entries : ℕ) (events : List Event)
    → All IsPlain events
    → IsLast max_entries
        (entries (content_of (append_all none events max_entries)))
        (lines_of [] events)
append_all-IsLast n events h =
    subst (λ kept. IsLast n kept (lines_of [] events))
      (sym (append_all-from n none [] events tt (no_entries n) h))
      (keep_last-IsLast n (lines_of [] events))
