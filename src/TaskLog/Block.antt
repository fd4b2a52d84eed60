-- ===== src/TaskLog/Block.antt =====
-- src/agent/tasklog.rs, `build_task_context`: the block of a request, with the log of the device and
-- its running tasks.
use rabb1t_claw.Base.{
  ℕ, ◌-◌, ◌≤◌, Option, none, some, List, [], ◌∷◌, ◌++◌, map, ◌≡◌, refl, ap, ◌∙◌, sym, arith, Text,
  codes, join, All, Bool-cases, inl, inr, ◌==◌, length, drop, drop-append, length-append, map_or,
  is_empty, if◌then◌else◌, append-nil, append_assoc, false,
}
use rabb1t_claw.Agent.Background.{decimal}
use rabb1t_claw.State.{GatewayState}
use rabb1t_claw.TaskLog.{chomp, lines_from, keep_last, read}
use rabb1t_claw.TaskLog.Fifo.{keep_last-drop}
use rabb1t_claw.TaskLog.Lines.{Avoids, IsEntry, chomp_same, lines_from-line}
use rabb1t_claw.Tracker.{
  TrackedItem, AdvancedTaskStatus, needs_input, get_running, code_status, search_status,
  advanced_status,
}

unfoldable pub live_line : {S : Type 0} → Text → Text → TrackedItem S → Text
live_line kind detail t =
    codes "[live] running #"
    ++ (decimal t.id
        ++ (kind ++ (codes " — " ++ (t.description ++ (codes " (" ++ (detail ++ codes ")"))))))

unfoldable pub elapsed_secs : {S : Type 0} → ℕ → TrackedItem S → Text
elapsed_secs now t = decimal (now - t.started_at) ++ codes "s"

unfoldable pub status_detail : ℕ → TrackedItem AdvancedTaskStatus → AdvancedTaskStatus → Text
status_detail now t (needs_input question) = codes "asking: " ++ question
status_detail now t (AdvancedTaskStatus.running step detail) =
    codes "step "
    ++ (decimal step ++ (codes ": " ++ (detail ++ (codes ", " ++ elapsed_secs now t))))
status_detail now t _ = elapsed_secs now t

unfoldable pub live_lines : GatewayState → Text → ℕ → List Text
live_lines s prefix now =
    map (λ t. live_line (codes " code") (elapsed_secs now t) t) (get_running s.code_tasks prefix)
    ++ (map (λ t. live_line (codes " search") (elapsed_secs now t) t)
          (get_running s.search_queries prefix)
        ++ map (λ t. live_line (codes " advanced") (status_detail now t t.status) t)
            (get_running s.advanced_tasks prefix))

unfoldable pub parts : Option Text → List Text → List Text
parts log live =
    map_or log [] (λ text. text ∷ []) ++ (if is_empty live then [] else join (codes "\n") live ∷ [])

-- the log file, the tasks, and the clock
unfoldable pub build_task_context : GatewayState → Option Text → Text → ℕ → ℕ → Option Text
build_task_context s file prefix max_entries now =
    let shown = parts (read file) (live_lines s prefix now) in
    if is_empty shown
    then none
    else some (join (codes "\n") (keep_last max_entries (lines_from [] (join (codes "\n") shown))))

-- the lines of the log, which is ended by a line break before the tasks
abbrev pub log_lines : Option Text → List Text
log_lines file = map_or (read file) [] λ log. lines_from [] (log ++ codes "\n")

lines_from-after :
    (acc log rest : Text)
    → lines_from acc (log ++ 10 ∷ rest) ≡ lines_from acc (log ++ 10 ∷ []) ++ lines_from [] rest
unfolding lines_from
lines_from-after acc [] rest = refl
lines_from-after acc (c ∷ cs) rest = elim (Bool-cases (c == 10)) [
  | inl e ↦ rw (lines_from, e) (ap (chomp acc ∷◌) (lines_from-after [] cs rest))
  | inr e ↦ rw (lines_from, e) (lines_from-after (acc ++ c ∷ []) cs rest)
]

lines_from-last :
    (acc l : Text) → Avoids 10 l → is_empty (acc ++ l) ≡ false → lines_from acc l ≡ (acc ++ l) ∷ []
unfolding lines_from
lines_from-last acc [] h e =
    rw (append-nil acc) (let f : is_empty acc ≡ false = rw (sym (append-nil acc)) e in rw f refl)
lines_from-last acc (c ∷ cs) h e = elim (Bool-cases (c == 10)) [
  | inl same ↦ ground (arith, h.0)
  | inr other ↦
      rw (lines_from, other)
        (lines_from-last (acc ++ c ∷ []) cs h.1 (rw (append_assoc acc (c ∷ []) cs) e)
          ∙ ap (◌∷ []) (append_assoc acc (c ∷ []) cs))
]

lines_from-joined : (ls : List Text) → All IsEntry ls → lines_from [] (join (codes "\n") ls) ≡ ls
unfolding lines_from join
lines_from-joined [] h = refl
lines_from-joined (l ∷ []) h = lines_from-last [] l h.0.0 h.0.2
lines_from-joined (l ∷ m ∷ ls) h =
    lines_from-line [] l (join (codes "\n") (m ∷ ls)) h.0.0
    ∙ (ap (◌∷ lines_from [] (join (codes "\n") (m ∷ ls))) (chomp_same l h.0.1)
        ∙ ap (l ∷◌) (lines_from-joined (m ∷ ls) h.1))

pub keep_last-append :
    (n : ℕ) (xs ys : List Text)
    → length ys ≤ n
    → keep_last n (xs ++ ys) ≡ keep_last (n - length ys) xs ++ ys
keep_last-append n xs ys h =
    let total = length-append xs ys in
    let same : length (xs ++ ys) - n ≡ length xs - (n - length ys) = omega (arith, total, h) in
    keep_last-drop n (xs ++ ys)
    ∙ (ap (λ k. drop k (xs ++ ys)) same
        ∙ (drop-append (length xs - (n - length ys)) xs ys (omega arith)
            ∙ ap (◌++ ys) (sym (keep_last-drop (n - length ys) xs))))

pub shown-lines :
    (log : Option Text) (l : Text) (ls : List Text)
    → All IsEntry (l ∷ ls)
    → lines_from [] (join (codes "\n") (parts log (l ∷ ls)))
      ≡ map_or log [] (λ text. lines_from [] (text ++ codes "\n")) ++ l ∷ ls
unfolding parts join
shown-lines none l ls h = lines_from-joined (l ∷ ls) h
shown-lines (some text) l ls h =
    lines_from-after [] text (join (codes "\n") (l ∷ ls))
    ∙ ap (lines_from [] (text ++ codes "\n") ++◌) (lines_from-joined (l ∷ ls) h)
