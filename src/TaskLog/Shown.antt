-- ===== src/TaskLog/Shown.antt =====
-- src/agent/tasklog.rs: the lines of the block of a request, in their own terms.
use rabb1t_claw.Base.{
  ℕ, is_empty, ◌+◌, Bool, retain, count_if, length-append, subst, ◌-◌, ◌≤◌, ◌<◌, Option, none, some,
  List, [], ◌∷◌, ◌++◌, map, ◌≡◌, refl, ap, ◌∙◌, arith, Text, codes, join, All, length, false,
}
use rabb1t_claw.Agent.Background.{decimal}
use rabb1t_claw.State.{GatewayState}
use rabb1t_claw.TaskLog.{lines_from, keep_last, read}
use rabb1t_claw.TaskLog.Block.{
  live_line, elapsed_secs, status_detail, live_lines, parts, build_task_context, log_lines,
  shown-lines, keep_last-append,
}
use rabb1t_claw.TaskLog.Fifo.{IsLast, keep_last-IsLast}
use rabb1t_claw.TaskLog.Lines.{IsEntry}
use rabb1t_claw.Tracker.Bounds.{running_count}
use rabb1t_claw.Tracker.{
  items_of, running_item, TrackedItem, AdvancedTaskStatus, needs_input, get_running, code_status,
  search_status, advanced_status,
}
use rabb1t_claw.TaskLog.Readable.{HasFlatTasks, live_lines-IsEntry}

-- the last lines of the log, as many as there is room for, and then some lines
abbrev IsEnded : Option Text → ℕ → List Text → Option Text → Type 0
IsEnded file max_entries live block =
    (front : List Text) × (block ≡ some (join (codes "\n") (front ++ live)))
    × IsLast (max_entries - length live) front (log_lines file)

block-IsEnded :
    (file : Option Text) (max_entries : ℕ) (l : Text) (ls : List Text)
    → All IsEntry (l ∷ ls)
    → length (l ∷ ls) ≤ max_entries
    → IsEnded file max_entries (l ∷ ls) (
        some (
          join (codes "\n") (
            keep_last max_entries
              (lines_from [] (join (codes "\n") (parts (read file) (l ∷ ls)))))))
block-IsEnded file n l ls h room =
    let live = l ∷ ls in
    (
      keep_last (n - length live) (log_lines file),
      ap (λ lines. some (join (codes "\n") (keep_last n lines))) (shown-lines (read file) l ls h)
          ∙ ap (λ lines. some (join (codes "\n") lines))
              (keep_last-append n (log_lines file) live room),
      keep_last-IsLast (n - length live) (log_lines file),
    )

parts_some : (log : Option Text) (l : Text) (ls : List Text) → is_empty (parts log (l ∷ ls)) ≡ false
unfolding parts
parts_some none l ls = refl
parts_some (some text) l ls = refl

-- the block, where the lines of the tasks are given
build_for-IsEnded :
    (s : GatewayState) (file : Option Text) (prefix : Text) (max_entries now : ℕ) (live : List Text)
    → live_lines s prefix now ≡ live
    → All IsEntry live
    → 0 < length live
    → length live ≤ max_entries
    → IsEnded file max_entries live (build_task_context s file prefix max_entries now)
unfolding build_task_context
build_for-IsEnded s file prefix n now [] e h some_task room = absurd (omega arith)
build_for-IsEnded s file prefix n now (l ∷ ls) e h some_task room =
    rw (e, parts_some (read file) l ls) (block-IsEnded file n l ls h room)

-- The elements of two lists are related in pairs.
abbrev pub Each : {A : Type 0} → (A → Text → Type 0) → List A → List Text → Type 0
Each R [] [] = Unit
Each R [] (l ∷ ls) = ⊥
Each R (x ∷ xs) [] = ⊥
Each R (x ∷ xs) (l ∷ ls) = R x l × Each R xs ls

-- the line of a task, with what stands in its parentheses
abbrev pub IsTaskLine : {S : Type 0} → Text → Text → TrackedItem S → Text → Type 0
IsTaskLine kind detail t line =
    line
    ≡ codes "[live] running #"
      ++ (decimal t.id
          ++ (codes " "
              ++ (kind
                  ++ (codes " — " ++ (t.description ++ (codes " (" ++ (detail ++ codes ")")))))))

-- the seconds since its start
abbrev pub age : {S : Type 0} → ℕ → TrackedItem S → Text
age now t = decimal (now - t.started_at) ++ codes "s"

-- an advanced task by its status: its question, or its step with what it does and its age
abbrev pub IsAdvancedLine : ℕ → TrackedItem AdvancedTaskStatus → AdvancedTaskStatus → Text → Type 0
IsAdvancedLine now t (needs_input question) line =
    IsTaskLine (codes "advanced") (codes "asking: " ++ question) t line
IsAdvancedLine now t (AdvancedTaskStatus.running step detail) line =
    IsTaskLine (codes "advanced")
      (codes "step " ++ (decimal step ++ (codes ": " ++ (detail ++ (codes ", " ++ age now t))))) t
      line
IsAdvancedLine now t (AdvancedTaskStatus.completed result) line =
    IsTaskLine (codes "advanced") (age now t) t line
IsAdvancedLine now t (AdvancedTaskStatus.failed error) line =
    IsTaskLine (codes "advanced") (age now t) t line

-- the number of the tasks of a device that run
abbrev pub running_tasks : GatewayState → Text → ℕ
running_tasks s prefix =
    running_count s.code_tasks prefix
    + (running_count s.search_queries prefix + running_count s.advanced_tasks prefix)

-- the last lines of the log, as many as there is room for, and one line for each running task
abbrev pub IsShown : GatewayState → Option Text → Text → ℕ → ℕ → Option Text → Type 0
IsShown s file prefix max_entries now block =
    (front : List Text) × (coded : List Text) × (searched : List Text) × (advised : List Text)
    × (block ≡ some (join (codes "\n") (front ++ (coded ++ (searched ++ advised)))))
    × Each (λ t. IsTaskLine (codes "code") (age now t) t)
        (retain running_item (items_of s.code_tasks prefix)) coded
    × Each (λ t. IsTaskLine (codes "search") (age now t) t)
        (retain running_item (items_of s.search_queries prefix)) searched
    × Each (λ t. IsAdvancedLine now t t.status)
        (retain running_item (items_of s.advanced_tasks prefix)) advised
    × IsLast (max_entries - running_tasks s prefix) front (log_lines file)

Each-map :
    {A : Type 0} (R : A → Text → Type 0) (f : A → Text)
    → ((a : A) → R a (f a))
    → (xs : List A) → Each R xs (map f xs)
Each-map R f h [] = tt
Each-map R f h (x ∷ xs) = (h x, Each-map R f h xs)

advanced_line :
    (now : ℕ) (t : TrackedItem AdvancedTaskStatus) (status : AdvancedTaskStatus)
    → IsAdvancedLine now t status (live_line (codes " advanced") (status_detail now t status) t)
unfolding live_line elapsed_secs status_detail
advanced_line now t (needs_input question) = refl
advanced_line now t (AdvancedTaskStatus.running step detail) = refl
advanced_line now t (AdvancedTaskStatus.completed result) = refl
advanced_line now t (AdvancedTaskStatus.failed error) = refl

length-retained :
    {A : Type 0} (p : A → Bool) (f : A → Text) (xs : List A)
    → length (map f (retain p xs)) ≡ count_if p xs
length-retained p f [] = refl
length-retained p f (x ∷ xs) = ground (arith, length-retained p f xs)

length-live_lines :
    (s : GatewayState) (prefix : Text) (now : ℕ)
    → length (live_lines s prefix now) ≡ running_tasks s prefix
unfolding live_lines get_running
length-live_lines s prefix now =
    let coded =
      map (λ t. live_line (codes " code") (elapsed_secs now t) t)
        (get_running s.code_tasks prefix) in
    let searched =
      map (λ t. live_line (codes " search") (elapsed_secs now t) t)
        (get_running s.search_queries prefix) in
    let advised =
      map (λ t. live_line (codes " advanced") (status_detail now t t.status) t)
        (get_running s.advanced_tasks prefix) in
    omega (
      arith,
      length-append coded (searched ++ advised),
      length-append searched advised,
      length-retained running_item (λ t. live_line (codes " code") (elapsed_secs now t) t)
          (items_of s.code_tasks prefix),
      length-retained running_item (λ t. live_line (codes " search") (elapsed_secs now t) t)
          (items_of s.search_queries prefix),
      length-retained running_item
          (λ t. live_line (codes " advanced") (status_detail now t t.status) t)
          (items_of s.advanced_tasks prefix),
    )

-- Where a device has running tasks, no more than the log may have entries, and no description of
-- one, and nothing that an advanced one asks or reports, holds a line break or a carriage return,
-- the block of its request is lines: the last ones are one for each of its tasks that run, those of
-- code in order, then those of search, then the advanced ones, with the id, the description and the
-- age or the state of the task; before them are the last lines of the log, as many as there is room
-- for up to the bound, or all of them.
pub build_task_context-IsShown :
    (s : GatewayState) (file : Option Text) (prefix : Text) (max_entries now : ℕ)
    → HasFlatTasks s prefix
    → 0 < running_tasks s prefix
    → running_tasks s prefix ≤ max_entries
    → IsShown s file prefix max_entries now (build_task_context s file prefix max_entries now)
unfolding live_lines get_running live_line elapsed_secs
build_task_context-IsShown s file prefix n now h some_task room =
    let count = length-live_lines s prefix now in
    let (front, block, last) =
      build_for-IsEnded s file prefix n now (live_lines s prefix now) refl
        (live_lines-IsEntry s prefix now h) (omega (arith, count)) (omega (arith, count)) in
    (
      front,
      _,
      _,
      _,
      block,
      Each-map _ _ (λ t. refl) (get_running s.code_tasks prefix),
      Each-map _ _ (λ t. refl) (get_running s.search_queries prefix),
      Each-map _ _ (λ t. advanced_line now t t.status) (get_running s.advanced_tasks prefix),
      subst (λ k. IsLast (n - k) front (log_lines file)) count last,
    )
