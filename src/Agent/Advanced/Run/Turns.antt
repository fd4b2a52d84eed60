-- ===== src/Agent/Advanced/Run/Turns.antt =====
-- The conversation of an advanced task with its model, over the steps of a run.
use rabb1t_claw.Base.{
  ℕ, ◌%◌, true, false, Option, none, some, List, [], ◌∷◌, ◌++◌, inl, inr, ◌≡◌, refl, ap, ◌∙◌, arith,
  ltb, ◌==◌, Bool-cases, Text, length, take, drop, length-append, length-drop,
}
use rabb1t_claw.Agent.Advanced.{Directive, code, search, question, done, parse_directives}
use rabb1t_claw.Agent.Advanced.Compress.{
  user_message, assistant_message, compress_context, Alternates, compress-keeps,
}
use rabb1t_claw.Agent.Advanced.Run.{
  RunEnv, LoopState, Next, stop, go, Finished, completed, failed, panicked, Subtask, on_directive,
  on_directives, on_response, total_chars, context_compress_chars, context_keep_recent,
  code_feedback, search_feedback, answer_feedback, compressed, compressed_next, with_response,
}
use rabb1t_claw.Budget.{ChatMessage}
use rabb1t_claw.Stream.{Collected, ok, err}

Alternates-snoc_assistant :
    (ms : List ChatMessage) (t : Text)
    → Alternates true ms
    → length ms % 2 ≡ 1
    → Alternates true (ms ++ assistant_message t ∷ [])
Alternates-snoc_assistant [] t h odd = absurd (omega arith)
Alternates-snoc_assistant (m ∷ []) t h odd = (h.0, (refl, tt))
Alternates-snoc_assistant (m ∷ n ∷ ms) t h odd =
    (h.0, (h.1.0, Alternates-snoc_assistant ms t h.1.1 (omega (arith, odd))))

Alternates-snoc_user :
    (ms : List ChatMessage) (t : Text)
    → Alternates true ms
    → length ms % 2 ≡ 0
    → Alternates true (ms ++ user_message t ∷ [])
Alternates-snoc_user [] t h even = (refl, tt)
Alternates-snoc_user (m ∷ []) t h even = absurd (omega arith)
Alternates-snoc_user (m ∷ n ∷ ms) t h even =
    (h.0, (h.1.0, Alternates-snoc_user ms t h.1.1 (omega (arith, even))))

-- the first two messages are the task and the plan
abbrev pub Begins : ChatMessage → ChatMessage → List ChatMessage → Type 0
Begins task plan ms = take 2 ms ≡ task ∷ plan ∷ []

Begins-append :
    (task plan : ChatMessage) (ms rest : List ChatMessage)
    → Begins task plan ms
    → Begins task plan (ms ++ rest)
Begins-append task plan [] rest h = ground (arith, h)
Begins-append task plan (m ∷ []) rest h = ground (arith, h)
Begins-append task plan (m ∷ n ∷ ms) rest h = h

-- a conversation whose turns alternate and that waits for the model
abbrev pub IsOpen : List ChatMessage → Type 0
IsOpen ms = Alternates true ms × (length ms % 2 ≡ 1)

pub record Waits (task plan : ChatMessage) (l : LoopState) : Type 0 where
  pub turns : Alternates true l.messages
  pub odd : length l.messages % 2 ≡ 1
  pub begins : Begins task plan l.messages
  pub pinned : l.pinned_count ≡ 2

-- behind a response of the model
pub record Responded (task plan : ChatMessage) (l : LoopState) : Type 0 where
  pub turns : Alternates true l.messages
  pub even : length l.messages % 2 ≡ 0
  pub begins : Begins task plan l.messages
  pub pinned : l.pinned_count ≡ 2

abbrev pub steps_of : Finished → ℕ
steps_of (completed summary step) = step
steps_of (failed e step) = step
steps_of (panicked step) = step

-- a step that ends the loop reports itself
abbrev pub OnNext : ℕ → (LoopState → Type 0) → Next → Type 0
OnNext step P (stop f) = steps_of f ≡ step
OnNext step P (go l) = P l

module _ (task plan : ChatMessage) where
  Responded-user :
      (l : LoopState) (t : Text) (notes : List Text)
      → Responded task plan l
      → Waits task plan
          (record l { messages = l.messages ++ user_message t ∷ []; progress = notes })
  Responded-user l t notes h = record {
    turns = Alternates-snoc_user l.messages t h.turns h.even;
    odd = omega (arith, h.even, length-append l.messages (user_message t ∷ []));
    begins = Begins-append task plan l.messages (user_message t ∷ []) h.begins;
    pinned = h.pinned;
  }

  compress-Waits :
      (summarize : Text → Option Text) (l : LoopState)
      → Waits task plan l
      → Waits task plan (record l {
        messages = compress_context summarize l.messages l.pinned_count context_keep_recent;
      })
  compress-Waits summarize l h =
      let ms = l.messages in
      let (turns, how) =
        compress-keeps summarize ms l.pinned_count context_keep_recent h.turns
          (omega (arith, h.pinned)) in
      elim how [
        | inl same ↦ record {
          turns = turns;
          odd = ap (λ l. length l % 2) same ∙ h.odd;
          begins = ap (take 2) same ∙ h.begins;
          pinned = h.pinned;
        }
        | inr (summary, k, after, before, count, eq) ↦
            let whole =
              eq
              ∙ ap (◌++ user_message summary ∷ drop k ms)
                  (ap (λ n. take n ms) h.pinned ∙ h.begins) in
            record {
              turns = turns;
              odd =
                  ap (λ l. length l % 2) whole
                  ∙ omega (arith, length-drop k ms, h.odd, h.pinned, count, after, before);
              begins = ap (take 2) whole;
              pinned = h.pinned;
            }
      ]

  compressed-Waits :
      (env : RunEnv) (task_id step : ℕ) (l : LoopState)
      → Waits task plan l
      → Waits task plan (compressed env task_id step l)
  compressed-Waits env task_id step l h =
      elim (Bool-cases (ltb context_compress_chars (total_chars l.messages))) [
        | inl e ↦ rw e (compress-Waits (env.summarize step) l h)
        | inr e ↦ rw e h
      ]

  module _ (env : RunEnv) (task_id : ℕ) where
    code_feedback-Waits :
        (l : LoopState) (step : ℕ) (desc : Text) (r : Subtask)
        → Responded task plan l
        → OnNext step (Waits task plan) (code_feedback env task_id l step desc r)
    code_feedback-Waits l step desc (ok output) h = Responded-user l _ _ h
    code_feedback-Waits l step desc (err e) h = Responded-user l _ _ h

    search_feedback-Waits :
        (l : LoopState) (step : ℕ) (query : Text) (r : Option Subtask)
        → Responded task plan l
        → OnNext step (Waits task plan) (search_feedback env task_id l step query r)
    search_feedback-Waits l step query (some (ok context)) h = Responded-user l _ _ h
    search_feedback-Waits l step query (some (err e)) h = Responded-user l _ _ h
    search_feedback-Waits l step query none h = refl

    answer_feedback-Waits :
        (l : LoopState) (step remaining : ℕ) (answer : Option Text)
        → Responded task plan l
        → OnNext step (Waits task plan) (answer_feedback env task_id l step remaining answer)
    answer_feedback-Waits l step remaining none h = refl
    answer_feedback-Waits l step remaining (some answer) h = Responded-user l _ _ h

    on_directive-Waits :
        (timeout step : ℕ) (l : LoopState) (d : Directive)
        → Responded task plan l
        → OnNext step (Waits task plan) (on_directive env task_id timeout step l d).0
    unfolding on_directive
    on_directive-Waits timeout step l (done summary) h = refl
    on_directive-Waits timeout step l (code desc) h = code_feedback-Waits l step desc _ h
    on_directive-Waits timeout step l (search query) h = search_feedback-Waits l step query _ h
    on_directive-Waits timeout step l (question text) h = answer_feedback-Waits l step _ _ h

    compressed_next-Waits :
        (step : ℕ) (next : Next)
        → OnNext step (Waits task plan) next
        → OnNext step (Waits task plan) (compressed_next env task_id step next)
    compressed_next-Waits step (stop f) h = h
    compressed_next-Waits step (go l) h = compressed-Waits env task_id step l h

    pub on_directives-Waits :
        (timeout step : ℕ) (l : LoopState) (ds : List Directive)
        → Responded task plan l
        → OnNext step (Waits task plan) (on_directives env task_id timeout step l ds).0
    unfolding on_directives
    on_directives-Waits timeout step l [] h = Responded-user l _ l.progress h
    on_directives-Waits timeout step l (d ∷ ds) h =
        compressed_next-Waits step (on_directive env task_id timeout step l d).0
          (on_directive-Waits timeout step l d h)

    responded :
        (step : ℕ) (l : LoopState) (t : Text)
        → (step == 1) ≡ false
        → Waits task plan l
        → Responded task plan (with_response env task_id step l t)
    responded step l t later h = rw later (record {
      turns = Alternates-snoc_assistant l.messages t h.turns h.odd;
      even = omega (arith, h.odd, length-append l.messages (assistant_message t ∷ []));
      begins = Begins-append task plan l.messages (assistant_message t ∷ []) h.begins;
      pinned = h.pinned;
    })

    pub on_response-Waits :
        (timeout step : ℕ) (l : LoopState) (c : Collected)
        → (step == 1) ≡ false
        → Waits task plan l
        → OnNext step (Waits task plan) (on_response env task_id timeout step l c).0
    unfolding on_response
    on_response-Waits timeout step l (err e) later h = refl
    on_response-Waits timeout step l (ok t) later h =
        on_directives-Waits timeout step (with_response env task_id step l t) (parse_directives t)
          (responded step l t later h)
