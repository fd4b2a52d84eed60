-- ===== src/Provider/Bodies.antt =====
-- The conversation in the two bodies for one request.
use rabb1t_claw.Base.{
  not, Option, some, List, [], ◌∷◌, ◌++◌, map, retain, inl, inr, ◌≡◌, refl, ap, Bool-cases, Text,
  codes, text_eq,
}
use rabb1t_claw.Agent.Request.{ChatRequest}
use rabb1t_claw.Budget.{ChatMessage}
use rabb1t_claw.Provider.OpenAi.{pushed, is_system, openai_body, system_message}
use rabb1t_claw.Provider.Anthropic.{split_system, anthropic_body}

-- the messages without those of the role `system`, and the contents of the latter
abbrev pub spoken : List ChatMessage → List ChatMessage
spoken = retain (λ m. not (text_eq m.role (codes "system")))

abbrev pub instructions : List ChatMessage → List Text
instructions ms = map (λ m. m.content) (retain (λ m. text_eq m.role (codes "system")) ms)

-- the last of some texts, or the one before them
abbrev pub last_or : Option Text → List Text → Option Text
last_or before [] = before
last_or before (t ∷ ts) = last_or (some t) ts

split_system_lem :
    (system : Option Text) (ms : List ChatMessage)
    → split_system system ms ≡ (last_or system (instructions ms), spoken ms)
unfolding split_system
split_system_lem system [] = refl
split_system_lem system (m ∷ ms) = elim (Bool-cases (is_system m)) [
  | inl e ↦ rw (split_system, e) (split_system_lem (some m.content) ms)
  | inr e ↦ rw (split_system, e) (ap (λ r. (r.0, m ∷ r.1)) (split_system_lem system ms))
]

pushed_lem : (ms : List ChatMessage) → pushed ms ≡ spoken ms
unfolding pushed
pushed_lem [] = refl
pushed_lem (m ∷ ms) = rw (pushed_lem ms) refl

-- For every request: both bodies hold the messages of the other roles, in their order, and none of
-- the role `system`, which the OpenAI body has once more at its start for the system prompt of the
-- request. The Anthropic body has as its system prompt the content of the last message of the role
-- `system`, or the prompt of the request where there is none; the OpenAI body drops these messages.
pub bodies_agree :
    (request : ChatRequest)
    → ((openai_body request).messages ≡ system_message request.system ++ spoken request.messages)
      × ((anthropic_body request).messages ≡ spoken request.messages)
      × ((anthropic_body request).system ≡ last_or request.system (instructions request.messages))
unfolding openai_body anthropic_body
bodies_agree request =
    let split = split_system_lem request.system request.messages in
    (
      ap (system_message request.system ++◌) (pushed_lem request.messages),
      ap (λ r. r.1) split,
      ap (λ r. r.0) split,
    )
