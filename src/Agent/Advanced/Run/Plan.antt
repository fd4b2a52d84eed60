-- ===== src/Agent/Advanced/Run/Plan.antt =====
-- A whole run of an advanced task, from the first request to its end.
use rabb1t_claw.Base.{ℕ, ◌≤◌, List, [], ◌∷◌, ◌++◌, ◌≡◌, Text, codes, All, length}
use rabb1t_claw.Agent.Advanced.Compress.{user_message, assistant_message}
use rabb1t_claw.Agent.Advanced.Run.{Ran}
use rabb1t_claw.Agent.Advanced.Run.Loop.{IsAsked}
use rabb1t_claw.Agent.Advanced.Run.Turns.{steps_of}
use rabb1t_claw.Budget.{ChatMessage}

abbrev pub task_of : Text → ChatMessage
task_of description = user_message (codes "## Task\n\n" ++ description)

-- The first request is the task alone. All later ones begin with the task and one plan, the first
-- response; in each the turns of user and assistant alternate, and the last one is the user's.
abbrev pub IsConversation : ChatMessage → List (List ChatMessage) → Type 0
IsConversation task [] = Unit
IsConversation task (first ∷ later) =
    (first ≡ task ∷ []) × ((plan : Text) × All (IsAsked task (assistant_message plan)) later)

abbrev pub IsBounded : ℕ → ChatMessage → Ran → Type 0
IsBounded max_steps task r =
    (length r.asked ≤ max_steps) × (steps_of r.finished ≤ max_steps) × IsConversation task r.asked
