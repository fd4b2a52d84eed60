-- ===== src/Agent/Advanced/Compress.antt =====
-- `compress_context` of src/agent/advanced/agent.rs, and the turns of a conversation.
use rabb1t_claw.Base.{
  ℕ, zero, suc, ◌+◌, ◌-◌, ◌≤◌, ◌<◌, ◌%◌, Bool, true, false, not, ◌⊎◌, Option, none, some, List, [],
  ◌∷◌, ◌++◌, if◌then◌else◌, inl, inr, ◌≡◌, refl, sym, subst, arith, leb, ◌==◌, Text, codes, length,
  take, drop, Bool-cases, Option-cases,
}
use rabb1t_claw.Budget.{ChatMessage}

abbrev pub user_message : Text → ChatMessage
user_message content = record { role = codes "user"; content = content }

abbrev pub assistant_message : Text → ChatMessage
assistant_message content = record { role = codes "assistant"; content = content }

abbrev summary_lines : List ChatMessage → Text
summary_lines [] = []
summary_lines (m ∷ ms) =
    codes "**" ++ (m.role ++ (codes "**: " ++ (m.content ++ (codes "\n\n" ++ summary_lines ms))))

abbrev summary_input : List ChatMessage → Text
summary_input to_compress =
    codes
      "Summarize the following orchestration steps into a concise progress report. Include: what was attempted, what succeeded, what failed, key data/file paths, and current state. Be factual and brief.\n\n"
    ++ summary_lines to_compress

-- the end of what is compressed, so that their number is odd
unfoldable pub compress_end_of : ℕ → ℕ → ℕ → ℕ
compress_end_of len pinned_count keep_recent =
    let compress_end = len - keep_recent in
    if (compress_end - pinned_count) % 2 == 0 then compress_end - 1 else compress_end

abbrev summary_message : Text → ChatMessage
summary_message summary = user_message (codes "**Progress summary (compressed):**\n" ++ summary)

abbrev spliced : List ChatMessage → ℕ → ℕ → Option Text → List ChatMessage
spliced messages pinned_count compress_end none = messages
spliced messages pinned_count compress_end (some summary) =
    take pinned_count messages ++ summary_message summary ∷ drop compress_end messages

-- `summarize` is the model's answer to a request for a summary, if it gives one.
unfoldable pub compress_context : (Text → Option Text) → List ChatMessage → ℕ → ℕ → List ChatMessage
compress_context summarize messages pinned_count keep_recent =
    let compress_end = compress_end_of (length messages) pinned_count keep_recent in
    if leb (length messages - pinned_count) (keep_recent + 2)
    then messages
    else if leb compress_end pinned_count
    then messages
    else spliced messages pinned_count compress_end (
        summarize (summary_input (take (compress_end - pinned_count) (drop pinned_count messages))))

-- the turns alternate, beginning with the one given
abbrev pub Alternates : Bool → List ChatMessage → Type 0
Alternates user_next [] = Unit
Alternates true (m ∷ ms) = (m.role ≡ codes "user") × Alternates false ms
Alternates false (m ∷ ms) = (m.role ≡ codes "assistant") × Alternates true ms

-- whose turn it is after some messages
abbrev turn : ℕ → Bool → Bool
turn zero user_next = user_next
turn (suc n) user_next = turn n (not user_next)

turn_even : (n : ℕ) (b : Bool) → n % 2 ≡ 0 → turn n b ≡ b
turn_even zero b h = refl
turn_even (suc zero) b h = absurd (omega arith)
turn_even (suc (suc n)) true h = turn_even n true (omega arith)
turn_even (suc (suc n)) false h = turn_even n false (omega arith)

turn_odd : (n : ℕ) (b : Bool) → n % 2 ≡ 1 → turn n b ≡ not b
turn_odd zero b h = absurd (omega arith)
turn_odd (suc zero) b h = refl
turn_odd (suc (suc n)) true h = turn_odd n true (omega arith)
turn_odd (suc (suc n)) false h = turn_odd n false (omega arith)

pub Alternates-drop :
    (n : ℕ) (b : Bool) (ms : List ChatMessage) → Alternates b ms → Alternates (turn n b) (drop n ms)
Alternates-drop zero b ms h = h
Alternates-drop (suc n) b [] h = tt
Alternates-drop (suc n) true (m ∷ ms) h = Alternates-drop n false ms h.1
Alternates-drop (suc n) false (m ∷ ms) h = Alternates-drop n true ms h.1

Alternates-take :
    (n : ℕ) (b : Bool) (ms rest : List ChatMessage)
    → n ≤ length ms
    → Alternates b ms
    → Alternates (turn n b) rest
    → Alternates b (take n ms ++ rest)
Alternates-take zero b ms rest le h r = r
Alternates-take (suc n) b [] rest le h r = absurd (omega arith)
Alternates-take (suc n) true (m ∷ ms) rest le h r =
    (h.0, Alternates-take n false ms rest (omega arith) h.1 r)
Alternates-take (suc n) false (m ∷ ms) rest le h r =
    (h.0, Alternates-take n true ms rest (omega arith) h.1 r)

-- What is compressed is an odd number of messages behind the pinned ones and before the recent ones,
-- and one message of the user stands for it; or nothing changes.
abbrev pub IsCompressed : List ChatMessage → ℕ → ℕ → List ChatMessage → Type 0
IsCompressed messages pinned_count keep_recent out =
    (out ≡ messages)
    ⊎ ((summary : Text) × (k : ℕ) × (pinned_count < k)
        × (k + keep_recent ≤ length messages)
        × ((k - pinned_count) % 2 ≡ 1)
        × (out ≡ take pinned_count messages ++ user_message summary ∷ drop k messages))

-- The bounds of what is compressed, where there is enough of it.
compress_end_lem :
    (len pinned_count keep_recent : ℕ)
    → keep_recent + 2 < len - pinned_count
    → pinned_count % 2 ≡ 0
    → (pinned_count < compress_end_of len pinned_count keep_recent)
      × (compress_end_of len pinned_count keep_recent + keep_recent ≤ len)
      × (compress_end_of len pinned_count keep_recent % 2 ≡ 1)
unfolding compress_end_of
compress_end_lem len pinned_count keep_recent h even = ground arith

-- A compression leaves a conversation in which user and assistant take turns, with the user first,
-- such a conversation, where the number of pinned messages is even; it keeps those and at least the
-- recent ones as they are, and puts one message of the user for an odd number of others, or changes
-- nothing, whether or not a summary is given.
pub compress-keeps :
    (summarize : Text → Option Text) (messages : List ChatMessage) (pinned_count keep_recent : ℕ)
    → Alternates true messages
    → pinned_count % 2 ≡ 0
    → Alternates true (compress_context summarize messages pinned_count keep_recent)
      × IsCompressed messages pinned_count keep_recent
          (compress_context summarize messages pinned_count keep_recent)
unfolding compress_context
compress-keeps summarize messages pinned_count keep_recent alt even =
    let end = compress_end_of (length messages) pinned_count keep_recent in
    let input = summary_input (take (end - pinned_count) (drop pinned_count messages)) in
    elim (Bool-cases (leb (length messages - pinned_count) (keep_recent + 2))) [
      | inl few ↦ rw few (alt, inl refl)
      | inr enough ↦
          let (after, before, odd) =
            compress_end_lem (length messages) pinned_count keep_recent (ground (arith, enough))
              even in
          let more : leb end pinned_count ≡ false = ground (arith, after) in
          elim (Option-cases (summarize input)) [
            | inl e ↦ rw (enough, more, e) (alt, inl refl)
            | inr (summary, e) ↦
                let text = codes "**Progress summary (compressed):**\n" ++ summary in
                let later : Alternates false (drop end messages) =
                  subst (λ b. Alternates b (drop end messages)) (turn_odd end true odd)
                    (Alternates-drop end true messages alt) in
                rw (enough, more, e)
                  (
                    Alternates-take pinned_count true messages
                        (user_message text ∷ drop end messages) (omega (arith, after, before)) alt
                        (subst (λ b. Alternates b (user_message text ∷ drop end messages))
                          (sym (turn_even pinned_count true even)) (refl, later)),
                    inr (text, end, after, before, omega (arith, even, odd, after), refl),
                  )
          ]
    ]
