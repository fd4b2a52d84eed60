-- ===== src/Tests/Tasks.antt =====
-- src/agent/tracker.rs and src/agent/tasklog.rs on one device with two tasks, and a short
-- memory of src/agent/memory.rs.
use rabb1t_claw.Base.{
  is_whitespace, ℕ, true, false, All, refl, ◌<◌, ◌≤◌, Option, none, some, List, [], ◌∷◌, ◌≡◌, Text,
  codes, map_or,
}
use rabb1t_claw.Agent.Memory.{enforce_word_limit, word_ends, last}
use rabb1t_claw.Agent.Memory.Words.{IsLimited, enforce_word_limit-IsLimited}
use rabb1t_claw.TaskLog.{entries}
use rabb1t_claw.TaskLog.Fifo.{
  Event, IsPlain, IsLast, content_of, append_all, lines_of, append_all-IsLast,
}
use rabb1t_claw.TaskLog.Flat.{lacks, lacks-Avoids}
use rabb1t_claw.Tracker.{CodeTaskStatus, code_status, Tracker, TrackedItem, register}
use rabb1t_claw.Tracker.Bounds.{Bounded, register_bounds}
use rabb1t_claw.Tracker.Truncate.{CutAt, count_tokens, truncate, truncate_cases}

abbrev finished_item : TrackedItem CodeTaskStatus
finished_item = record {
  id = 1;
  description = codes "plot";
  status = CodeTaskStatus.completed (codes "done");
  started_at = 100;
  completed_at = some 130;
}

abbrev running_task : TrackedItem CodeTaskStatus
running_task = record {
  id = 2;
  description = codes "sum";
  status = CodeTaskStatus.running;
  started_at = 140;
  completed_at = none;
}

abbrev items : Tracker CodeTaskStatus
items = (codes "aaaaaaaa", finished_item ∷ running_task ∷ []) ∷ []

register_bounds_example :
    Bounded items (codes "aaaaaaaa") 2 1 (register items (codes "aaaaaaaa") 3 (codes "fit") 2 1 150)
register_bounds_example = register_bounds items (codes "aaaaaaaa") 3 (codes "fit") 2 1 150

-- a tokenizer with one token for each character, whose prefixes of even length decode
abbrev even_only : List ℕ → Option Text
even_only [] = some []
even_only (a ∷ []) = none
even_only (a ∷ b ∷ ts) = map_or (even_only ts) none λ t. some (a ∷ b ∷ t)

abbrev one_each : Text → List ℕ
one_each t = t

truncate_cases_example :
    ((count_tokens one_each even_only (codes "abcdef") ≤ 3)
      → truncate one_each even_only (codes "abcdef") 3 ≡ codes "abcdef")
    × ((3 < count_tokens one_each even_only (codes "abcdef"))
        → CutAt one_each even_only
            (one_each (codes "abcdef"))
            3
            (truncate one_each even_only (codes "abcdef") 3))
truncate_cases_example = truncate_cases one_each even_only (codes "abcdef") 3

-- three events in a log of two lines, the second of which could not be written
abbrev three_events : List Event
three_events =
    (codes "10:00:00", codes "dispatched #1 code — plot\nit", true)
    ∷ (codes "10:00:01", codes "completed #1 code", false)
    ∷ (codes "10:00:02", codes "dispatched #2 search — rain", true)
    ∷ []

three_events-IsPlain : All IsPlain three_events
unfolding lacks
three_events-IsPlain = (
  (
    lacks-Avoids 10 (codes "10:00:00") refl,
    lacks-Avoids 13 (codes "10:00:00") refl,
    lacks-Avoids 13 (codes "dispatched #1 code — plot\nit") refl,
  ),
  (
    (
      lacks-Avoids 10 (codes "10:00:01") refl,
      lacks-Avoids 13 (codes "10:00:01") refl,
      lacks-Avoids 13 (codes "completed #1 code") refl,
    ),
    (
      (
        lacks-Avoids 10 (codes "10:00:02") refl,
        lacks-Avoids 13 (codes "10:00:02") refl,
        lacks-Avoids 13 (codes "dispatched #2 search — rain") refl,
      ),
      tt,
    ),
  ),
)

append_all-IsLast_example :
    IsLast 2 (entries (content_of (append_all none three_events 2))) (lines_of [] three_events)
append_all-IsLast_example = append_all-IsLast 2 three_events three_events-IsPlain

enforce_word_limit-IsLimited_example :
    IsLimited (codes "likes  tea and rain") 2 (enforce_word_limit (codes "likes  tea and rain") 2)
enforce_word_limit-IsLimited_example = enforce_word_limit-IsLimited (codes "likes  tea and rain") 2

likes_tea : enforce_word_limit (codes "likes  tea and rain") 2 ≡ codes "likes  tea"
unfolding enforce_word_limit word_ends last is_whitespace
likes_tea = refl
