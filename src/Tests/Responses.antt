-- ===== src/Tests/Responses.antt =====
-- src/agent/stream.rs and src/agent/markers.rs on short responses.
use rabb1t_claw.Base.{
  none, List, [], ◌∷◌, ◌≡◌, refl, Text, codes, concat, find, starts_with, strip_prefix, trim_start,
}
use rabb1t_claw.Markers.{strip_task_markers, strip_from}
use rabb1t_claw.Stream.{
  pending, pass_through, stripped, check_think_block, check_trimmed, new_filter, relay,
}
use rabb1t_claw.Stream.Scan.{opens, closes, scan, visible}
use rabb1t_claw.Stream.Chunks.{relay-visible}
use rabb1t_claw.Stream.Strip.{strip-visible}
use rabb1t_claw.Stream.Blocks.{adjacent, strip-adjacent}

abbrev cut_response : List Text
cut_response = codes "Hi\n@@disp" ∷ codes "atch\n[]\n@@e" ∷ codes "nd\nbye" ∷ []

relay-visible_example : concat (relay new_filter [] cut_response) ≡ visible (concat cut_response)
relay-visible_example = relay-visible cut_response

visible_run : visible (concat cut_response) ≡ codes "Hibye"
unfolding visible opens closes starts_with scan
visible_run = refl

abbrev stored : Text
stored = codes "Hi\n@@dispatch\n[]\n@@end\nbye"

strip-visible_example : codes "Hibye" ≡ visible stored
strip-visible_example =
    strip-visible stored {clean = codes "Hibye"} (unfold find starts_with in refl)
      (unfold strip_task_markers strip_from find starts_with in refl)

strip-adjacent_example : strip_task_markers (adjacent (codes "[]") (codes "{}\n@@end\n")) ≡ none
strip-adjacent_example =
    strip-adjacent (codes "[]") (codes "{}\n@@end\n") (unfold find starts_with in refl)

think_runs :
    (check_think_block (codes " <think>a</think>\n b") ≡ stripped (codes "b"))
    × (check_think_block (codes "<thi") ≡ pending)
    × (check_think_block (codes "Hello") ≡ pass_through)
unfolding check_think_block check_trimmed find starts_with strip_prefix trim_start
think_runs = (refl, refl, refl)
