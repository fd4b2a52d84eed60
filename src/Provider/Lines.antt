-- ===== src/Provider/Lines.antt =====
-- The events of a stream, against a reference that reads its bytes one at a time.
use rabb1t_claw.Base.{
  ℕ, zero, suc, ◌+◌, ◌<◌, true, false, Option, none, some, List, [], ◌∷◌, ◌++◌, inl, inr, ◌≡◌, refl,
  sym, ap, ◌∙◌, arith, if◌then◌else◌, ◌==◌, Bool-cases, Option-cases, Bytes, Text, length, take,
  drop, append-nil, append_assoc, length-drop, drop-drop,
}
use rabb1t_claw.Provider.{
  Piece, bytes, failed, position, Scanned, with_chunk, line_chunk, scan_lines, process_pieces,
  process_sse_stream,
}
use rabb1t_claw.Stream.{StreamChunk, text, done, error}

-- A chunk and what is sent behind it: nothing is sent behind `Done`.
abbrev pub sent_then : Option StreamChunk → List StreamChunk → List StreamChunk
sent_then none rest = rest
sent_then (some done) rest = done ∷ []
sent_then (some chunk) rest = chunk ∷ rest

module _ (parse_data : Text → Option StreamChunk) where
  -- the events of the bytes behind the start of a line, and then what follows from the line that is
  -- left open
  unfoldable pub events_then : Bytes → Bytes → (Bytes → List StreamChunk) → List StreamChunk
  events_then line [] after = after line
  events_then line (b ∷ bs) after = elim (b == 10) [
    | true ↦ sent_then (line_chunk parse_data line) (events_then [] bs after)
    | false ↦ events_then (line ++ b ∷ []) bs after
  ]

  -- what the loop sends, and what follows
  abbrev scanned_then : Scanned → Bytes → (Bytes → List StreamChunk) → List StreamChunk
  scanned_then s buffer after =
      if s.stopped then s.sent else s.sent ++ after (drop s.consumed buffer)

  no_newline :
      (line bs : Bytes) (after : Bytes → List StreamChunk)
      → position 10 bs ≡ none
      → events_then line bs after ≡ after (line ++ bs)
  unfolding position events_then
  no_newline line [] after h = ap after (sym (append-nil line))
  no_newline line (b ∷ bs) after h = elim (Bool-cases (b == 10)) [
    | inl e ↦ ground (arith, e, h)
    | inr e ↦ elim (Option-cases (position 10 bs)) [
      | inl none_left ↦
          rw (events_then, e)
            (no_newline (line ++ b ∷ []) bs after none_left
              ∙ ap after (append_assoc line (b ∷ []) bs))
      | inr (n, found) ↦ ground (arith, e, h, found)
    ]
  ]

  first_newline :
      (line bs : Bytes) (n : ℕ) (after : Bytes → List StreamChunk)
      → position 10 bs ≡ some n
      → events_then line bs after
        ≡ sent_then
            (line_chunk parse_data (line ++ take n bs))
            (events_then [] (drop (suc n) bs) after)
  unfolding position events_then
  first_newline line [] n after h = cc
  first_newline line (b ∷ bs) zero after h = elim (Bool-cases (b == 10)) [
    | inl e ↦
        rw (events_then, e)
          (ap (λ l. sent_then (line_chunk parse_data l) (events_then [] bs after))
            (sym (append-nil line)))
    | inr e ↦ elim (Option-cases (position 10 bs)) [
      | inl none_left ↦ ground (arith, e, h, none_left)
      | inr (m, found) ↦ ground (arith, e, h, found)
    ]
  ]
  first_newline line (b ∷ bs) (suc n) after h = elim (Bool-cases (b == 10)) [
    | inl e ↦ ground (arith, e, h)
    | inr e ↦ elim (Option-cases (position 10 bs)) [
      | inl none_left ↦ ground (arith, e, h, none_left)
      | inr (m, found) ↦
          let here : position 10 bs ≡ some n = ground (arith, e, h, found) in
          rw (events_then, e)
            (first_newline (line ++ b ∷ []) bs n after here
              ∙ ap
                  (λ l.
                    sent_then (line_chunk parse_data l) (events_then [] (drop (suc n) bs) after))
                  (append_assoc line (b ∷ []) (take n bs)))
    ]
  ]

  position-lt : (bs : Bytes) {n : ℕ} → position 10 bs ≡ some n → n < length bs
  unfolding position
  position-lt [] h = cc
  position-lt (b ∷ bs) h = elim (Bool-cases (b == 10)) [
    | inl e ↦ ground (arith, e, h)
    | inr e ↦ elim (Option-cases (position 10 bs)) [
      | inl none_left ↦ ground (arith, e, h, none_left)
      | inr (m, found) ↦ ground (arith, e, h, found, position-lt bs found)
    ]
  ]

  scanned_then-with_chunk :
      (o : Option StreamChunk) (s : Scanned) (buffer : Bytes) (after : Bytes → List StreamChunk)
      → scanned_then (with_chunk o s) buffer after ≡ sent_then o (scanned_then s buffer after)
  scanned_then-with_chunk none s buffer after = refl
  scanned_then-with_chunk (some done) s buffer after = refl
  scanned_then-with_chunk (some (text t)) s buffer after = ground arith
  scanned_then-with_chunk (some (error e)) s buffer after = ground arith

  -- the loop over the complete lines sends what the reference does
  scan_lines-events :
      (fuel : ℕ) (buffer : Bytes) (consumed : ℕ) (after : Bytes → List StreamChunk)
      → length (drop consumed buffer) < fuel
      → scanned_then (scan_lines parse_data fuel buffer consumed) buffer after
        ≡ events_then [] (drop consumed buffer) after
  unfolding scan_lines
  scan_lines-events zero buffer consumed after h = absurd (omega arith)
  scan_lines-events (suc fuel) buffer consumed after h =
      let left = drop consumed buffer in
      elim (Option-cases (position 10 left)) [
        | inl none_left ↦ rw (scan_lines, none_left) (sym (no_newline [] left after none_left))
        | inr (n, found) ↦
            let later : drop (suc n) left ≡ drop (consumed + n + 1) buffer =
              drop-drop consumed (suc n) buffer ∙ ap (λ k. drop k buffer) (omega arith) in
            let shorter : length (drop (consumed + n + 1) buffer) < fuel = omega (
              arith,
              length-drop (consumed + n + 1) buffer,
              length-drop consumed buffer,
              position-lt left found,
              h,
            ) in
            rw (scan_lines, found)
              (scanned_then-with_chunk (line_chunk parse_data (take n left))
                  (scan_lines parse_data fuel buffer (consumed + n + 1)) buffer after
                ∙ (ap (sent_then (line_chunk parse_data (take n left))) (
                      scan_lines-events fuel buffer (consumed + n + 1) after shorter
                      ∙ ap (λ l. events_then [] l after) (sym later))
                    ∙ sym (first_newline [] left n after found)))
      ]

  open_line :
      (acc line ys : Bytes) (after : Bytes → List StreamChunk)
      → position 10 line ≡ none
      → events_then acc (line ++ ys) after ≡ events_then (acc ++ line) ys after
  unfolding position events_then
  open_line acc [] ys after h = ap (λ l. events_then l ys after) (sym (append-nil acc))
  open_line acc (b ∷ bs) ys after h = elim (Bool-cases (b == 10)) [
    | inl e ↦ ground (arith, e, h)
    | inr e ↦ elim (Option-cases (position 10 bs)) [
      | inl none_left ↦
          rw (events_then, e)
            (open_line (acc ++ b ∷ []) bs ys after none_left
              ∙ ap (λ l. events_then l ys after) (append_assoc acc (b ∷ []) bs))
      | inr (n, found) ↦ ground (arith, e, h, found)
    ]
  ]

  position-snoc :
      (line : Bytes) (b : ℕ)
      → position 10 line ≡ none
      → (b == 10) ≡ false
      → position 10 (line ++ b ∷ []) ≡ none
  unfolding position
  position-snoc [] b h e = ground (arith, e)
  position-snoc (x ∷ xs) b h e = elim (Bool-cases (x == 10)) [
    | inl y ↦ ground (arith, y, h)
    | inr y ↦ elim (Option-cases (position 10 xs)) [
      | inl none_left ↦ ground (arith, y, position-snoc xs b none_left e)
      | inr (n, found) ↦ ground (arith, y, h, found)
    ]
  ]

  -- a line that is open at the end of some bytes goes on in those that follow
  events_then-append :
      (line xs ys : Bytes) (after : Bytes → List StreamChunk)
      → position 10 line ≡ none
      → events_then line xs (λ l. events_then [] (l ++ ys) after)
        ≡ events_then line (xs ++ ys) after
  unfolding events_then position
  events_then-append line [] ys after h = open_line [] line ys after h
  events_then-append line (x ∷ xs) ys after h = elim (Bool-cases (x == 10)) [
    | inl e ↦
        rw (events_then, e)
          (ap (sent_then (line_chunk parse_data line)) (events_then-append [] xs ys after refl))
    | inr e ↦
        rw (events_then, e)
          (events_then-append (line ++ x ∷ []) xs ys after (position-snoc line x h e))
  ]

  -- what follows matters only at lines that are open
  events_then-same :
      (line xs : Bytes) (f g : Bytes → List StreamChunk)
      → position 10 line ≡ none
      → ((l : Bytes) → position 10 l ≡ none → f l ≡ g l)
      → events_then line xs f ≡ events_then line xs g
  unfolding events_then position
  events_then-same line [] f g h same = same line h
  events_then-same line (x ∷ xs) f g h same = elim (Bool-cases (x == 10)) [
    | inl e ↦
        rw (events_then, e)
          (ap (sent_then (line_chunk parse_data line)) (events_then-same [] xs f g refl same))
    | inr e ↦
        rw (events_then, e)
          (events_then-same (line ++ x ∷ []) xs f g (position-snoc line x h e) same)
  ]

-- the bytes before a failure of the network, and what is sent at the end
unfoldable pub delivered : List Piece → Bytes
delivered [] = []
delivered (bytes chunk ∷ pieces) = chunk ++ delivered pieces
delivered (failed e ∷ pieces) = []

unfoldable pub ending : List Piece → StreamChunk
ending [] = done
ending (bytes chunk ∷ pieces) = ending pieces
ending (failed e ∷ pieces) = error e

module _ (parse_data : Text → Option StreamChunk) where
  left_open :
      (buffer : Bytes) (end : List StreamChunk)
      → position 10 buffer ≡ none
      → events_then parse_data [] (buffer ++ []) (λ l. end) ≡ end
  left_open buffer end h =
      ap (λ t. events_then parse_data [] t (λ l. end)) (append-nil buffer)
      ∙ no_newline parse_data [] buffer (λ l. end) h

  process_pieces-events :
      (buffer : Bytes) (pieces : List Piece)
      → position 10 buffer ≡ none
      → process_pieces parse_data buffer pieces
        ≡ events_then parse_data [] (buffer ++ delivered pieces) (λ l. ending pieces ∷ [])
  unfolding process_pieces delivered ending position
  process_pieces-events buffer [] h = sym (left_open buffer (done ∷ []) h)
  process_pieces-events buffer (failed e ∷ pieces) h = sym (left_open buffer (error e ∷ []) h)
  process_pieces-events buffer (bytes chunk ∷ pieces) h =
      let whole = buffer ++ chunk in
      let end : Bytes → List StreamChunk = λ l. ending pieces ∷ [] in
      scan_lines-events parse_data (suc (length whole)) whole 0
        (λ l. process_pieces parse_data l pieces) (omega arith)
      ∙ (events_then-same parse_data [] whole (λ l. process_pieces parse_data l pieces)
            (λ l. events_then parse_data [] (l ++ delivered pieces) end) refl
            (λ l open_end. process_pieces-events l pieces open_end)
          ∙ (events_then-append parse_data [] whole (delivered pieces) end refl
              ∙ ap (λ t. events_then parse_data [] t end)
                  (append_assoc buffer chunk (delivered pieces))))

  -- What is sent for a stream depends only on the bytes that arrive before a failure, or before the
  -- end, and on which of the two ends it, not on the pieces in which the bytes arrive: it is what
  -- reading them one at a time sends, and nothing behind a first `Done`.
  pub process-events :
      (pieces : List Piece)
      → process_sse_stream parse_data pieces
        ≡ events_then parse_data [] (delivered pieces) (λ l. ending pieces ∷ [])
  unfolding process_sse_stream position
  process-events pieces = process_pieces-events [] pieces refl
