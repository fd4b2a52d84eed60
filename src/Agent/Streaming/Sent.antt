-- ===== src/Agent/Streaming/Sent.antt =====
-- The frames of a run that comes to its end.
use mathlib.Core.Option.{some-injective, none-ne-some}
use rabb1t_claw.Base.{
  ℕ, ◌+◌, Bool, true, false, Option, none, some, List, [], ◌∷◌, ◌++◌, if◌then◌else◌, inl, inr, ◌≡◌,
  refl, sym, ap, ◌∙◌, arith, Text, map, length, concat, append_assoc, length-append, find,
  Bool-cases, subst,
}
use rabb1t_claw.Agent.Request.{StreamJob}
use rabb1t_claw.Agent.Streaming.{
  Progress, StreamEnv, Ended, opened, start_progress, start_event, feed, checked, on_text, finish,
  final_text, last_deltas, emit_deltas, run_chunks, stream_agent_response, also_sent, cleaned,
}
use rabb1t_claw.Agent.Streaming.Shown.{after_texts, deltas_of, all_deltas, IsOpen, open-visible}
use rabb1t_claw.Events.{emit_stream_delta, emit_stream_done}
use rabb1t_claw.Markers.{strip_task_markers}
use rabb1t_claw.Protocol.{OutgoingFrame}
use rabb1t_claw.Session.{Disk}
use rabb1t_claw.State.{GatewayState}
use rabb1t_claw.Stream.{
  ThinkResult, pending, pass_through, stripped, check_think_block, StreamChunk, text, done,
}
use rabb1t_claw.Stream.Strip.{empty_block, strip-visible}

-- the chunks of a stream that delivers these texts and ends
abbrev pub text_chunks : List Text → List StreamChunk
text_chunks ts = map text ts ++ done ∷ []

checked-seq : (p : Progress) (buf : Text) (r : ThinkResult) → (checked p buf r).seq ≡ p.seq
checked-seq p buf pending = refl
checked-seq p buf pass_through = refl
checked-seq p buf (stripped u) = refl

if-seq :
    (b : Bool) (p q r : Progress) → q.seq ≡ p.seq → r.seq ≡ p.seq → (if b then q else r).seq ≡ p.seq
if-seq true p q r d e = d
if-seq false p q r d e = e

feed-seq : (p : Progress) (t : Text) → (feed p t).seq ≡ p.seq
unfolding feed
feed-seq p t =
    let buf = p.think_buf ++ t in
    if-seq p.think_done p (record p { full_response = p.full_response ++ t })
      (checked p buf (check_think_block buf)) refl (checked-seq p buf (check_think_block buf))

on_text-seq : (p : Progress) (t : Text) → (on_text p t).0.seq ≡ p.seq + length (on_text p t).1
unfolding on_text
on_text-seq p t = elim (Bool-cases (feed p t).think_done) [
  | inl e ↦ rw (e, feed-seq p t) refl
  | inr e ↦ rw (e, feed-seq p t) (omega arith)
]

after_texts-seq :
    (p : Progress) (ts : List Text) → (after_texts p ts).seq ≡ p.seq + length (deltas_of p ts)
unfolding after_texts deltas_of
after_texts-seq p [] = omega arith
after_texts-seq p (t ∷ ts) = omega (
  arith,
  after_texts-seq (on_text p t).0 ts,
  on_text-seq p t,
  length-append (on_text p t).1 (deltas_of (on_text p t).0 ts),
)

emit_deltas-append :
    (job : StreamJob) (now seq : ℕ) (xs ys : List Text)
    → emit_deltas job now seq (xs ++ ys)
      ≡ emit_deltas job now seq xs ++ emit_deltas job now (seq + length xs) ys
unfolding emit_deltas
emit_deltas-append job now seq [] ys = let e : seq + 0 ≡ seq = omega arith in rw e refl
emit_deltas-append job now seq (x ∷ xs) ys =
    let e : seq + length (x ∷ xs) ≡ seq + 1 + length xs = omega arith in
    ap (λ fs. emit_stream_delta job.run_id job.session_key seq now x ++ fs)
      (emit_deltas-append job now (seq + 1) xs ys)
    ∙ sym (
        append_assoc (emit_stream_delta job.run_id job.session_key seq now x)
          (emit_deltas job now (seq + 1) xs) _)
    ∙ ap
        (λ k.
          emit_stream_delta job.run_id job.session_key seq now x
          ++ emit_deltas job now (seq + 1) xs
          ++ emit_deltas job now k ys)
        (sym e)

also_sent-append :
    (xs ys : List OutgoingFrame) (o : Option Ended)
    → also_sent xs (also_sent ys o) ≡ also_sent (xs ++ ys) o
also_sent-append xs ys none = refl
also_sent-append xs ys (some r) =
    ap (λ (fs : List OutgoingFrame). some (record r { sent = fs }))
      (sym (append_assoc xs ys r.sent))

also_sent-nil : (o : Option Ended) → also_sent [] o ≡ o
also_sent-nil none = refl
also_sent-nil (some r) = refl

module _ (env : StreamEnv) (job : StreamJob) where
  run-texts :
      (s : GatewayState) (disk : Disk) (p : Progress) (ts : List Text)
      → run_chunks env job s disk p (text_chunks ts)
        ≡ also_sent
            (emit_deltas job env.now p.seq (deltas_of p ts))
            (finish env job s disk (after_texts p ts))
  unfolding run_chunks after_texts deltas_of emit_deltas
  run-texts s disk p [] = sym (also_sent-nil (finish env job s disk p))
  run-texts s disk p (t ∷ ts) =
      ap (also_sent (emit_deltas job env.now p.seq (on_text p t).1))
        (run-texts s disk (on_text p t).0 ts)
      ∙ also_sent-append (emit_deltas job env.now p.seq (on_text p t).1) _ _
      ∙ ap (λ fs. also_sent fs (finish env job s disk (after_texts (on_text p t).0 ts)))
          (ap
              (λ k.
                emit_deltas job env.now p.seq (on_text p t).1
                ++ emit_deltas job env.now k (deltas_of (on_text p t).0 ts))
              (on_text-seq p t)
            ∙ sym (
                emit_deltas-append job env.now p.seq (on_text p t).1
                  (deltas_of (on_text p t).0 ts)))

  -- the frames that the end of a run sends
  abbrev pub done_frames : ℕ → Text → List OutgoingFrame
  done_frames seq clean =
      emit_stream_done job.run_id job.request_id job.session_key seq env.started_at env.now clean

  abbrev Sends : List OutgoingFrame → Option Ended → Type 0
  Sends frames o = (r : Ended) × (o ≡ some r) × (r.sent ≡ frames)

  finish-Sends :
      (s : GatewayState) (disk : Disk) (p : Progress) (clean : Text)
      → strip_task_markers (final_text p) ≡ some clean
      → Sends
          (emit_deltas job env.now p.seq (last_deltas p)
            ++ done_frames (p.seq + length (last_deltas p)) clean)
          (finish env job s disk p)
  unfolding finish
  finish-Sends s disk p clean h = rw (h, finish) (_, refl, refl)

  also_sent-Sends :
      (xs ys : List OutgoingFrame) (o : Option Ended)
      → Sends ys o
      → Sends (xs ++ ys) (also_sent xs o)
  also_sent-Sends xs ys none (r, e, f) = absurd (none-ne-some r e)
  also_sent-Sends xs ys (some q) (r, e, f) =
      (_, refl, ap (◌++◌ xs) (ap (λ (x : Ended). x.sent) (some-injective q r e) ∙ f))

  -- the frames of a whole run
  abbrev pub run_frames : List Text → Text → List OutgoingFrame
  run_frames deltas clean =
      start_event job env.started_at
      ∷ (emit_deltas job env.now 1 deltas ++ done_frames (1 + length deltas) clean)

  cleaned-Sends :
      (frames : List OutgoingFrame) (o : Option Ended)
      → Sends frames o
      → Sends (start_event job env.started_at ∷ frames) (cleaned job env.started_at o)
  cleaned-Sends frames none (r, e, f) = absurd (none-ne-some r e)
  cleaned-Sends frames (some q) (r, e, f) = (
    _,
    refl,
    ap (◌∷◌ (start_event job env.started_at))
        (ap (λ (x : Ended). x.sent) (some-injective q r e) ∙ f),
  )

  frames-join :
      (p : Progress) (ts : List Text) (clean : Text)
      → emit_deltas job env.now p.seq (deltas_of p ts)
          ++ (emit_deltas job env.now (after_texts p ts).seq (last_deltas (after_texts p ts))
              ++ done_frames
                  ((after_texts p ts).seq + length (last_deltas (after_texts p ts)))
                  clean)
        ≡ emit_deltas job env.now p.seq (all_deltas p ts)
          ++ done_frames (p.seq + length (all_deltas p ts)) clean
  frames-join p ts clean =
      let q = after_texts p ts in
      let counted = length-append (deltas_of p ts) (last_deltas q) in
      let seq : q.seq + length (last_deltas q) ≡ p.seq + length (all_deltas p ts) =
        omega (arith, after_texts-seq p ts, counted) in
      sym (
        append_assoc (emit_deltas job env.now p.seq (deltas_of p ts))
          (emit_deltas job env.now q.seq (last_deltas q)) _)
      ∙ ap (λ fs. fs ++ done_frames (q.seq + length (last_deltas q)) clean)
          (ap
              (λ k.
                emit_deltas job env.now p.seq (deltas_of p ts)
                ++ emit_deltas job env.now k (last_deltas q))
              (after_texts-seq p ts)
            ∙ sym (emit_deltas-append job env.now p.seq (deltas_of p ts) (last_deltas q)))
      ∙ ap (λ k. emit_deltas job env.now p.seq (all_deltas p ts) ++ done_frames k clean) seq

  -- A run whose stream delivers some texts and ends, with a response past the think block, with no
  -- empty block and on which stripping does not panic: the run ends, the frames that it sends are
  -- the start event, one pair of events for each delta in order, numbered from 1, and the frames of
  -- the end, and the deltas together are the text that is sent at the end.
  pub run-sends :
      (s : GatewayState) (disk : Disk) (ts : List Text) (clean : Text)
      → (after_texts start_progress ts).think_done ≡ true
      → find empty_block (final_text (after_texts start_progress ts)) ≡ none
      → strip_task_markers (final_text (after_texts start_progress ts)) ≡ some clean
      → (r : Ended) × (deltas : List Text) × (stream_agent_response env job s disk
            (opened (text_chunks ts))
          ≡ some r)
        × (r.sent ≡ run_frames deltas clean)
        × (concat deltas ≡ clean)
  unfolding stream_agent_response
  run-sends s disk ts clean decided fine h =
      let p = start_progress in
      let q = after_texts p ts in
      let last = finish-Sends s disk q clean h in
      let whole =
        also_sent-Sends (emit_deltas job env.now 1 (deltas_of p ts)) _ (finish env job s disk q)
          last in
      let run = subst (Sends _) (sym (run-texts s disk p ts)) whole in
      let (r, e, f) = cleaned-Sends _ (run_chunks env job s disk p (text_chunks ts)) run in
      let fresh : IsOpen p = record { undecided = refl; unsent = refl; fresh = refl } in
      let shown =
        open-visible p ts fresh decided
        ∙ sym (strip-visible (final_text q) {clean = clean} fine h) in
      (
        r,
        all_deltas p ts,
        e,
        f ∙ ap (◌∷◌ (start_event job env.started_at)) (frames-join p ts clean),
        shown,
      )
