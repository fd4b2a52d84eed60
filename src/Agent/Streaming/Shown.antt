-- ===== src/Agent/Streaming/Shown.antt =====
-- What the device is sent while a run streams, against the text that is stored at its end.
use rabb1t_claw.Base.{
  ◌+◌, true, false, List, [], ◌∷◌, ◌++◌, inl, inr, ◌⊎◌, ◌≡◌, refl, sym, ap, ◌∙◌, arith, Text,
  length, concat, append-nil, append_assoc,
}
use rabb1t_claw.Agent.Streaming.{Progress, feed, on_text, final_text, last_deltas, flushed}
use rabb1t_claw.Stream.{
  ThinkResult, pending, pass_through, stripped, check_think_block, MarkerFilter, new_filter, drain,
  relay,
}
use rabb1t_claw.Stream.Scan.{visible}
use rabb1t_claw.Stream.Chunks.{relay-visible, relay-cons}

-- the variables after some chunks of text, and the deltas that were sent for them
unfoldable pub after_texts : Progress → List Text → Progress
after_texts p [] = p
after_texts p (t ∷ ts) = after_texts (on_text p t).0 ts

unfoldable pub deltas_of : Progress → List Text → List Text
deltas_of p [] = []
deltas_of p (t ∷ ts) = (on_text p t).1 ++ deltas_of (on_text p t).0 ts

-- the deltas of the whole run, with what the flush at its end gives
abbrev pub all_deltas : Progress → List Text → List Text
all_deltas p ts = deltas_of p ts ++ last_deltas (after_texts p ts)

-- both, from what a step gives
abbrev from_step : Progress × List Text → List Text → List Text
from_step (p, deltas) ts = deltas ++ (deltas_of p ts ++ last_deltas (after_texts p ts))

all_deltas-cons :
    (p : Progress) (t : Text) (ts : List Text) → all_deltas p (t ∷ ts) ≡ from_step (on_text p t) ts
unfolding deltas_of after_texts
all_deltas-cons p t ts = append_assoc (on_text p t).1 (deltas_of (on_text p t).0 ts) _

pub after_texts-cons :
    (p : Progress) (t : Text) (ts : List Text)
    → after_texts p (t ∷ ts) ≡ after_texts (on_text p t).0 ts
unfolding after_texts
after_texts-cons p t ts = refl

-- once the check for a think block is over, a chunk is appended and drained
abbrev drained : Progress → Text → Progress × List Text
drained p full =
    let (deltas, m) = drain p.marker_filter full in
    (record p { full_response = full; marker_filter = m; seq = p.seq + length deltas }, deltas)

on_text-decided :
    (p : Progress) (t : Text) → p.think_done ≡ true → on_text p t ≡ drained p (p.full_response ++ t)
unfolding on_text feed
on_text-decided p t h = rw h refl

final_text-decided : (p : Progress) → p.think_done ≡ true → final_text p ≡ p.full_response
final_text-decided p h = rw h refl

relay-nil : (m : MarkerFilter) (full : Text) → relay m full [] ≡ flushed m full
unfolding relay
relay-nil m full = refl

decided-relay :
    (p : Progress) (ts : List Text)
    → p.think_done ≡ true
    → (all_deltas p ts ≡ relay p.marker_filter p.full_response ts)
      × (final_text (after_texts p ts) ≡ p.full_response ++ concat ts)
unfolding after_texts deltas_of
decided-relay p [] h = (
  ap (flushed p.marker_filter) (final_text-decided p h)
      ∙ sym (relay-nil p.marker_filter p.full_response),
  final_text-decided p h ∙ sym (append-nil p.full_response),
)
decided-relay p (t ∷ ts) h =
    let full = p.full_response ++ t in
    let next = drained p full in
    let step = on_text-decided p t h in
    let rest = decided-relay next.0 ts h in
    (
      all_deltas-cons p t ts
          ∙ ap (λ x. from_step x ts) step
          ∙ ap (◌++◌ next.1) rest.0
          ∙ sym (relay-cons p.marker_filter p.full_response t ts),
      ap (λ x. final_text (after_texts x.0 ts)) step
          ∙ rest.1
          ∙ append_assoc p.full_response t (concat ts),
    )

-- before it, nothing is in the full response and nothing was sent
pub record IsOpen (p : Progress) : Type 0 where
  pub undecided : p.think_done ≡ false
  pub unsent : p.full_response ≡ []
  pub fresh : p.marker_filter ≡ new_filter

abbrev settled : Progress → Progress
settled p = record p { think_done = true; think_buf = [] }

settled-visible :
    (p : Progress) (ts : List Text)
    → IsOpen p
    → concat (all_deltas (settled p) ts) ≡ visible (final_text (after_texts (settled p) ts))
settled-visible p ts o =
    let (deltas, final) = decided-relay (settled p) ts refl in
    rw (deltas, final, o.fresh, o.unsent) (relay-visible ts)

same_step :
    (p q : Progress) (t u : Text) (ts : List Text)
    → on_text p t ≡ on_text q u
    → (all_deltas p (t ∷ ts) ≡ all_deltas q (u ∷ ts))
      × (after_texts p (t ∷ ts) ≡ after_texts q (u ∷ ts))
same_step p q t u ts e = (
  all_deltas-cons p t ts ∙ ap (λ x. from_step x ts) e ∙ sym (all_deltas-cons q u ts),
  after_texts-cons p t ts ∙ ap (λ x. after_texts x.0 ts) e ∙ sym (after_texts-cons q u ts),
)

on_text-pass_through :
    (p : Progress) (t : Text)
    → p.think_done ≡ false
    → check_think_block (p.think_buf ++ t) ≡ pass_through
    → on_text p t ≡ on_text (settled p) (p.think_buf ++ t)
unfolding on_text feed
on_text-pass_through p t h c = rw (h, c) refl

on_text-stripped :
    (p : Progress) (t u : Text)
    → p.think_done ≡ false
    → check_think_block (p.think_buf ++ t) ≡ stripped u
    → on_text p t ≡ on_text (settled p) u
unfolding on_text feed
on_text-stripped p t u h c = rw (h, c) refl

on_text-pending :
    (p : Progress) (t : Text)
    → p.think_done ≡ false
    → check_think_block (p.think_buf ++ t) ≡ pending
    → on_text p t ≡ (record p { think_buf = p.think_buf ++ t }, [])
unfolding on_text feed
on_text-pending p t h c = rw (h, c) refl

ThinkResult-cases :
    (r : ThinkResult) → (r ≡ pending) ⊎ ((r ≡ pass_through) ⊎ ((u : Text) × (r ≡ stripped u)))
ThinkResult-cases pending = inl refl
ThinkResult-cases pass_through = inr (inl refl)
ThinkResult-cases (stripped u) = inr (inr (u, refl))

-- what follows for a run from what follows from a step
by_step :
    (p : Progress) (t u : Text) (ts : List Text)
    → IsOpen p
    → on_text p t ≡ on_text (settled p) u
    → concat (all_deltas p (t ∷ ts)) ≡ visible (final_text (after_texts p (t ∷ ts)))
by_step p t u ts o e =
    let (deltas, after) = same_step p (settled p) t u ts e in
    rw (deltas, after) (settled-visible p (u ∷ ts) o)

decided_open : (p : Progress) → (after_texts p []).think_done ≡ true → IsOpen p → ⊥
unfolding after_texts
decided_open p h o = ground (arith, h, o.undecided)

pub open-visible :
    (p : Progress) (ts : List Text)
    → IsOpen p
    → (after_texts p ts).think_done ≡ true
    → concat (all_deltas p ts) ≡ visible (final_text (after_texts p ts))
open-visible p [] o h = absurd (decided_open p h o)
open-visible p (t ∷ ts) o h = elim (ThinkResult-cases (check_think_block (p.think_buf ++ t))) [
  | inl c ↦
      let waiting : Progress = record p { think_buf = p.think_buf ++ t } in
      let step = on_text-pending p t o.undecided c in
      let still : IsOpen waiting = record {
        undecided = o.undecided;
        unsent = o.unsent;
        fresh = o.fresh;
      } in
      let after = after_texts-cons p t ts ∙ ap (λ x. after_texts x.0 ts) step in
      ap concat (all_deltas-cons p t ts ∙ ap (λ x. from_step x ts) step)
      ∙ open-visible waiting ts still (ap (λ (q : Progress). q.think_done) (sym after) ∙ h)
      ∙ ap (λ q. visible (final_text q)) (sym after)
  | inr (inl c) ↦ by_step p t (p.think_buf ++ t) ts o (on_text-pass_through p t o.undecided c)
  | inr (inr (u, c)) ↦ by_step p t u ts o (on_text-stripped p t u o.undecided c)
]
