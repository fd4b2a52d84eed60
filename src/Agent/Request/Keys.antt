-- ===== src/Agent/Request/Keys.antt =====
-- The keys of the runs in flight, across a request.
use mathlib.Core.Option.{some-injective}
use rabb1t_claw.Base.{
  true, false, not, ◌||◌, Option, none, some, List, [], ◌∷◌, inl, inr, ◌≡◌, ◌↔◌, refl, sym, ap, ◌∙◌,
  arith, Text, text_eq_iff, is_empty, trim, Bool-cases,
}
use rabb1t_claw.Config.{main}
use rabb1t_claw.Config.Resolve.{ResolvedAgentModel, resolve_agent_model}
use rabb1t_claw.Json.{Json}
use rabb1t_claw.State.{GatewayState, RunKey}
use rabb1t_claw.Agent.Request.{
  RequestEnv, HandlerContext, Handled, StreamJob, Parsed, key_eq, in_flight, release, accept_run,
  handle_agent, handle_parsed, build_job, start_run, claim, ok, bad,
}

pub key_eq_iff : (k j : RunKey) → (key_eq k j ≡ true) ↔ (k ≡ j)
key_eq_iff (none, a) (none, b) = ground (arith, text_eq_iff a b)
key_eq_iff (none, a) (some u, b) = ground arith
key_eq_iff (some t, a) (none, b) = ground arith
key_eq_iff (some t, a) (some u, b) = ground (arith, text_eq_iff t u, text_eq_iff a b)

pub key_eq_refl : (k : RunKey) → key_eq k k ≡ true
key_eq_refl k = (key_eq_iff k k).1 refl

-- a key that is not in flight is not released from the others
pub release-absent :
    (keys : List RunKey) (key : RunKey) → in_flight keys key ≡ false → release keys key ≡ keys
unfolding in_flight
release-absent [] key h = refl
release-absent (k ∷ keys) key h = ground (arith, release-absent keys key)

-- What a request does to the keys: a job claims a new key, its own, and without a job they stay.
abbrev pub KeysKept : GatewayState → Handled → Type 0
KeysKept s h =
    (h.job ≡ none → h.state.active_requests ≡ s.active_requests)
    × ((j : StreamJob)
        → h.job ≡ some j
        → (in_flight s.active_requests j.dedup_key ≡ false)
          × (h.state.active_requests ≡ j.dedup_key ∷ s.active_requests))

start_run-KeysKept :
    (env : RequestEnv) (s : GatewayState) (ctx : HandlerContext) (run_id message : Text)
    (resolved : Option ResolvedAgentModel)
    → in_flight s.active_requests (ctx.device_token, run_id) ≡ false
    → KeysKept s (start_run env (claim s (ctx.device_token, run_id)) ctx run_id message resolved)
start_run-KeysKept env s ctx run_id message none h =
    let key : RunKey = (ctx.device_token, run_id) in
    (λ e. rw (key_eq_refl key) (release-absent s.active_requests key h), λ j e. ground arith)
start_run-KeysKept env s ctx run_id message (some resolved) h = (
  λ e. ground arith,
  λ j e.
      let key : RunKey = (ctx.device_token, run_id) in
      let claimed = claim s key in
      let own : j.dedup_key ≡ key =
        ap (λ (i : StreamJob). i.dedup_key)
          (sym (some-injective (build_job env claimed ctx run_id message resolved) j e))
        ∙ unfold build_job in refl in
      rw own (h, refl),
)

accept_run-KeysKept :
    (env : RequestEnv) (s : GatewayState) (ctx : HandlerContext) (run_id message : Text)
    → KeysKept s (accept_run env s ctx run_id message)
unfolding accept_run
accept_run-KeysKept env s ctx run_id message =
    let key : RunKey = (ctx.device_token, run_id) in
    elim (Bool-cases (not env.tx_open || in_flight s.active_requests key)) [
      | inl e ↦ rw e (λ x. refl, λ j x. ground arith)
      | inr e ↦ rw e (
          start_run-KeysKept env s ctx run_id message (resolve_agent_model s.gateway_config main)
            (ground arith))
    ]

-- After a request, whatever it is: if it started a job, the job's key was not in flight before and
-- is the one key that was added; if it started none, the keys in flight are as before.
pub handle_agent-KeysKept :
    (env : RequestEnv) (s : GatewayState) (ctx : HandlerContext) (params : Option Json)
    → KeysKept s (handle_agent env s ctx params)
unfolding handle_agent
handle_agent-KeysKept env s ctx none = (λ x. refl, λ j x. ground arith)
handle_agent-KeysKept env s ctx (some p) = parsed (env.parse p)
  where
    parsed : (q : Parsed) → KeysKept s (handle_parsed env s ctx q)
    parsed (bad e) = (λ x. refl, λ j x. ground arith)
    parsed (ok params) = elim (Bool-cases (is_empty (trim params.message))) [
      | inl e ↦ rw e (λ x. refl, λ j x. ground arith)
      | inr e ↦ rw e (accept_run-KeysKept env s ctx params.idempotency_key (trim params.message))
    ]
