-- ===== src/Agent/Search/Run/Settled.antt =====
-- When a search ends, and what it leaves then.
use mathlib.Core.Option
use rabb1t_claw.Base.{
  ℕ, ◌+◌, ◌<◌, false, Option, none, some, ◌↔◌, ◌≡◌, refl, arith, ltb, lt→ltb, ltb→lt, inl, inr,
  Bool-cases, Text, codes, find, trim,
}
use rabb1t_claw.Agent.Search.Run.{
  SearchLimits, SearchEnv, rfind, in_json_fence, in_plain_fence, or_braced, braced, extract_json,
  call_llm, plan_read, plan, searched, with_key, run_search_inner, status_of, search_ended,
  run_search,
}
use rabb1t_claw.Config.{GatewayConfig, search}
use rabb1t_claw.Config.Resolve.{ResolvedAgentModel, resolve_agent_model}
use rabb1t_claw.State.{GatewayState}
use rabb1t_claw.Stream.{Collected, ok, err}
use rabb1t_claw.Tracker.{search_status}
use rabb1t_claw.Tracker.Complete.{IsRunning, Frees, complete-Frees}

-- a text without a closed fence, whose last closing brace stands before its first opening one, not
-- directly
abbrev pub IsBackwards : Text → Type 0
IsBackwards t =
    (in_json_fence t ≡ none)
    × (in_plain_fence t ≡ none)
    × ((start : ℕ) × (end : ℕ) × (find (codes "{") t ≡ some start)
        × (rfind b'}' t ≡ some end)
        × (end + 1 < start))

map-none : {A B : Type 0} (f : A → B) (o : Option A) → Option.map f o ≡ none → o ≡ none
map-none f none h = refl
map-none f (some a) h = ground (arith, h)

braced-none :
    (t : Text) (o c : Option ℕ)
    → braced t o c ≡ none
    → (start : ℕ) × (end : ℕ) × (o ≡ some start) × (c ≡ some end) × (end + 1 < start)
braced-none t (some start) (some end) h = elim (Bool-cases (ltb (end + 1) start)) [
  | inl e ↦ (start, end, refl, refl, ltb→lt (end + 1) start e)
  | inr e ↦ ground (arith, e, h)
]
braced-none t none c h = ground (arith, h)
braced-none t (some start) none h = ground (arith, h)

or_braced-none :
    (t : Text) (json plain : Option Text)
    → or_braced t json plain ≡ none
    → (json ≡ none)
      × (plain ≡ none)
      × ((start : ℕ) × (end : ℕ) × (find (codes "{") t ≡ some start)
          × (rfind b'}' t ≡ some end)
          × (end + 1 < start))
or_braced-none t (some json) plain h = ground (arith, h)
or_braced-none t none (some json) h = ground (arith, h)
or_braced-none t none none h = (refl, refl, braced-none t (find (codes "{") t) (rfind b'}' t) h)

extract_json-none : (response : Text) → (extract_json response ≡ none) ↔ IsBackwards (trim response)
unfolding extract_json
extract_json-none response = (
  λ h.
      or_braced-none (trim response) (in_json_fence (trim response))
        (in_plain_fence (trim response)) h,
  λ (json, plain, (start, end, opens, closes, less)).
      rw (json, plain, opens, closes, lt→ltb (end + 1) start less) refl,
)

module _ (env : SearchEnv) (cfg : GatewayConfig) (limits : SearchLimits) (query : Text) where
  -- The key is set, and the model answers the request for a plan with such a text.
  abbrev pub IsPanic : Type 0
  IsPanic =
      (key : Text) × (r : ResolvedAgentModel) × (response : Text) × (env.api_key ≡ some key)
      × (resolve_agent_model cfg search ≡ some r)
      × (call_llm env r env.analyze_prompt query ≡ ok response)
      × IsBackwards (trim response)

  with_key-none :
      (o : Option Text)
      → with_key env o cfg limits query ≡ none
      → (key : Text) × (o ≡ some key) × (plan env (resolve_agent_model cfg search) query ≡ none)
  with_key-none none h = ground (arith, h)
  with_key-none (some key) h = (
    key,
    refl,
    map-none (searched env key _ limits query) (plan env (resolve_agent_model cfg search) query) h,
  )

  plan-none :
      (o : Option ResolvedAgentModel)
      → plan env o query ≡ none
      → (r : ResolvedAgentModel) × (o ≡ some r)
        × (plan_read env query (call_llm env r env.analyze_prompt query) ≡ none)
  unfolding plan
  plan-none none h = ground (arith, h)
  plan-none (some r) h = (r, refl, h)

  plan_read-none :
      (c : Collected)
      → plan_read env query c ≡ none
      → (response : Text) × (c ≡ ok response) × (extract_json response ≡ none)
  plan_read-none (err e) h = ground (arith, h)
  plan_read-none (ok response) h = (response, refl, map-none _ (extract_json response) h)

  run_search_inner-none : (run_search_inner env cfg limits query ≡ none) ↔ IsPanic
  unfolding run_search_inner plan
  run_search_inner-none = (
    λ h.
        let (key, set, unplanned) = with_key-none env.api_key h in
        let (r, resolved, unread) = plan-none (resolve_agent_model cfg search) unplanned in
        let (response, answer, broken) =
          plan_read-none (call_llm env r env.analyze_prompt query) unread in
        (key, r, response, set, resolved, answer, (extract_json-none response).0 broken),
    λ (key, r, response, set, resolved, answer, back).
        let broken = (extract_json-none response).1 back in
        let unread : plan_read env query (call_llm env r env.analyze_prompt query) ≡ none =
          rw (answer, broken) refl in
        let unplanned : plan env (resolve_agent_model cfg search) query ≡ none =
          rw (resolved, unread) refl in
        rw (set, unplanned) refl,
  )

-- what a search leaves that has ended, or not
abbrev pub IsLeft : Text → ℕ → ℕ → GatewayState → Option Collected → GatewayState → Type 0
IsLeft prefix id now s none end = end ≡ s
IsLeft prefix id now s (some r) end =
    Frees s.search_queries end.search_queries prefix id (status_of r) now

status_of-stops : (r : Collected) → search_status.is_running (status_of r) ≡ false
status_of-stops (ok context) = refl
status_of-stops (err e) = refl

search_ended-IsLeft :
    (prefix : Text) (id now : ℕ) (s : GatewayState) (o : Option Collected)
    → IsRunning s.search_queries prefix id
    → ((search_ended prefix id now s o).1 ≡ none ↔ o ≡ none)
      × IsLeft prefix id now s o (search_ended prefix id now s o).0
search_ended-IsLeft prefix id now s none h = ((λ e. refl, λ e. refl), refl)
search_ended-IsLeft prefix id now s (some r) h = (
  (λ e. ground (arith, e), λ e. ground (arith, e)),
  complete-Frees s.search_queries prefix id (status_of r) now h (status_of-stops r),
)

-- A registered search ends, whatever the search service and the pages do, unless a key is set and
-- the model answers the request for a plan with a text without a closed fence whose last closing brace
-- stands before the first opening one, and not directly: then the search panics. When it
-- ends, its place for the device is free, its item has the status of its result, and the items
-- of other devices are as they were. When it panics, the state is as before: the search counts as
-- running for ever.
pub run_search-Settled :
    (env : SearchEnv) (prefix : Text) (id now : ℕ) (limits : SearchLimits) (query : Text)
    (s : GatewayState)
    → IsRunning s.search_queries prefix id
    → ((run_search env prefix id now limits query s).1 ≡ none
        ↔ IsPanic env s.gateway_config limits query)
      × IsLeft prefix id now s
          (run_search_inner env s.gateway_config limits query)
          (run_search env prefix id now limits query s).0
unfolding run_search
run_search-Settled env prefix id now limits query s h =
    let o = run_search_inner env s.gateway_config limits query in
    let (silent, left) = search_ended-IsLeft prefix id now s o h in
    let panics = run_search_inner-none env s.gateway_config limits query in
    ((λ e. panics.0 (silent.0 e), λ p. silent.1 (panics.1 p)), left)
