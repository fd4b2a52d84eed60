-- ===== src/Agent/Advanced/Run/Loop.antt =====
-- The requests of a run from its second step on.
use rabb1t_claw.Base.{
  ℕ, zero, suc, ◌+◌, ◌≤◌, ◌<◌, false, List, [], ◌∷◌, ◌++◌, inl, inr, ◌≡◌, refl, arith, leb, ◌==◌,
  Bool-cases, Text, All, length, length-append,
}
use rabb1t_claw.Agent.Advanced.{AdvancedLimits}
use rabb1t_claw.Agent.Advanced.Run.{
  RunEnv, LoopState, Next, stop, go, Action, Ran, run_step, run_loop, ran_after,
}
use rabb1t_claw.Budget.{ChatMessage}
use rabb1t_claw.Config.Resolve.{ResolvedAgentModel}
use rabb1t_claw.Agent.Advanced.Run.Turns.{
  Begins, IsOpen, Waits, OnNext, steps_of, on_response-Waits,
}

-- the messages of a request: they wait for the model, and begin with the task and the plan
abbrev pub IsAsked : ChatMessage → ChatMessage → List ChatMessage → Type 0
IsAsked task plan ms = IsOpen ms × Begins task plan ms

module _ (env : RunEnv) (task_id : ℕ) (resolved : ResolvedAgentModel) (limits : AdvancedLimits)
    (prompt : Text) where
  -- what a step asks, and what it leaves
  abbrev Steps : ChatMessage → ChatMessage → ℕ → LoopState → Type 0
  Steps task plan step l =
      let s = run_step env task_id resolved limits prompt step l in
      All (IsAsked task plan) s.asked × (length s.asked ≤ 1) × OnNext step (Waits task plan) s.next

  run_step-Steps :
      (task plan : ChatMessage) (step : ℕ) (l : LoopState)
      → (step == 1) ≡ false
      → Waits task plan l
      → Steps task plan step l
  unfolding run_step
  run_step-Steps task plan step l later h =
      elim (Bool-cases (leb limits.total_timeout_secs (env.elapsed step))) [
        | inl e ↦ rw e (tt, omega arith, refl)
        | inr e ↦ rw e (
          (((h.turns, h.odd), h.begins), tt),
          omega arith,
          on_response-Waits task plan env task_id limits.total_timeout_secs step l _ later h,
        )
      ]

  abbrev pub RunsFor : ChatMessage → ChatMessage → ℕ → Ran → Type 0
  RunsFor task plan left r =
      All (IsAsked task plan) r.asked
      × (length r.asked ≤ left)
      × (steps_of r.finished ≤ limits.max_steps)

  All-join :
      (P : List ChatMessage → Type 0) (xs ys : List (List ChatMessage))
      → All P xs
      → All P ys
      → All P (xs ++ ys)
  All-join P [] ys h g = g
  All-join P (x ∷ xs) ys h g = (h.0, All-join P xs ys h.1 g)

  ran_after-RunsFor :
      (task plan : ChatMessage) (left step : ℕ) (next : Next) (actions : List Action)
      (asked : List (List ChatMessage)) (rest : LoopState → Ran)
      → step ≤ limits.max_steps
      → All (IsAsked task plan) asked
      → length asked ≤ 1
      → OnNext step (Waits task plan) next
      → ((l : LoopState) → Waits task plan l → RunsFor task plan left (rest l))
      → RunsFor task plan (suc left) (ran_after env task_id next actions asked rest)
  ran_after-RunsFor task plan left step (stop f) actions asked rest le all one n k =
      (all, omega (arith, one), omega (arith, n, le))
  ran_after-RunsFor task plan left step (go l) actions asked rest le all one n k =
      let (later, few, steps) = k l n in
      (
        All-join (IsAsked task plan) asked (rest l).asked all later,
        omega (arith, few, one, length-append asked (rest l).asked),
        steps,
      )

  pub run_loop-RunsFor :
      (task plan : ChatMessage) (left step : ℕ) (l : LoopState)
      → 1 < step
      → step + left ≡ limits.max_steps + 1
      → Waits task plan l
      → RunsFor task plan left (run_loop env task_id resolved limits prompt left step l)
  unfolding run_loop
  run_loop-RunsFor task plan zero step l after total h = (tt, omega arith, omega arith)
  run_loop-RunsFor task plan (suc left) step l after total h =
      let s = run_step env task_id resolved limits prompt step l in
      let (all, one, n) = run_step-Steps task plan step l (ground arith) h in
      ran_after-RunsFor task plan left step s.next s.actions s.asked
        (run_loop env task_id resolved limits prompt left (step + 1)) (omega (arith, total)) all one
        n
        (λ m w.
          run_loop-RunsFor task plan left (step + 1) m (omega (arith, after)) (omega (arith, total))
            w)
