-- ===== src/Agent/Loop/Turns.antt =====
-- The turns of the agent loop (internal/agent/loop.go): how many there are at most.
use ai_web_testing.Prelude.{
  ℕ, zero, suc, ◌+◌, ◌≤◌, Bool, true, false, List, [], ◌∷◌, ◌++◌, ◌≡◌, refl, leb, if◌then◌else◌,
  Result, ok, err, Bool-cases, inl, inr, arith,
}
use ai_web_testing.AgentService.Types.{Message}
use ai_web_testing.Agent.Loop.{
  ModelResponse, limit_of, Outcome, exceeded, out_of_fuel, Caller, Finish, finish, after_handle,
  after_complete, assistant_message, prompt_message, model_context, run_turns, latest_tool_error,
}

abbrev pub is_ended : {E : Type 0} → Outcome E → Bool
is_ended out_of_fuel = false
is_ended _ = true

module _ {S E : Type 0} (caller : Caller S E) (bound : ℕ) where
  -- The run came to an end of the source's, after at most `bound` calls of the model.
  pub record EndsWithin (end_state : Finish S E) : Type 0 where
    pub ended : is_ended end_state.outcome ≡ true
    pub few_calls : end_state.model_calls ≤ bound

  after_complete-EndsWithin :
      (used : ℕ) (again : List Message → S → Finish S E) (transcript : List Message)
      (r : Result E ModelResponse × S)
      → suc used ≤ bound
      → ((t : List Message) (s : S) → EndsWithin (again t s))
      → EndsWithin (after_complete caller used again transcript r)
  unfolding finish
  after_complete-EndsWithin used again transcript (err e, s) few later = record {
    ended = refl;
    few_calls = few;
  }
  after_complete-EndsWithin used again transcript (ok response, s) few later =
      handled (caller.handle s (transcript ++ assistant_message response ∷ []) response)
    where
      handled :
          (h : Result E Bool × List Message × S)
          → EndsWithin (after_handle caller (suc used) again h)
      handled (ok true, t, s') = later t s'
      handled (ok false, t, s') = record { ended = refl; few_calls = few }
      handled (err e, t, s') = record { ended = refl; few_calls = few }

  module _
      (bounded : (s : S) (used : ℕ)
        → limit_of caller.max_turns (caller.turn_budget s used) ≤ bound) where
    from_round :
        (fuel used : ℕ) (transcript : List Message) (s : S)
        → used ≤ bound
        → suc bound ≤ fuel + used
        → EndsWithin (run_turns caller fuel used transcript s)
    unfolding run_turns finish
    from_round zero used transcript s few enough = absurd (omega arith)
    from_round (suc fuel) used transcript s few enough =
        by_limit (limit_of caller.max_turns (caller.turn_budget s used)) (bounded s used)
          (λ more t s'. from_round fuel (suc used) t s' more (omega arith))
      where
        by_limit :
            (limit : ℕ)
            → limit ≤ bound
            → (suc used ≤ bound
                → (t : List Message) (s' : S) → EndsWithin (run_turns caller fuel (suc used) t s'))
            → EndsWithin (
                if leb limit used
                then finish caller
                    (exceeded limit (latest_tool_error caller.decoder transcript))
                    used
                    transcript
                    s
                else after_complete caller used (run_turns caller fuel (suc used)) transcript (
                    caller.complete s
                      (prompt_message caller.system_prompt ∷ model_context transcript)))
        by_limit limit below later = elim (Bool-cases (leb limit used)) [
          | inl over ↦ rw over (record { ended = refl; few_calls = few })
          | inr under ↦
              let more : suc used ≤ bound = ground (arith, under, below) in
              rw under (after_complete-EndsWithin used _ transcript _ more (later more))
        ]

    -- If the turn limit never exceeds `bound`, whatever the model, the handler and the budget do, a
    -- run of the loop ends, and it has called the model at most `bound` times.
    pub run_turns-EndsWithin :
        (transcript : List Message) (s : S)
        → EndsWithin (run_turns caller (suc bound) 0 transcript s)
    run_turns-EndsWithin transcript s =
        from_round (suc bound) 0 transcript s (omega arith) (omega arith)
