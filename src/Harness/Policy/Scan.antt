-- ===== src/Harness/Policy/Scan.antt =====
-- The loop of buildExplorationState over a transcript in two parts (internal/harness/policy.go).
use ai_web_testing.Prelude.{
  ℕ, ◌+◌, String, Bool, true, false, not, ◌&&◌, ◌||◌, Option, none, some, List, [], ◌∷◌, ◌++◌, ◌≡◌,
  refl, ◌==◌, if◌then◌else◌, Dict, lookup, arith, eq_iff,
}
use ai_web_testing.AgentService.Types.{Message, ModelTool}
use ai_web_testing.TaskPlan.Types.{Plan}
use ai_web_testing.Agent.Types.{ModelToolSummary, decode_model_tool_summary}
use ai_web_testing.Harness.Policy.{
  Environment, ExplorationState, summary_matches_plan, register_calls, explores, count_signature,
  count_plan_of, count_run_of, count_result, scan,
}

module _ (env : Environment) where
  -- the map of calls after a transcript
  unfoldable pub calls_after : List Message → Dict ModelTool → Dict ModelTool
  calls_after [] calls = calls
  calls_after (message ∷ transcript) calls = calls_after transcript (
      if message.role == "assistant"
      then register_calls env (explores env) message.tool_calls calls
      else calls)

  pub scan-append :
      (plan : Option Plan) (t u : List Message) (calls : Dict ModelTool) (state : ExplorationState)
      → scan env plan (t ++ u) calls state
        ≡ scan env plan u (calls_after t calls) (scan env plan t calls state)
  unfolding scan calls_after
  scan-append plan [] u calls state = refl
  scan-append plan (message ∷ t) u calls state = scan-append plan t u _ _

  abbrev is_result_of : String → Option ModelToolSummary → Bool
  is_result_of tool none = false
  is_result_of tool (some summary) = summary.tool == tool

  -- a tool's message that is the summary of a result of `tool`
  abbrev pub is_result : String → Message → Bool
  is_result tool message =
      not (message.role == "assistant")
      && (message.role == "tool")
      && is_result_of tool (decode_model_tool_summary env.decoder message.content)

  abbrev pub one_if : Bool → ℕ
  one_if true = 1
  one_if false = 0

  unfoldable pub results : String → List Message → ℕ
  results tool [] = 0
  results tool (message ∷ transcript) = one_if (is_result tool message) + results tool transcript

  pub results-append :
      (tool : String) (t u : List Message) → results tool (t ++ u) ≡ results tool t + results tool u
  unfolding results
  results-append tool [] u = omega arith
  results-append tool (message ∷ t) u = omega (arith, results-append tool t u)

  not_both : (tool : String) → (tool == "explore_page") ≡ true → (tool == "explore_flow") ≡ false
  not_both tool h = rw ((eq_iff tool "explore_page").0 h)

  counted_signature :
      (call : Option ModelTool) (state : ExplorationState)
      → ((count_signature env call state).run_page_calls ≡ state.run_page_calls)
        × ((count_signature env call state).run_flow_calls ≡ state.run_flow_calls)
  counted_signature none state = (refl, refl)
  counted_signature (some call) state = ground arith

  count_result_runs :
      (plan : Option Plan) (call : Option ModelTool) (decoded : Option ModelToolSummary)
      (state : ExplorationState)
      → let state' = count_result env plan call decoded state in
        (state'.run_page_calls
          ≡ state.run_page_calls + one_if (is_result_of "explore_page" decoded))
        × (state'.run_flow_calls
            ≡ state.run_flow_calls + one_if (is_result_of "explore_flow" decoded))
  unfolding count_result
  count_result_runs plan call none state = omega arith
  count_result_runs plan call (some summary) state =
      by_tests (summary.tool == "explore_page") (summary.tool == "explore_flow")
        (summary_matches_plan summary plan) (not_both summary.tool)
    where
      by_tests :
          (page flow matches : Bool)
          → (page ≡ true → flow ≡ false)
          → let run = count_run_of env page state in
            let state' =
              if not (page || flow)
              then state
              else if not matches
              then run
              else count_signature env call (count_plan_of env page run) in
            (state'.run_page_calls ≡ state.run_page_calls + one_if page)
            × (state'.run_flow_calls ≡ state.run_flow_calls + one_if flow)
      by_tests true true matches h = absurd (cc (h refl))
      by_tests true false true h =
          omega
            (arith, counted_signature call (count_plan_of env true (count_run_of env true state)))
      by_tests true false false h = omega arith
      by_tests false true true h =
          omega
            (arith, counted_signature call (count_plan_of env false (count_run_of env false state)))
      by_tests false true false h = omega arith
      by_tests false false matches h = omega arith

  -- The run's counters are the numbers of results.
  pub scan_runs :
      (plan : Option Plan) (t : List Message) (calls : Dict ModelTool) (state : ExplorationState)
      → let state' = scan env plan t calls state in
        (state'.run_page_calls ≡ state.run_page_calls + results "explore_page" t)
        × (state'.run_flow_calls ≡ state.run_flow_calls + results "explore_flow" t)
  unfolding scan results
  scan_runs plan [] calls state = omega arith
  scan_runs plan (message ∷ t) calls state =
      let assistant = message.role == "assistant" in
      let calls' =
        if assistant then register_calls env (explores env) message.tool_calls calls else calls in
      let decoded = decode_model_tool_summary env.decoder message.content in
      let counted = count_result env plan (lookup message.tool_call_id calls) decoded state in
      let state' = if assistant || not (message.role == "tool") then state else counted in
      let later = scan_runs plan t calls' state' in
      let here = count_result_runs plan (lookup message.tool_call_id calls) decoded state in
      ground (arith, later, here)
