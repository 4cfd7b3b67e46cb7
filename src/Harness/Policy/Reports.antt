-- ===== src/Harness/Policy/Reports.antt =====
-- The budget that a result reports (ExplorationBudget of internal/harness/policy.go).
use ai_web_testing.Prelude.{
  true, false, Option, some, List, [], ◌∷◌, ◌++◌, ◌≡◌, ◌∙◌, ap, sym, ◌==◌, lookup, Bool-cases, inl,
  inr,
}
use ai_web_testing.AgentService.Types.{Message, ModelTool, AgentRun}
use ai_web_testing.TaskPlan.Types.{Plan}
use ai_web_testing.Agent.Types.{ModelToolSummary, decode_model_tool_summary, is_exploration_tool}
use ai_web_testing.Harness.Policy.{
  Environment, ExplorationGateConfig, Limits, with_defaults, ExplorationState, no_exploration,
  summary_matches_plan, exploration_call_signature, count_signature, count_plan, count_run,
  count_result, scan, build_exploration_state, exploration_budget_summary, exploration_budget,
}
use ai_web_testing.Harness.Policy.Scan.{calls_after, scan-append}

module _ (env : Environment) where
  -- Counting a result is what the report did in advance.
  count_result-explored :
      (plan : Option Plan) (call : ModelTool) (summary : ModelToolSummary)
      (state : ExplorationState)
      → summary.tool ≡ call.name
      → is_exploration_tool call.name ≡ true
      → summary_matches_plan summary plan ≡ true
      → count_result env plan (some call) (some summary) state
        ≡ count_signature env (some call) (count_plan env call.name (count_run env call.name state))
  unfolding count_result
  count_result-explored plan call summary state same explores matches = rw (matches, same, explores)

  -- The state after the result's message.
  state_after :
      (t : List Message) (m : Message) (plan : Option Plan) (call : ModelTool)
      (summary : ModelToolSummary)
      → m.role ≡ "tool"
      → decode_model_tool_summary env.decoder m.content ≡ some summary
      → lookup m.tool_call_id (calls_after env t []) ≡ some call
      → build_exploration_state env (t ++ m ∷ []) plan
        ≡ count_result env plan (some call) (some summary) (build_exploration_state env t plan)
  unfolding build_exploration_state
  state_after t m plan call summary role decoded answered =
      scan-append env plan t (m ∷ []) [] no_exploration
      ∙ (unfold scan in rw (role, decoded, answered))

  -- A summary of a completed call is the summary of the state in which the call is counted.
  counted_in_advance :
      (limits : Limits) (state : ExplorationState) (plan : Option Plan) (call : ModelTool)
      → is_exploration_tool call.name ≡ true
      → exploration_budget_summary env limits state plan (some call) true
        ≡ exploration_budget_summary env limits
            (count_signature env
              (some call)
              (count_plan env call.name (count_run env call.name state)))
            plan
            (some call)
            false
  unfolding exploration_budget_summary
  counted_in_advance limits state plan call explores =
      elim (Bool-cases (exploration_call_signature env call.name call.arguments == "")) [
        | inl p ↦ rw (explores, p)
        | inr p ↦ rw (explores, p)
      ]

  -- The budget that is reported with the result of an exploration, before the result stands in the
  -- transcript, is the budget by which the policy judges the same call once it does: the two summaries
  -- are equal, if the result's message is the summary of this call, for the current plan.
  pub exploration_budget-next :
      (config : ExplorationGateConfig) (run : AgentRun) (plan : Option Plan) (call : ModelTool)
      (m : Message) (summary : ModelToolSummary)
      → is_exploration_tool call.name ≡ true
      → m.role ≡ "tool"
      → decode_model_tool_summary env.decoder m.content ≡ some summary
      → summary.tool ≡ call.name
      → summary_matches_plan summary plan ≡ true
      → lookup m.tool_call_id (calls_after env run.transcript []) ≡ some call
      → exploration_budget env config run plan (some call)
        ≡ exploration_budget_summary env
            (with_defaults config)
            (build_exploration_state env (run.transcript ++ m ∷ []) plan)
            plan
            (some call)
            false
  unfolding exploration_budget
  exploration_budget-next config run plan call m summary explores role decoded same matches
        answered =
      let before = build_exploration_state env run.transcript plan in
      counted_in_advance (with_defaults config) before plan call explores
      ∙ ap
          (λ state.
            exploration_budget_summary env (with_defaults config) state plan (some call) false)
          (sym (
            state_after run.transcript m plan call summary role decoded answered
            ∙ count_result-explored plan call summary before same explores matches))
