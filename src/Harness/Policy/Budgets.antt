-- ===== src/Harness/Policy/Budgets.antt =====
-- The budgets of explorations over a whole run (internal/harness/policy.go).
use ai_web_testing.Prelude.{
  ℕ, ◌≤◌, ◌<◌, String, true, false, Option, none, some, List, [], ◌∷◌, ◌++◌, ◌≡◌, refl, ◌==◌, inl,
  inr, Bool-cases, arith,
}
use ai_web_testing.AgentService.Types.{Message, ModelTool, AgentRun}
use ai_web_testing.TaskPlan.Types.{Plan}
use ai_web_testing.Agent.Types.{is_exploration_tool}
use ai_web_testing.Harness.Policy.{
  Environment, ExplorationGateConfig, Limits, with_defaults, ExplorationState, no_exploration,
  BudgetSummary, refused_with, exploration_refusal, build_exploration_state,
  before_exploration_call, before_tool_call,
}
use ai_web_testing.Harness.Policy.Scan.{is_result, results, results-append, scan_runs}

module _ (env : Environment) (config : ExplorationGateConfig) where
  -- The transcripts that a run can have if it records the result of an exploration only after the
  -- policy let the call pass. The plan may change between calls, and messages of all other kinds come
  -- freely.
  pub data Session : List Message → Type 0 where
    started : Session []
    spoken :
        (t : List Message) (m : Message)
        → Session t
        → is_result env "explore_page" m ≡ false
        → is_result env "explore_flow" m ≡ false
        → (t' : List Message) → t' ≡ t ++ m ∷ []
        → Session t'
    explored :
        (run : AgentRun) (call : ModelTool) (plan : Option Plan) (m : Message)
        → Session run.transcript
        → before_tool_call env config run call plan ≡ none
        → (is_result env "explore_page" m ≡ true → call.name ≡ "explore_page")
        → (is_result env "explore_flow" m ≡ true → call.name ≡ "explore_flow")
        → (t' : List Message) → t' ≡ run.transcript ++ m ∷ []
        → Session t'

  refusal_of :
      (budget : BudgetSummary) (refusal : Option (String × String))
      → refused_with env budget refusal ≡ none
      → refusal ≡ none
  refusal_of budget none h = refl
  refusal_of budget (some (code, next_action)) h = absurd cc

  passes_exploration :
      (run : AgentRun) (call : ModelTool) (plan : Option Plan)
      → (call.name == "execute_dsl") ≡ false
      → is_exploration_tool call.name ≡ true
      → before_tool_call env config run call plan ≡ none
      → exploration_refusal env
          (with_defaults config)
          (build_exploration_state env run.transcript plan)
          run.created_at
          call
        ≡ none
  unfolding before_tool_call before_exploration_call
  passes_exploration run call plan other explores passed =
      refusal_of _ _ (rw (other, explores) at passed)

  page_below :
      (limits : Limits) (state : ExplorationState) (created : ℕ) (call : ModelTool)
      → (call.name == "explore_page") ≡ true
      → exploration_refusal env limits state created call ≡ none
      → state.run_page_calls < limits.run_page
  unfolding exploration_refusal
  page_below limits state created call page passed = ground (arith, page, passed)

  flow_below :
      (limits : Limits) (state : ExplorationState) (created : ℕ) (call : ModelTool)
      → (call.name == "explore_page") ≡ false
      → (call.name == "explore_flow") ≡ true
      → exploration_refusal env limits state created call ≡ none
      → state.run_flow_calls < limits.run_flow
  unfolding exploration_refusal
  flow_below limits state created call other flow passed = ground (arith, other, flow, passed)

  page_calls_below :
      (run : AgentRun) (call : ModelTool) (plan : Option Plan)
      → call.name ≡ "explore_page"
      → before_tool_call env config run call plan ≡ none
      → results env "explore_page" run.transcript < (with_defaults config).run_page
  unfolding build_exploration_state
  page_calls_below run call plan page passed =
      let passed' = passes_exploration run call plan (rw page) (rw page) passed in
      let below =
        page_below (with_defaults config) (build_exploration_state env run.transcript plan)
          run.created_at call (rw page) passed' in
      omega (arith, below, (scan_runs env plan run.transcript [] no_exploration).0)

  flow_calls_below :
      (run : AgentRun) (call : ModelTool) (plan : Option Plan)
      → call.name ≡ "explore_flow"
      → before_tool_call env config run call plan ≡ none
      → results env "explore_flow" run.transcript < (with_defaults config).run_flow
  unfolding build_exploration_state
  flow_calls_below run call plan flow passed =
      let passed' = passes_exploration run call plan (rw flow) (rw flow) passed in
      let below =
        flow_below (with_defaults config) (build_exploration_state env run.transcript plan)
          run.created_at call (rw flow) (rw flow) passed' in
      omega (arith, below, (scan_runs env plan run.transcript [] no_exploration).1)

  -- The results of explorations that a transcript holds are within the limits of the run.
  pub record IsWithinBudget (t : List Message) : Type 0 where
    pub pages : results env "explore_page" t ≤ (with_defaults config).run_page
    pub flows : results env "explore_flow" t ≤ (with_defaults config).run_flow

  -- One more message keeps the budget, if there is room for it.
  one_more :
      (tool : String) (t : List Message) (m : Message) (limit : ℕ)
      → results env tool t ≤ limit
      → (is_result env tool m ≡ true → results env tool t < limit)
      → results env tool (t ++ m ∷ []) ≤ limit
  unfolding results
  one_more tool t m limit within room = elim (Bool-cases (is_result env tool m)) [
    | inl p ↦ let r = room p in rw (results-append env tool t (m ∷ [])) (rw p (omega arith))
    | inr p ↦ rw (results-append env tool t (m ∷ [])) (rw p (omega arith))
  ]

  -- However often the plan is revised on the way: a run that records the results of explorations only
  -- after the policy let the calls pass never holds more results than the limits of the run allow.
  pub session-IsWithinBudget : (t : List Message) → Session t → IsWithinBudget t
  unfolding results
  session-IsWithinBudget t started = record { pages = omega arith; flows = omega arith }
  session-IsWithinBudget t' (spoken t m before no_page no_flow _ same) =
      let h = session-IsWithinBudget t before in
      rw same (record {
        pages = one_more "explore_page" t m _ h.pages (λ p. absurd (cc (p, no_page)));
        flows = one_more "explore_flow" t m _ h.flows (λ p. absurd (cc (p, no_flow)));
      })
  session-IsWithinBudget t' (explored run call plan m before passed page flow _ same) =
      let h = session-IsWithinBudget run.transcript before in
      rw same (record {
        pages =
            one_more "explore_page" run.transcript m _ h.pages
              (λ p. page_calls_below run call plan (page p) passed);
        flows =
            one_more "explore_flow" run.transcript m _ h.flows
              (λ p. flow_calls_below run call plan (flow p) passed);
      })
