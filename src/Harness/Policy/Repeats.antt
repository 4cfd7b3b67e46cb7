-- ===== src/Harness/Policy/Repeats.antt =====
-- Repeated calls of the governance tools (internal/harness/policy.go).
use ai_web_testing.Prelude.{
  String, Bool, true, false, Option, none, some, List, [], ◌∷◌, ◌++◌, ◌≡◌, refl, ◌==◌, eq_iff, any,
  Dict, ◌⊎◌, Bool-cases, inl, inr, ◌∙◌, ◌≢◌, lookup, if◌then◌else◌,
}
use ai_web_testing.Agent.Types.{
  ModelToolSummary, ErrorPayload, decode_model_tool_summary, succeeded,
}
use ai_web_testing.AgentService.Types.{Message, ModelTool, AgentRun}
use ai_web_testing.TaskPlan.Types.{Plan}
use ai_web_testing.Harness.Policy.{
  Environment, ExplorationGateConfig, PolicyError, governance_call_signature, or_later,
  register_calls, answers_same, refuse_failed, scan_outcomes, governance_outcome,
  before_governance_call, before_tool_call,
}

module _ (env : Environment) where
  -- The calls that the assistant's messages name, by id.
  unfoldable pub calls_named : List Message → Dict ModelTool → Dict ModelTool
  calls_named [] calls = calls
  calls_named (message ∷ transcript) calls = calls_named transcript (
      if message.role == "assistant"
      then register_calls env (λ candidate. true) message.tool_calls calls
      else calls)

  -- The content tells that the call succeeded (`true`) or failed: it is a summary, or else an error
  -- payload.
  abbrev pub Tells : String → Bool → Type 0
  Tells content o =
      ((summary : ModelToolSummary) × (decode_model_tool_summary env.decoder content ≡ some summary)
        × (o ≡ succeeded summary.success))
      ⊎ ((payload : ErrorPayload) × (decode_model_tool_summary env.decoder content ≡ none)
          × (env.decoder.error_payload content ≡ some payload)
          × (payload.status ≡ "error")
          × (o ≡ false))

  -- After `t`, the message answers a call with this tool and signature, and tells its outcome.
  pub record Answers (call : ModelTool) (signature : String) (calls : Dict ModelTool) (m : Message)
      (o : Bool) : Type 0 where
    pub is_tool : m.role ≡ "tool"
    pub names_call : m.tool_call_id ≢ ""
    pub original : ModelTool
    pub answered : lookup m.tool_call_id calls ≡ some original
    pub same_tool : original.name ≡ call.name
    pub same_signature : governance_call_signature env original ≡ signature
    pub tells : Tells m.content o

  first_of :
      (outcome : Option Bool) (short long : Option Bool) (o : Bool)
      → (short ≡ some o → long ≡ some o)
      → or_later env outcome short ≡ some o
      → or_later env outcome long ≡ some o
  first_of none short long o keep h = keep h
  first_of (some o') short long o keep h = h

  scan_outcomes-append :
      (call : ModelTool) (signature : String) (t u : List Message) (calls : Dict ModelTool)
      {o : Bool}
      → scan_outcomes env call signature t calls ≡ some o
      → scan_outcomes env call signature (t ++ u) calls ≡ some o
  unfolding scan_outcomes
  scan_outcomes-append call signature [] u calls found = cc
  scan_outcomes-append call signature (message ∷ t) u calls found =
      first_of _ _ _ _ (scan_outcomes-append call signature t u _) found

  governance_outcome-append :
      (call : ModelTool) (signature : String) (t later : List Message) {o : Bool}
      → governance_outcome env t call signature ≡ some o
      → governance_outcome env (t ++ later) call signature ≡ some o
  unfolding governance_outcome
  governance_outcome-append call signature t later found =
      scan_outcomes-append call signature t later [] found

  -- the tools whose repeats are governed
  abbrev pub is_governed : String → Bool
  is_governed tool =
      any (λ t. tool == t) ("set_task_plan" ∷ "generate_dsl" ∷ "get_report" ∷ "fix_and_retry" ∷ [])

  other_tool :
      (tool other : String)
      → is_governed tool ≡ true
      → is_governed other ≡ false
      → (tool == other) ≡ false
  other_tool tool other governed free = elim (Bool-cases (tool == other)) [
    | inl p ↦ let h = rw ((eq_iff tool other).0 p) at governed in absurd (cc (h, free))
    | inr p ↦ p
  ]

  refused_failure :
      (call : ModelTool) (signature : String) (outcome : Option Bool) (refusal : PolicyError)
      → refuse_failed env call signature outcome ≡ some refusal
      → outcome ≡ some false
  refused_failure call signature (some false) refusal h = refl
  refused_failure call signature (some true) refusal h = cc
  refused_failure call signature none refusal h = cc

  refused_again :
      (call : ModelTool) (signature : String) (t later : List Message) (refusal : PolicyError)
      → refuse_failed env call signature (governance_outcome env t call signature) ≡ some refusal
      → refuse_failed env call signature (governance_outcome env (t ++ later) call signature)
        ≡ some refusal
  refused_again call signature t later refusal h =
      let failed =
        refused_failure call signature (governance_outcome env t call signature) refusal h in
      rw (governance_outcome-append call signature t later failed) (rw failed at h)

  before_governance_call-repeated :
      (run next : AgentRun) (call : ModelTool) (later : List Message) (refusal : PolicyError)
      → next.transcript ≡ run.transcript ++ later
      → before_governance_call env run call ≡ some refusal
      → before_governance_call env next call ≡ some refusal
  unfolding before_governance_call
  before_governance_call-repeated run next call later refusal grown refused =
      rw grown (elim (Bool-cases (governance_call_signature env call == "")) [
        | inl p ↦ absurd (cc (rw p at refused))
        | inr p ↦ rw p (
            refused_again call (governance_call_signature env call) run.transcript later refusal
              (rw p at refused))
      ])

  governed_call :
      (config : ExplorationGateConfig) (run : AgentRun) (call : ModelTool) (plan : Option Plan)
      → is_governed call.name ≡ true
      → before_tool_call env config run call plan ≡ before_governance_call env run call
  unfolding before_tool_call
  governed_call config run call plan governed = rw (
    other_tool call.name "execute_dsl" governed refl,
    other_tool call.name "explore_page" governed refl,
    other_tool call.name "explore_flow" governed refl,
    governed,
  )

  -- A call that differs in its id only.
  abbrev with_id : String → ModelTool → ModelTool
  with_id id call = record call { id = id }

  answers_same-with_id :
      (call : ModelTool) (id signature : String) (original : Option ModelTool)
      → answers_same env (with_id id call) signature original
        ≡ answers_same env call signature original
  unfolding answers_same
  answers_same-with_id call id signature none = refl
  answers_same-with_id call id signature (some original) = refl

  scan_outcomes-with_id :
      (call : ModelTool) (id signature : String) (t : List Message) (calls : Dict ModelTool)
      → scan_outcomes env (with_id id call) signature t calls
        ≡ scan_outcomes env call signature t calls
  unfolding scan_outcomes
  scan_outcomes-with_id call id signature [] calls = refl
  scan_outcomes-with_id call id signature (message ∷ t) calls = rw (
    answers_same-with_id call id signature (lookup message.tool_call_id _),
    scan_outcomes-with_id call id signature t _,
  )

  refuse_failed-with_id :
      (call : ModelTool) (id signature : String) (outcome : Option Bool)
      → refuse_failed env (with_id id call) signature outcome
        ≡ refuse_failed env call signature outcome
  refuse_failed-with_id call id signature none = refl
  refuse_failed-with_id call id signature (some true) = refl
  refuse_failed-with_id call id signature (some false) = refl

  before_governance_call-with_id :
      (run : AgentRun) (call : ModelTool) (id : String)
      → before_governance_call env run (with_id id call) ≡ before_governance_call env run call
  unfolding before_governance_call governance_call_signature governance_outcome
  before_governance_call-with_id run call id =
      let signature = governance_call_signature env call in
      rw (
        scan_outcomes-with_id call id signature run.transcript [],
        refuse_failed-with_id call id signature
            (scan_outcomes env call signature run.transcript []),
      )

  -- Once the policy has refused a governed call as the repeat of a failure, it refuses each call with
  -- the same tool and arguments, whatever its id, for the rest of the run, under any plan.
  pub before_tool_call-repeated :
      (config : ExplorationGateConfig) (run next : AgentRun) (call : ModelTool) (id : String)
      (plan plan' : Option Plan) (later : List Message)
      → is_governed call.name ≡ true
      → next.transcript ≡ run.transcript ++ later
      → (refusal : PolicyError) → before_tool_call env config run call plan ≡ some refusal
      → before_tool_call env config next (record call { id = id }) plan' ≡ some refusal
  before_tool_call-repeated config run next call id plan plan' later governed grown refusal
        refused =
      governed_call config next (with_id id call) plan' governed
      ∙ before_governance_call-with_id next call id
      ∙ before_governance_call-repeated run next call later refusal grown
          (rw (governed_call config run call plan governed) at refused)
