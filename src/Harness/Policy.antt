-- ===== src/Harness/Policy.antt =====
-- The policy of tool calls (internal/harness/policy.go). A limit that the defaults fill in is positive,
-- so it is a number; a wall time that is not positive is 0, "no limit". Times are in nanoseconds.
pub mod Scan
pub mod Budgets
pub mod Reports
pub mod Repeats
use ai_web_testing.Prelude.{
  ℕ, zero, suc, ◌+◌, ◌-◌, ◌*◌, String, Bool, true, false, not, ◌&&◌, ◌||◌, Option, none, some, List,
  [], ◌∷◌, leb, ltb, if◌then◌else◌, ◌==◌, any, Dict, lookup, insert, ℤ, pos, negsuc, int_eq,
}
use Prim.Native.Char.{Char}
use Prim.Native.String as Text
use ai_web_testing.AgentService.Types.{
  Json, null, bool, num, text, arr, obj, Items, nil, cons, Fields, end, field, Time, AgentRun,
  Message, ModelTool,
}
use ai_web_testing.TaskPlan.Types.{Plan}
use ai_web_testing.TaskPlan.Rules.{normalize}
use ai_web_testing.Agent.Types.{
  PlanRef, ModelToolSummary, ErrorPayload, Decoder, decode_model_tool_summary, is_exploration_tool,
  succeeded,
}

pub record ExplorationGateConfig : Type 0 where
  pub max_explore_page_calls : ℤ
  pub max_explore_flow_calls : ℤ
  pub max_run_explore_page_calls : ℤ
  pub max_run_explore_flow_calls : ℤ
  pub max_repeated_explore_page_signature_calls : ℤ
  pub max_repeated_explore_flow_signature_calls : ℤ
  pub max_run_wall_time : ℤ
  pub explore_reserve : ℤ

-- The configuration with its defaults.
pub record Limits : Type 0 where
  pub plan_page : ℕ
  pub plan_flow : ℕ
  pub run_page : ℕ
  pub run_flow : ℕ
  pub repeated_page : ℕ
  pub repeated_flow : ℕ
  pub wall_time : ℕ
  pub reserve : ℕ

abbrev pub or_default : ℤ → ℕ → ℕ
or_default (pos (suc n)) default = suc n
or_default _ default = default

unfoldable pub with_defaults : ExplorationGateConfig → Limits
with_defaults c = record {
  plan_page = or_default c.max_explore_page_calls 5;
  plan_flow = or_default c.max_explore_flow_calls 4;
  run_page = or_default c.max_run_explore_page_calls 10;
  run_flow = or_default c.max_run_explore_flow_calls 8;
  repeated_page = or_default c.max_repeated_explore_page_signature_calls 1;
  repeated_flow = or_default c.max_repeated_explore_flow_signature_calls 1;
  wall_time = or_default c.max_run_wall_time 0;
  reserve = or_default c.explore_reserve (90 * 1_000_000_000);
}

pub record ExplorationState : Type 0 where
  pub plan_page_calls : ℕ
  pub plan_flow_calls : ℕ
  pub run_page_calls : ℕ
  pub run_flow_calls : ℕ
  pub plan_signatures : Dict ℕ

abbrev pub no_exploration : ExplorationState
no_exploration = record {
  plan_page_calls = 0;
  plan_flow_calls = 0;
  run_page_calls = 0;
  run_flow_calls = 0;
  plan_signatures = [];
}

-- What the policy takes from elsewhere: the clock, encoding/json, SHA-256 and the case table of runes.
pub record Environment : Type 0 where
  pub now : Time
  pub lower : Char → Char
  pub unmarshal : String → Option Json
  pub marshal : Json → Option String
  pub sha256 : String → String
  pub decoder : Decoder

pub record BudgetCounter : Type 0 where
  pub used : ℕ
  pub limit : ℕ
  pub remaining : ℕ

pub record BudgetSummary : Type 0 where
  pub scope : String
  pub plan : Option PlanRef
  pub explore_page : BudgetCounter
  pub explore_flow : BudgetCounter
  pub run_explore_page : BudgetCounter
  pub run_explore_flow : BudgetCounter
  pub repeated_explore_page_limit : ℕ
  pub repeated_explore_flow_limit : ℕ
  pub current_tool : String
  pub current_signature_fingerprint : String
  pub current_signature_uses : Option ℕ
  pub current_signature_remaining : Option ℕ

-- errors.New, and ExplorationGateError: its code, its budget and its next action
pub data PolicyError : Type 0 where
  not_approved : PolicyError
  gate : String → BudgetSummary → String → PolicyError

unfoldable pub remaining : ℕ → ℕ → ℕ
remaining limit used = if leb limit used then 0 else limit - used

unfoldable pub budget_counter : ℕ → ℕ → BudgetCounter
budget_counter used limit = record { used = used; limit = limit; remaining = remaining limit used }

abbrev pub repeated_signature_limit : Limits → String → ℕ
repeated_signature_limit limits tool =
    if tool == "explore_page" then limits.repeated_page else limits.repeated_flow

abbrev pub count_of : Dict ℕ → String → ℕ
count_of counts key = or_zero (lookup key counts)
  where
    or_zero : Option ℕ → ℕ
    or_zero none = 0
    or_zero (some n) = n

-- `counts[key]++`
abbrev pub increment : String → Dict ℕ → Dict ℕ
increment key counts = insert key (count_of counts key + 1) counts

abbrev same_plan : Plan → Option PlanRef → Bool
same_plan plan none = false
same_plan plan (some ref) = ref.plan_id == plan.id && int_eq ref.version plan.version

unfoldable pub summary_matches_plan : ModelToolSummary → Option Plan → Bool
summary_matches_plan summary none = true
summary_matches_plan summary (some plan) = same_plan plan summary.task_plan

-- the keys that do not change what a call means
abbrev is_dropped : String → Bool
is_dropped key =
    any (λ k. key == k)
      ("timeout_ms" ∷ "flow_description" ∷ "core_user_flow_text" ∷ "observation_schema_version"
        ∷ "description" ∷ [])

module _ (env : Environment) where
  unfoldable mutual
    pub normalize_json_for_signature : Json → Json
    normalize_json_for_signature null = null
    normalize_json_for_signature (bool b) = bool b
    normalize_json_for_signature (num n) = num n
    normalize_json_for_signature (text s) = text (normalize env.lower s)
    normalize_json_for_signature (arr items) = arr (normalize_items items)
    normalize_json_for_signature (obj fields) = obj (normalize_fields fields)

    pub normalize_items : Items → Items
    normalize_items nil = nil
    normalize_items (cons item items) =
        cons (normalize_json_for_signature item) (normalize_items items)

    pub normalize_fields : Fields → Fields
    normalize_fields end = end
    normalize_fields (field key value fields) =
        let rest = normalize_fields fields in
        if is_dropped key then rest else field key (normalize_json_for_signature value) rest

  abbrev hashed : Option String → String
  hashed none = ""
  hashed (some encoded) = env.sha256 encoded

  abbrev signed : String → Option Json → String
  signed tool none = ""
  signed tool (some value) = hashed (
      env.marshal (
        obj
          (field "arguments" (normalize_json_for_signature value) (field "tool" (text tool) end))))

  unfoldable pub exploration_call_signature : String → String → String
  exploration_call_signature tool arguments = signed tool (env.unmarshal arguments)

  unfoldable pub governance_call_signature : ModelTool → String
  unfolding exploration_call_signature
  governance_call_signature call = exploration_call_signature call.name call.arguments

  -- `calls[call.ID] = call` for each call of a message
  unfoldable pub register_calls :
      (ModelTool → Bool) → List ModelTool → Dict ModelTool → Dict ModelTool
  register_calls relevant [] calls = calls
  register_calls relevant (call ∷ rest) calls =
      register_calls relevant rest
        (if relevant call && not (call.id == "") then insert call.id call calls else calls)

  abbrev explores : ModelTool → Bool
  explores call = is_exploration_tool call.name

  abbrev count_signature : Option ModelTool → ExplorationState → ExplorationState
  count_signature none state = state
  count_signature (some call) state =
      let signature = exploration_call_signature call.name call.arguments in
      if signature == ""
      then state
      else record state { plan_signatures = increment signature state.plan_signatures }

  abbrev count_run_of : Bool → ExplorationState → ExplorationState
  count_run_of page state =
      if page
      then record state { run_page_calls = state.run_page_calls + 1 }
      else record state { run_flow_calls = state.run_flow_calls + 1 }

  abbrev count_run : String → ExplorationState → ExplorationState
  count_run tool state = count_run_of (tool == "explore_page") state

  abbrev count_plan_of : Bool → ExplorationState → ExplorationState
  count_plan_of page state =
      if page
      then record state { plan_page_calls = state.plan_page_calls + 1 }
      else record state { plan_flow_calls = state.plan_flow_calls + 1 }

  abbrev count_plan : String → ExplorationState → ExplorationState
  count_plan tool state = count_plan_of (tool == "explore_page") state

  -- a tool's message, by what its content decodes to
  unfoldable pub count_result :
      Option Plan → Option ModelTool → Option ModelToolSummary → ExplorationState → ExplorationState
  count_result plan call none state = state
  count_result plan call (some summary) state =
      if not (is_exploration_tool summary.tool)
      then state
      else if not (summary_matches_plan summary plan)
      then count_run summary.tool state
      else count_signature call (count_plan summary.tool (count_run summary.tool state))

  -- the loop of buildExplorationState
  unfoldable pub scan :
      Option Plan → List Message → Dict ModelTool → ExplorationState → ExplorationState
  scan plan [] calls state = state
  scan plan (message ∷ transcript) calls state =
      let assistant = message.role == "assistant" in
      let calls' = if assistant then register_calls explores message.tool_calls calls else calls in
      let state' =
        if assistant || not (message.role == "tool")
        then state
        else count_result plan (lookup message.tool_call_id calls)
            (decode_model_tool_summary env.decoder message.content) state in
      scan plan transcript calls' state'

  unfoldable pub build_exploration_state : List Message → Option Plan → ExplorationState
  unfolding scan
  build_exploration_state transcript plan = scan plan transcript [] no_exploration

  abbrev tool_name : Option ModelTool → String
  tool_name none = ""
  tool_name (some call) = call.name

  -- the signature of the current call, and the state with the call counted if it is completed
  abbrev count_call : Bool → Option ModelTool → ExplorationState → String × ExplorationState
  count_call completed none state = ("", state)
  count_call completed (some call) state =
      if not (is_exploration_tool call.name)
      then ("", state)
      else let signature = exploration_call_signature call.name call.arguments in
        (
          signature,
          if not completed
              then state
              else if signature == ""
              then count_plan call.name (count_run call.name state)
              else let counted = count_plan call.name (count_run call.name state) in
                record counted { plan_signatures = increment signature counted.plan_signatures },
        )

  abbrev pub plan_ref : Option Plan → Option PlanRef
  plan_ref none = none
  plan_ref (some plan) = some (record { plan_id = plan.id; version = plan.version })

  abbrev pub plan_scope : Option Plan → String
  plan_scope none = "run"
  plan_scope (some plan) = "plan_version"

  unfoldable pub exploration_budget_summary :
      Limits → ExplorationState → Option Plan → Option ModelTool → Bool → BudgetSummary
  unfolding budget_counter
  exploration_budget_summary limits state plan call completed =
      let (signature, state') = count_call completed call state in
      let uses = count_of state'.plan_signatures signature in
      let left = remaining (repeated_signature_limit limits (tool_name call)) uses in
      record {
        scope = plan_scope plan;
        plan = plan_ref plan;
        explore_page = budget_counter state'.plan_page_calls limits.plan_page;
        explore_flow = budget_counter state'.plan_flow_calls limits.plan_flow;
        run_explore_page = budget_counter state'.run_page_calls limits.run_page;
        run_explore_flow = budget_counter state'.run_flow_calls limits.run_flow;
        repeated_explore_page_limit = limits.repeated_page;
        repeated_explore_flow_limit = limits.repeated_flow;
        current_tool = tool_name call;
        current_signature_fingerprint = signature;
        current_signature_uses = if signature == "" then none else some uses;
        current_signature_remaining = if signature == "" then none else some left;
      }

  -- ExplorationBudget
  unfoldable pub exploration_budget :
      ExplorationGateConfig → AgentRun → Option Plan → Option ModelTool → BudgetSummary
  exploration_budget config run plan completed_call =
      exploration_budget_summary (with_defaults config)
        (build_exploration_state run.transcript plan) plan completed_call true

  abbrev hard_limit : String
  hard_limit = "the run-wide hard limit is exhausted; do not revise the plan to obtain more probes"

  abbrev repeated_code : ModelTool → String
  repeated_code call = Text.◌++◌ "repeated_" (Text.◌++◌ call.name "_signature")

  -- the code and the next action of the first test that fails
  unfoldable pub exploration_refusal :
      Limits → ExplorationState → Time → ModelTool → Option (String × String)
  exploration_refusal limits state created_at call =
      let signature = exploration_call_signature call.name call.arguments in
      if not (leb limits.wall_time 0)
        && ltb (created_at + limits.wall_time) (env.now + limits.reserve)
      then some (
        "explore_deadline_budget_exhausted",
        "stop probing; if the persisted TaskPlan reports ready_for_generation, generate DSL, otherwise call ask_user_question",
      )
      else if call.name == "explore_page" && leb limits.run_page state.run_page_calls
      then some ("run_explore_page_budget_exhausted", hard_limit)
      else if call.name == "explore_page" && leb limits.plan_page state.plan_page_calls
      then some (
        "explore_page_budget_exhausted",
        "stop probing; use the persisted TaskPlan state to generate only if all steps are grounded, otherwise ask the user or revise the plan",
      )
      else if call.name == "explore_flow" && leb limits.run_flow state.run_flow_calls
      then some ("run_explore_flow_budget_exhausted", hard_limit)
      else if call.name == "explore_flow" && leb limits.plan_flow state.plan_flow_calls
      then some (
        "explore_flow_budget_exhausted",
        "stop probing; generate only when the persisted TaskPlan is ready, otherwise ask the user or revise the plan",
      )
      else if not (signature == "")
          && leb (repeated_signature_limit limits call.name)
              (count_of state.plan_signatures signature)
      then some (
        repeated_code call,
        "do not repeat the same probe; change the page, actions, or bound plan steps",
      )
      else none

  abbrev refused_with : BudgetSummary → Option (String × String) → Option PolicyError
  refused_with budget none = none
  refused_with budget (some (code, next_action)) = some (gate code budget next_action)

  unfoldable pub before_exploration_call :
      ExplorationGateConfig → AgentRun → ModelTool → Option Plan → Option PolicyError
  before_exploration_call config run call plan =
      let limits = with_defaults config in
      let state = build_exploration_state run.transcript plan in
      refused_with (exploration_budget_summary limits state plan (some call) false)
        (exploration_refusal limits state run.created_at call)

  abbrev is_failed : Option ErrorPayload → Bool
  is_failed none = false
  is_failed (some payload) = payload.status == "error"

  -- what a tool's message says of the call that it answers: `some true` for "succeeded"
  outcome_of : String → Option ModelToolSummary → Option Bool
  outcome_of content (some summary) = some (succeeded summary.success)
  outcome_of content none =
      if is_failed (env.decoder.error_payload content) then some false else none

  -- the message answers a call of the same tool with the same signature
  answers_same : ModelTool → String → Option ModelTool → Bool
  answers_same call signature none = false
  answers_same call signature (some original) =
      original.name == call.name && governance_call_signature original == signature

  abbrev or_later : Option Bool → Option Bool → Option Bool
  or_later none later = later
  or_later (some o) later = some o

  -- the loop of governanceOutcome: the first answer decides
  unfoldable pub scan_outcomes : ModelTool → String → List Message → Dict ModelTool → Option Bool
  unfolding outcome_of answers_same
  scan_outcomes call signature [] calls = none
  scan_outcomes call signature (message ∷ transcript) calls =
      let assistant = message.role == "assistant" in
      let calls' =
        if assistant then register_calls (λ candidate. true) message.tool_calls calls else calls in
      let relevant =
        not assistant
        && (message.role == "tool")
        && not (message.tool_call_id == "")
        && answers_same call signature (lookup message.tool_call_id calls) in
      let outcome =
        if relevant
        then outcome_of message.content (decode_model_tool_summary env.decoder message.content)
        else none in
      let later = scan_outcomes call signature transcript calls' in or_later outcome later

  unfoldable pub governance_outcome : List Message → ModelTool → String → Option Bool
  unfolding scan_outcomes
  governance_outcome transcript call signature = scan_outcomes call signature transcript []

  abbrev no_calls : BudgetCounter
  no_calls = record { used = 0; limit = 0; remaining = 0 }

  abbrev governance_budget : ModelTool → String → BudgetSummary
  governance_budget call signature = record {
    scope = "run";
    plan = none;
    explore_page = no_calls;
    explore_flow = no_calls;
    run_explore_page = no_calls;
    run_explore_flow = no_calls;
    repeated_explore_page_limit = 1;
    repeated_explore_flow_limit = 1;
    current_tool = call.name;
    current_signature_fingerprint = signature;
    current_signature_uses = none;
    current_signature_remaining = none;
  }

  abbrev governance_next_action : ModelTool → String
  governance_next_action call =
      Text.◌++◌ "do not repeat the same "
        (Text.◌++◌ call.name " call; change the arguments to make the call substantively different")

  abbrev refuse_failed : ModelTool → String → Option Bool → Option PolicyError
  refuse_failed call signature (some false) =
      some
        (gate (repeated_code call) (governance_budget call signature) (governance_next_action call))
  refuse_failed call signature _ = none

  unfoldable pub before_governance_call : AgentRun → ModelTool → Option PolicyError
  before_governance_call run call =
      let signature = governance_call_signature call in
      if signature == ""
      then none
      else refuse_failed call signature (governance_outcome run.transcript call signature)

  abbrev pub is_nothing : Option ℤ → Bool
  is_nothing none = true
  is_nothing (some id) = false

  -- BeforeToolCall: `none` lets the call pass
  unfoldable pub before_tool_call :
      ExplorationGateConfig → AgentRun → ModelTool → Option Plan → Option PolicyError
  before_tool_call config run call plan =
      if call.name == "execute_dsl"
      then (if is_nothing run.approved_generation_id then some not_approved else none)
      else if is_exploration_tool call.name
      then before_exploration_call config run call plan
      else if any (λ tool. call.name == tool)
          ("set_task_plan" ∷ "generate_dsl" ∷ "get_report" ∷ "fix_and_retry" ∷ [])
      then before_governance_call run call
      else none
