-- ===== src/Harness/Trace.antt =====
-- The traces of tool calls (internal/harness/pipeline_trace.go): the state a call was made in, which
-- earlier calls it repeats, and the events that record its progress.
use ai_web_testing.Prelude.{
  ◌+◌, String, Bool, true, false, not, ◌&&◌, ◌||◌, Option, none, some, List, [], ◌∷◌, ◌++◌, any,
  length, trim_space, text_le, if◌then◌else◌, ◌==◌, lookup, ℤ, pos, return, relabelled, ◌>>=◌,
}
use ai_web_testing.AgentService.Types.{
  Json, num, text, arr, obj, Items, nil, cons, Fields, end, field, EventType, agent_pipeline_trace,
  AgentRun, Event, Message, ModelTool,
}
use ai_web_testing.AgentService.Service.{list_events}
use ai_web_testing.AgentService.Trace.{
  PlanRef, LineageRef, Tracer, run_status_name, text_field, int_field, or_empty,
  record_pipeline_trace,
}
use ai_web_testing.TaskPlan.Types.{Plan}
use ai_web_testing.Agent.Types.{is_exploration_tool}
use ai_web_testing.Harness.Policy.{Environment, PolicyError, gate, normalize_json_for_signature}
use ai_web_testing.Harness.State.{TurnAction, Setup, of_runs, of_trace, on_runs, get_run}
use ai_web_testing.Harness.Records.{status_name, find_plan}

pub record ToolTraceIdentity : Type 0 where
  pub state_epoch : String
  pub plan : Option PlanRef
  pub signature : String
  pub attempt : ℤ
  pub retry_of_tool_call_id : String
  pub plan_step_ids : List String
  pub lineage : List LineageRef

abbrev pub pipeline_plan_ref : Option Plan → Option PlanRef
pipeline_plan_ref none = none
pipeline_plan_ref (some plan) = some (record {
  plan_id = plan.id;
  version = plan.version;
  sha256 = plan.plan_sha256;
  status = status_name plan.status;
})

-- the fields of a plan with the tag omitempty
abbrev plan_fields : (ℤ → String) → Option Plan → Fields
plan_fields itoa none = end
plan_fields itoa (some plan) =
    let hash =
      if plan.plan_sha256 == ""
      then field "plan_status" (text (status_name plan.status)) end
      else field "plan_sha256" (text plan.plan_sha256)
          (field "plan_status" (text (status_name plan.status)) end) in
    let version =
      if is_zero plan.version then hash else field "plan_version" (num (itoa plan.version)) hash in
    if plan.id == "" then version else field "plan_id" (text plan.id) version
  where
    is_zero : ℤ → Bool
    is_zero n = itoa n == itoa (pos 0)

-- The key whose ids come first is the least: the keys of a map are sorted.
insert_ids : String × List String → List (String × List String) → List (String × List String)
insert_ids entry [] = entry ∷ []
insert_ids entry (first ∷ rest) =
    let later = insert_ids entry rest in
    if text_le entry.0 first.0 then entry ∷ first ∷ rest else first ∷ later

sort_ids : List (String × List String) → List (String × List String)
unfolding insert_ids
sort_ids [] = []
sort_ids (entry ∷ rest) = insert_ids entry (sort_ids rest)

abbrev all_ids : List (String × List String) → List String
all_ids [] = []
all_ids (entry ∷ rest) = entry.1 ++ all_ids rest

abbrev text_of : Json → List String
text_of (text s) = s ∷ []
text_of _ = []

abbrev texts_of_items : Items → List String
texts_of_items nil = []
texts_of_items (cons item items) = text_of item ++ texts_of_items items

abbrev texts_of : Json → List String
texts_of (arr items) = texts_of_items items
texts_of _ = []

unfoldable mutual
  unfolding sort_ids

  pub collect_plan_step_ids : Json → List String
  collect_plan_step_ids (obj fields) = all_ids (sort_ids (collect_fields fields))
  collect_plan_step_ids (arr items) = collect_items items
  collect_plan_step_ids _ = []

  pub collect_items : Items → List String
  collect_items nil = []
  collect_items (cons item items) = collect_plan_step_ids item ++ collect_items items

  pub collect_fields : Fields → List (String × List String)
  collect_fields end = []
  collect_fields (field key value fields) =
      let nested = collect_plan_step_ids value in
      let rest = collect_fields fields in
      let ids =
        if key == "plan_step_id"
        then text_of value
        else if key == "plan_step_ids"
        then texts_of value
        else nested in
      (key, ids) ∷ rest

abbrev distinct_ids : List String → List String → List String
distinct_ids seen [] = []
distinct_ids seen (raw ∷ rest) =
    let id = trim_space raw in
    let without = distinct_ids seen rest in
    let with_id = distinct_ids (id ∷ seen) rest in
    if id == "" || any (λ s. s == id) seen then without else id ∷ with_id

abbrev ids_of : Option Json → List String
ids_of none = []
ids_of (some value) = distinct_ids [] (collect_plan_step_ids value)

unfoldable pub tool_plan_step_ids : Environment → String → List String
tool_plan_step_ids env arguments = ids_of (env.unmarshal arguments)

abbrev signed_arguments : Environment → ModelTool → Option Json → Json
signed_arguments env call none = text (trim_space call.arguments)
signed_arguments env call (some value) =
    if is_exploration_tool call.name then normalize_json_for_signature env value else value

unfoldable pub normalized_tool_call_signature : Environment → ModelTool → String
normalized_tool_call_signature env call =
    let arguments = signed_arguments env call (env.unmarshal call.arguments) in
    env.sha256 (
      or_empty
        (env.marshal (obj (field "tool" (text call.name) (field "arguments" arguments end)))))

unfoldable pub pipeline_state_epoch : Tracer → AgentRun → Option Plan → String
pipeline_state_epoch tracer run plan =
    let plan_part = plan_fields tracer.itoa plan in
    let approved =
      int_field tracer.itoa "approved_generation_id" run.approved_generation_id plan_part in
    let latest = int_field tracer.itoa "latest_generation_id" run.latest_generation_id approved in
    let pending = text_field "pending_tool_call_id" run.pending_tool_call_id latest in
    tracer.sha256 (
      or_empty
        (tracer.marshal (obj (field "run_status" (text (run_status_name run.status)) pending))))

unfoldable pub pipeline_reason_code : PolicyError → String → String
pipeline_reason_code (gate code budget next_action) fallback = if code == "" then fallback else code
pipeline_reason_code _ fallback = fallback

-- `value[name]`, for a map that was decoded
abbrev get_field : String → Fields → Option Json
get_field name end = none
get_field name (field key value fields) =
    let rest = get_field name fields in if key == name then some value else rest

abbrev is_text : String → Option Json → Bool
is_text s (some (text t)) = t == s
is_text s _ = false

abbrev text_or_empty : Option Json → String
text_or_empty (some (text s)) = s
text_or_empty _ = ""

abbrev is_trace : EventType → Bool
is_trace agent_pipeline_trace = true
is_trace _ = false

-- the detail of a trace of a tool call
abbrev detail_of : Option Json → Option Fields
detail_of (some (obj fields)) = some fields
detail_of _ = none

abbrev tool_call_detail : Event → Option Fields
tool_call_detail e =
    if is_trace e.event_type && is_text "tool_call" (lookup "kind" e.payload)
    then detail_of (lookup "tool_call" e.payload)
    else none

module _ (epoch signature name : String) where
  abbrev repeats_detail : Option Fields → Bool
  repeats_detail none = false
  repeats_detail (some detail) =
      is_text signature (get_field "signature" detail) && is_text name (get_field "name" detail)

  abbrev is_earlier_call : Event → Bool
  is_earlier_call e =
      not (e.tool_call_id == "")
      && is_text epoch (lookup "state_epoch" e.payload)
      && repeats_detail (tool_call_detail e)

  -- the distinct calls of the events that the call repeats, the last one first
  unfoldable pub earlier_calls : List String → List Event → List String
  earlier_calls seen [] = seen
  earlier_calls seen (e ∷ events) =
      if is_earlier_call e && not (any (λ id. id == e.tool_call_id) seen)
      then earlier_calls (e.tool_call_id ∷ seen) events
      else earlier_calls seen events

abbrev head_or_empty : List String → String
head_or_empty [] = ""
head_or_empty (id ∷ ids) = id

-- the call of a message with the id
abbrev find_call : String → List ModelTool → Option ModelTool
find_call id [] = none
find_call id (call ∷ calls) =
    let rest = find_call id calls in if call.id == id then some call else rest

abbrev first_of : {A : Type 0} → Option A → Option A → Option A
first_of (some a) later = some a
first_of none later = later

unfoldable pub last_call : String → List Message → Option ModelTool
last_call id [] = none
last_call id (message ∷ transcript) =
    first_of (last_call id transcript) (find_call id message.tool_calls)

module _ (number_value : String → ℤ) where
  abbrev int_of : Option Json → ℤ
  int_of (some (num n)) = number_value n
  int_of _ = pos 0

  abbrev nonempty_texts : List String → List String
  nonempty_texts [] = []
  nonempty_texts (s ∷ ss) = let rest = nonempty_texts ss in if s == "" then rest else s ∷ rest

  abbrev texts_at : Option Json → List String
  texts_at none = []
  texts_at (some value) = nonempty_texts (texts_of value)

  abbrev stored_plan : Option Json → Option PlanRef
  stored_plan (some (obj plan)) = some (record {
    plan_id = text_or_empty (get_field "plan_id" plan);
    version = int_of (get_field "version" plan);
    sha256 = text_or_empty (get_field "sha256" plan);
    status = text_or_empty (get_field "status" plan);
  })
  stored_plan _ = none

  abbrev stored_identity : Event → Fields → ToolTraceIdentity
  stored_identity e detail = record {
    state_epoch = text_or_empty (lookup "state_epoch" e.payload);
    plan = stored_plan (lookup "plan" e.payload);
    signature = text_or_empty (get_field "signature" detail);
    attempt = int_of (get_field "attempt" detail);
    retry_of_tool_call_id = text_or_empty (get_field "retry_of_tool_call_id" detail);
    plan_step_ids = texts_at (get_field "plan_step_ids" detail);
    lineage = [];
  }

  abbrev if_pending : Event → Option Fields → Option ToolTraceIdentity
  if_pending e none = none
  if_pending e (some detail) =
      if is_text "pending" (get_field "status" detail)
      then some (stored_identity e detail)
      else none

  -- the last pending trace of the call
  unfoldable pub last_pending : String → List Event → Option ToolTraceIdentity
  last_pending id [] = none
  last_pending id (e ∷ events) =
      let later = last_pending id events in
      first_of later (if e.tool_call_id == id then if_pending e (tool_call_detail e) else none)

abbrev pub pipeline_lineage_stage : String → String
pipeline_lineage_stage tool =
    if tool == "explore_page" || tool == "explore_flow"
    then "grounding"
    else if tool == "generate_dsl"
    then "generation"
    else if tool == "execute_dsl"
    then "execution"
    else if tool == "get_report"
    then "report"
    else if tool == "fix_and_retry"
    then "repair"
    else ""

module _ {W : Type 0} (setup : Setup W) where
  abbrev events_of_run : AgentRun → TurnAction W (List Event)
  events_of_run run = on_runs (relabelled of_runs (list_events run.id (pos 0)))

  -- newToolTraceIdentity
  unfoldable pub new_tool_trace_identity : ModelTool → Option Plan → TurnAction W ToolTraceIdentity
  new_tool_trace_identity call plan = do
    run ← get_run
    events ← events_of_run run
    let epoch = pipeline_state_epoch setup.tracer run plan
    let signature = normalized_tool_call_signature setup.environment call
    let earlier = earlier_calls epoch signature call.name [] events
    return (record {
      state_epoch = epoch;
      plan = pipeline_plan_ref plan;
      signature = signature;
      attempt = pos (1 + length earlier);
      retry_of_tool_call_id = head_or_empty earlier;
      plan_step_ids = tool_plan_step_ids setup.environment call.arguments;
      lineage = [];
    })

  abbrev with_call : ModelTool → Option ToolTraceIdentity → Option (ModelTool × ToolTraceIdentity)
  with_call call none = none
  with_call call (some identity) = some (call, identity)

  abbrev pending_of :
      AgentRun → String → Option ModelTool → TurnAction W (Option (ModelTool × ToolTraceIdentity))
  pending_of run id none = return none
  pending_of run id (some call) = if call.id == "" then return none else do
    events ← events_of_run run
    return (with_call call (last_pending setup.number_value id events))

  unfoldable pub pending_tool_trace_identity :
      AgentRun → String → TurnAction W (Option (ModelTool × ToolTraceIdentity))
  pending_tool_trace_identity run tool_call_id =
      pending_of run tool_call_id (last_call tool_call_id run.transcript)

  unfoldable pub record_pipeline_tool_trace :
      String → ModelTool → ToolTraceIdentity → String → String → TurnAction W (Unit {0})
  record_pipeline_tool_trace step_id call identity status reason_code = do
    run ← get_run
    on_runs (
        relabelled of_trace (
          record_pipeline_trace setup.tracer setup.dependencies run step_id call.id (record {
            schema_version = "";
            kind = "tool_call";
            state_epoch = identity.state_epoch;
            plan = identity.plan;
            model_request = none;
            tool_call = some (record {
              name = call.name;
              signature = identity.signature;
              status = status;
              attempt = identity.attempt;
              retry_of_tool_call_id = identity.retry_of_tool_call_id;
              reason_code = reason_code;
              plan_step_ids = identity.plan_step_ids;
              lineage = identity.lineage;
            });
          })))

  abbrev lineage_for : String → String → List String → Option Plan → List LineageRef
  lineage_for tool result ids none = []
  lineage_for tool result ids (some plan) =
      if pipeline_lineage_stage tool == "" then [] else setup.lineage_items plan tool result ids

  unfoldable pub pipeline_lineage : String → String → List String → TurnAction W (List LineageRef)
  pipeline_lineage tool result plan_step_ids = do
    plan ← find_plan setup
    return (lineage_for tool result plan_step_ids plan)
