-- ===== src/TaskPlan/Probe.antt =====
-- The checks of an explore_flow request and what its result proves of a step
-- (internal/taskplan/service.go).
use Prim.Native.String.{◌++◌}
use ai_web_testing.Prelude.{
  ℕ, ◌+◌, String, Bool, true, false, not, ◌&&◌, ◌||◌, Option, none, some, List, [], ◌∷◌, any,
  nat_eq, below, if◌then◌else◌, ◌==◌, trim_space, contains, Result, ok, err,
}
use mathlib.Core.List as List
use ai_web_testing.Prelude.Results.{◌>>=◌, ◌>>◌, reject_if}
use ai_web_testing.AgentService.Types.{
  Json, null, bool, num, text, arr, obj, Items, nil, cons, Fields, end, field,
}
use ai_web_testing.TaskPlan.Types.{
  Step, Plan, SideEffect, external_state, unknown, is_grounded, Error, locator_xor_candidate,
  candidate_schema, candidate_step_required, candidate_incomplete, forbidden_flow_action,
  flow_step_required, unknown_flow_step, flow_action_mismatch, flow_value_mismatch,
  flow_side_effect, outside_window,
}
use ai_web_testing.TaskPlan.Rules.{normalize, forbidden, requires_target_binding}
use ai_web_testing.TaskPlan.Window.{step_by_id}
use ai_web_testing.TaskPlan.Contract.{
  Contract, CandidateRef, FlowAction, FlowStep, FlowRequest, FlowOutcome, ExploredAction,
  ExploredPage, Exploration,
}

abbrev pub candidate_ref_version : String
candidate_ref_version = "grounding.candidate-ref.v1"

abbrev pub grounding_query_v2 : String
grounding_query_v2 = "grounding.query.v2"

-- CandidateRef.Validate
unfoldable pub is_complete : CandidateRef → Bool
is_complete r =
    r.schema_version == candidate_ref_version
    && not (below r.source_event_seq 1)
    && not (trim_space r.probe_id == "")
    && not (trim_space r.observation_id == "")
    && not (trim_space r.candidate_id == "")

-- An action of the request: its step and its place in the step. probeActionKey joins the two numbers
-- by a colon, which loses nothing.
abbrev pub ActionKey : Type 0
ActionKey = ℕ × ℕ

abbrev pub same_key : ActionKey → ActionKey → Bool
same_key a b = nat_eq a.0 b.0 && nat_eq a.1 b.1

-- A map from actions to the plan steps that own them. Each action is put in once.
abbrev pub Owners : Type 0
Owners = List (ActionKey × String)

-- `owners[key]`, the empty string if there is none
unfoldable pub owner_of : Owners → ActionKey → String
owner_of [] key = ""
owner_of (entry ∷ owners) key =
    let later = owner_of owners key in if same_key entry.0 key then entry.1 else later

abbrev is_external : SideEffect → Bool
is_external external_state = true
is_external unknown = true
is_external _ = false

module _ (c : Contract) where
  unfoldable pub probe_action_matches : String → String → Bool
  unfolding requires_target_binding
  probe_action_matches planned actual =
      let p = normalize c.lower planned in
      let a = normalize c.lower actual in
      p == a
      || a == "wait_for"
        && (requires_target_binding p
            || p == "assert_text"
            || p == "assert_url_contains"
            || p == "capture_text")

  unfoldable pub probe_value_matches : Step → String → String → Bool
  probe_value_matches step action value =
      normalize c.lower action == "wait_for" && not (normalize c.lower step.action == "wait_for")
      || step.value == ""
      || trim_space step.value == trim_space value

  check_candidate : FlowRequest → FlowAction → Option CandidateRef → Result Error (Unit {0})
  check_candidate request action none = ok tt
  check_candidate request action (some ref) = do
    reject_if (not (request.schema_version == grounding_query_v2)) (candidate_schema)
    reject_if (action.plan_step_id == "") candidate_step_required
    reject_if (not (is_complete ref)) candidate_incomplete

  abbrev is_ref : Option CandidateRef → Bool
  is_ref none = false
  is_ref (some ref) = true

  -- the value that a probe types or waits for
  abbrev probe_value : FlowAction → String
  probe_value action =
      if action.value == "" && c.equal_fold action.condition_type "value_equals"
      then action.condition_expected
      else action.value

  abbrev is_found : Option Step → Bool
  is_found none = false
  is_found (some step) = true

  -- the tests of an action whose step is `matched`; the step's id if the action is to ground it
  check_matched : List Step → FlowAction → Option Step → Result Error (Option String)
  check_matched pending action none = err (unknown_flow_step action.plan_step_id)
  check_matched pending action (some matched) = do
    reject_if (not (probe_action_matches matched.action action.action))
        (flow_action_mismatch action.plan_step_id)
    reject_if
        ((not (normalize c.lower action.action == "click") || not (is_ref action.candidate_ref))
          && not (probe_value_matches matched action.action (probe_value action)))
        (flow_value_mismatch action.plan_step_id)
    reject_if
        (not (normalize c.lower action.action == "wait_for") && is_external matched.side_effect)
        (flow_side_effect matched.id)
    if is_grounded matched.status
        then ok none
        else if is_found (step_by_id pending matched.id)
        then ok (some matched.id)
        else err (outside_window action.plan_step_id)

  -- one round of the inner loop of mapProbeActionOwners
  unfoldable pub check_probe :
      Plan → List Step → FlowRequest → String → FlowAction → Result Error (Option String)
  unfolding check_candidate check_matched
  check_probe plan pending request description action = do
    reject_if
        (action.has_locator && is_ref action.candidate_ref
          || not action.has_locator && not (is_ref action.candidate_ref))
        locator_xor_candidate
    check_candidate request action action.candidate_ref
    reject_if
        (forbidden c.lower plan.forbidden_actions
          (action.action ++ " " ++ probe_value action ++ " " ++ description))
        forbidden_flow_action
    if action.plan_step_id == ""
        then (if normalize c.lower action.action == "wait_for"
            then ok none
            else err flow_step_required)
        else check_matched pending action (step_by_id plan.steps action.plan_step_id)

  abbrev add_owner : ActionKey → Option String → Owners → Owners
  add_owner key none owners = owners
  add_owner key (some id) owners = (key, id) ∷ owners

  unfoldable pub own_actions :
      Plan → List Step → FlowRequest → String → ℕ → ℕ → List FlowAction → Result Error Owners
  own_actions plan pending request description step_index action_index [] = ok []
  own_actions plan pending request description step_index action_index (action ∷ actions) =
      let later =
        own_actions plan pending request description step_index (action_index + 1) actions in
      do
        owner ← check_probe plan pending request description action
        owners ← later
        ok (add_owner (step_index, action_index) owner owners)

  own_steps : Plan → List Step → FlowRequest → ℕ → List FlowStep → Result Error Owners
  own_steps plan pending request step_index [] = ok []
  own_steps plan pending request step_index (group ∷ groups) =
      let later = own_steps plan pending request (step_index + 1) groups in
      do
        owners ← own_actions plan pending request group.description step_index 0 group.actions
        others ← later
        ok (List.◌++◌ owners others)

  -- mapProbeActionOwners, on what the arguments decode to
  unfoldable pub map_probe_action_owners : Plan → List Step → FlowRequest → Result Error Owners
  unfolding own_steps
  map_probe_action_owners plan pending request = own_steps plan pending request 0 request.steps

  succeeded_after : FlowOutcome → Bool
  succeeded_after outcome =
      c.equal_fold outcome.status "success" && c.equal_fold outcome.phase "after"

  keys_of : List FlowOutcome → List ActionKey
  keys_of [] = []
  keys_of (outcome ∷ outcomes) =
      let later = keys_of outcomes in
      if succeeded_after outcome then (outcome.step_index, outcome.action_index) ∷ later else later

  -- successfulFlowActions: the keys of the set, in the order of the result
  unfoldable pub successful_flow_actions : Option (List (List FlowOutcome)) → List ActionKey
  unfolding keys_of succeeded_after
  successful_flow_actions none = []
  successful_flow_actions (some pages) = List.flat_map keys_of pages

  explored_action_evidence : ExploredAction → List Json
  explored_action_evidence action =
      if c.equal_fold action.status "success" && c.equal_fold action.phase "after"
      then text action.action ∷ text action.target ∷ action.target_evidence ∷ []
      else []

  explored_page_evidence : ExploredPage → List Json
  explored_page_evidence page =
      List.◌++◌
        (if not (c.equal_fold page.status "error")
          then text page.url ∷ page.a11y_nodes ∷ page.observation ∷ []
          else [])
        (List.flat_map explored_action_evidence page.actions)

  unfoldable pub successful_exploration_evidence : Option Exploration → List Json
  unfolding explored_page_evidence explored_action_evidence
  successful_exploration_evidence none = []
  successful_exploration_evidence (some result) =
      List.◌++◌
        (if not (c.equal_fold result.status "error")
          then text result.url ∷ result.a11y_nodes ∷ result.observation ∷ []
          else [])
        (List.flat_map explored_page_evidence result.pages)

  unfoldable mutual
    pub json_contains_text : Json → String → Bool
    json_contains_text null target = false
    json_contains_text (bool b) target = false
    json_contains_text (num n) target = false
    json_contains_text (text value) target = contains (normalize c.lower value) target
    json_contains_text (arr items) target = items_contain_text items target
    json_contains_text (obj fields) target = fields_contain_text fields target

    pub items_contain_text : Items → String → Bool
    items_contain_text nil target = false
    items_contain_text (cons item items) target =
        json_contains_text item target || items_contain_text items target

    pub fields_contain_text : Fields → String → Bool
    fields_contain_text end target = false
    fields_contain_text (field name nested fields) target =
        json_contains_text nested target || fields_contain_text fields target

  holds_text : List Json → String → Bool
  holds_text evidence expected =
      let candidate = normalize c.lower expected in
      not (candidate == "") && any (λ j. json_contains_text j candidate) evidence

  unfoldable pub result_contains_step_evidence : List Json → Step → Bool
  unfolding holds_text
  result_contains_step_evidence evidence step =
      holds_text evidence step.target
      || holds_text evidence step.value
      || step.action == "goto"
        && any (λ j. json_contains_text j (normalize c.lower step.intent)) evidence
