-- ===== src/TaskPlan/Types.antt =====
-- The data of a task plan (internal/taskplan/types.go), and the target binding of
-- internal/browsercontract/types.go, whose numbers with a fraction are kept as they are written.
use ai_web_testing.Prelude.{ℕ, String, Bool, true, false, Option, List, ℤ}

pub data Status : Type 0 where
  grounding ready_for_generation awaiting_approval approved executing : Status
  completed failed blocked superseded : Status

pub data StepStatus : Type 0 where
  step_pending step_grounded step_failed step_blocked : StepStatus

-- A side effect is a string in a request; `other` is any string but the four.
pub data SideEffect : Type 0 where
  no_effect browser_state external_state unknown : SideEffect
  other : String → SideEffect

pub record Binding : Type 0 where
  pub plan_id : String
  pub version : ℤ
  pub sha256 : String

pub record EvidenceRef : Type 0 where
  pub tool : String
  pub event_seq : ℤ
  pub content_sha256 : String

pub record ContextPath : Type 0 where
  pub frames : List String
  pub shadow_hosts : List String

-- kind, role, name, value, exact, and the two parts of a scoped locator
mutual
  pub data LocatorSpec : Type 0 where
    locator :
        String → String → Option String → String → Bool → LocatorPart → LocatorPart → LocatorSpec

  pub data LocatorPart : Type 0 where
    absent : LocatorPart
    part : LocatorSpec → LocatorPart

pub record LocatorCandidate : Type 0 where
  pub candidate_id : String
  pub element_ref : String
  pub context_path : ContextPath
  pub locator_spec : LocatorSpec
  pub provenance : String
  pub observed_count : ℤ
  pub visible : Bool
  pub enabled : Bool
  pub score : String

pub record TargetBinding : Type 0 where
  pub schema_version : String
  pub binding_id : String
  pub plan_id : String
  pub plan_version : ℤ
  pub plan_step_id : String
  pub probe_id : String
  pub semantic_target : String
  pub action : String
  pub page_state_id : String
  pub observation_id : String
  pub observation_sha256 : String
  pub element_refs : List String
  pub candidates : List LocatorCandidate
  pub selected_candidate_id : String
  pub binding_sha256 : String

pub record Step : Type 0 where
  pub id : String
  pub position : ℕ
  pub intent : String
  pub action : String
  pub target : String
  pub value : String
  pub trigger : String
  pub context_key : String
  pub timeout_ms : ℤ
  pub expected_occurrences : ℤ
  pub idempotency : String
  pub side_effect : SideEffect
  pub preconditions : List String
  pub completion_conditions : List String
  pub status : StepStatus
  pub grounding_attempts : ℕ
  pub evidence : List EvidenceRef
  pub target_binding : Option TargetBinding

pub record Plan : Type 0 where
  pub id : String
  pub schema_version : String
  pub run_id : String
  pub actor_user_id : ℤ
  pub project_id : ℤ
  pub version : ℤ
  pub goal : String
  pub status : Status
  pub plan_sha256 : String
  pub max_side_effect : SideEffect
  pub forbidden_actions : List String
  pub steps : List Step
  pub bound_generation_id : Option ℤ
  pub created_at : ℕ
  pub updated_at : ℕ

pub record StepDefinition : Type 0 where
  pub id : String
  pub intent : String
  pub action : String
  pub target : String
  pub value : String
  pub trigger : String
  pub context_key : String
  pub timeout_ms : ℤ
  pub expected_occurrences : ℤ
  pub idempotency : String
  pub side_effect : SideEffect
  pub preconditions : List String
  pub completion_conditions : List String

pub record Definition : Type 0 where
  pub goal : String
  pub max_side_effect : SideEffect
  pub forbidden_actions : List String
  pub steps : List StepDefinition

pub record CreateRequest : Type 0 where
  pub run_id : String
  pub actor_user_id : ℤ
  pub project_id : ℤ
  pub definition : Definition

abbrev pub binding_of : Plan → Binding
binding_of p = record { plan_id = p.id; version = p.version; sha256 = p.plan_sha256 }

abbrev pub is_grounded : StepStatus → Bool
is_grounded step_grounded = true
is_grounded _ = false

-- ErrNotFound, and the messages of errors.New and fmt.Errorf.
pub data Error : Type 0 where
  not_found run_id_required goal_required max_side_effect_invalid no_steps : Error
  empty_forbidden_action duplicate_forbidden_action : Error
  invalid_step_id : ℕ → Error
  invalid_semantics exceeds_max_side_effect invalid_occurrence violates_forbidden : String → Error
  goto_requires_value click_requires_target input_requires_target input_trigger : Error
  wait_for_requires_target assert_text_requires assert_url_requires capture_requires : Error
  wrong_effect : String → Error
  in_step : String → Error → Error
  timeout_negative : Error
  plan_step_ids_required all_grounded_already unexpected_first_step too_many_steps : Error
  not_contiguous : String → String → Error
  revision_not_allowed : Status → Error
  plan_required : String → Error → Error
  wrong_status : String → Status → Error
  generation_not_bound generation_mismatch invalid_generate_arguments binding_mismatch : Error
  steps_not_preserved : Error
  wrong_step_count : ℕ → Error
  step_not_preserved : ℕ → String → Error
  step_forbidden : ℕ → Error
  invalid_flow_arguments locator_xor_candidate candidate_schema candidate_step_required : Error
  candidate_incomplete forbidden_flow_action flow_step_required : Error
  unknown_flow_step flow_action_mismatch flow_value_mismatch flow_side_effect outside_window :
      String → Error
  step_disappeared : String → Error
  no_generation_id no_report_status no_strategy approval_mismatch : Error
  index_out_of_range binding_outdated : Error
  binding_not_allowed : Status → Error
  draft_case_rejected : String → Error
