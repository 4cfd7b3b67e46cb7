-- ===== src/TaskPlan/Contract.antt =====
-- What the plan service (internal/taskplan/service.go) takes from elsewhere: the decodings of raw JSON
-- into the request structs, hashes, the clock, the case table of runes, and the two parts of the
-- browser contract that derive and bind targets.
use Prim.Native.Char.{Char}
use ai_web_testing.Prelude.{ℕ, String, Bool, Option, List, ℤ, Dict}
use ai_web_testing.AgentService.Types.{Json}
use ai_web_testing.TaskPlan.Types.{SideEffect, Binding, Definition, Step, Plan, TargetBinding}

-- browsercontract.CandidateRef
pub record CandidateRef : Type 0 where
  pub schema_version : String
  pub source_event_seq : ℤ
  pub probe_id : String
  pub observation_id : String
  pub candidate_id : String

-- probeFlowRequest, one action and one group of them
pub record FlowAction : Type 0 where
  pub plan_step_id : String
  pub action : String
  pub has_locator : Bool
  pub candidate_ref : Option CandidateRef
  pub value : String
  pub condition_type : String
  pub condition_expected : String

pub record FlowStep : Type 0 where
  pub description : String
  pub actions : List FlowAction

pub record FlowRequest : Type 0 where
  pub schema_version : String
  pub steps : List FlowStep

-- The actions of a flow result, as successfulFlowActions reads them.
pub record FlowOutcome : Type 0 where
  pub step_index : ℕ
  pub action_index : ℕ
  pub status : String
  pub phase : String

-- The result of an exploration, as successfulExplorationEvidence reads it.
pub record ExploredAction : Type 0 where
  pub action : String
  pub target : String
  pub status : String
  pub phase : String
  pub target_evidence : Json

pub record ExploredPage : Type 0 where
  pub url : String
  pub status : String
  pub a11y_nodes : Json
  pub observation : Json
  pub actions : List ExploredAction

pub record Exploration : Type 0 where
  pub url : String
  pub status : String
  pub a11y_nodes : Json
  pub observation : Json
  pub pages : List ExploredPage

-- the steps of a DSL case, as validateCaseSemantics reads them
pub record CaseStep : Type 0 where
  pub action : String
  pub intent : String
  pub target : String
  pub value : String
  pub trigger : String
  pub context_key : String
  pub timeout_ms : ℤ
  pub idempotency : String
  pub side_effect : SideEffect

pub record GenerationRequest : Type 0 where
  pub plan_binding : Binding
  pub case : String

-- `none` of a decoding is an error of json.Unmarshal.
pub record Contract : Type 0 where
  pub lower : Char → Char
  pub now : ℕ → ℕ
  pub semantic_hash : Definition → String
  pub plan_id : String → String → ℕ → String
  pub sha256 : String → String
  pub plan_step_ids : String → Option (List String)
  pub flow_request : String → Option FlowRequest
  pub generation_id : String → Option ℤ
  pub report_status : String → Option String
  pub strategy : String → Option String
  pub generation_request : String → Option GenerationRequest
  pub profile : String → Option String
  pub case_steps : String → Option (List CaseStep)
  pub equal_fold : String → String → Bool
  pub exploration : String → Option Exploration
  pub flow_outcomes : String → Option (List (List FlowOutcome))
  pub new_target_binding : TargetBinding → Option TargetBinding
  pub flow_bindings : Plan → List ((ℕ × ℕ) × String) → String → Dict TargetBinding
  pub page_bindings : Plan → List Step → String → Dict TargetBinding
  pub validate_draft_case : Plan → String → Option String
  pub validate_compiled_case : Plan → String → Option String
