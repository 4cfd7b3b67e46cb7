-- ===== src/AgentService/Types.antt =====
-- The data of an agent run (internal/agentservice/types.go, repository.go, and the messages of
-- internal/agent/types.go). A pointer field is an `Option`: every repository call clones the run,
-- so no two runs share what a pointer refers to. `time.Time` is the instant, as a number, so that
-- `UTC()` is the identity. A payload has the form that encoding/json gives it.
use Prim.Native.Nat.{ℕ}
use ai_web_testing.Prelude.{String, Bool, true, false, Option, List, Dict, ℤ}

abbrev pub Time : Type 0
Time = ℕ

mutual
  pub data Json : Type 0 where
    null : Json
    bool : Bool → Json
    num : String → Json
    text : String → Json
    arr : Items → Json
    obj : Fields → Json

  pub data Items : Type 0 where
    nil : Items
    cons : Json → Items → Items

  pub data Fields : Type 0 where
    end : Fields
    field : String → Json → Fields → Fields

abbrev pub Payload : Type 0
Payload = Dict Json

pub data RunStatus : Type 0 where
  running waiting_user completed failed cancelled : RunStatus

abbrev pub is_running : RunStatus → Bool
is_running running = true
is_running _ = false

abbrev pub is_waiting_user : RunStatus → Bool
is_waiting_user waiting_user = true
is_waiting_user _ = false

abbrev pub is_cancelled : RunStatus → Bool
is_cancelled cancelled = true
is_cancelled _ = false

pub data EventType : Type 0 where
  run_started run_finished run_failed run_cancelled : EventType
  message_started message_delta message_finished : EventType
  tool_started tool_args_delta tool_pending tool_result tool_finished tool_failed : EventType
  artifact_published research_llm_call task_plan_updated agent_pipeline_trace : EventType

pub record ModelTool : Type 0 where
  pub id : String
  pub name : String
  pub arguments : String

pub record Message : Type 0 where
  pub role : String
  pub content : String
  pub reasoning_content : String
  pub tool_call_id : String
  pub tool_calls : List ModelTool
  pub segment_boundary : Bool

pub record AgentRun : Type 0 where
  pub id : String
  pub actor_user_id : ℤ
  pub conversation_id : String
  pub project_id : ℤ
  pub status : RunStatus
  pub input : String
  pub pending_tool_call_id : Option String
  pub pending_step_id : Option String
  pub latest_generation_id : Option ℤ
  pub approved_generation_id : Option ℤ
  pub transcript : List Message
  pub created_at : Time
  pub updated_at : Time

pub record Event : Type 0 where
  pub seq : ℕ
  pub event_type : EventType
  pub conversation_id : String
  pub run_id : String
  pub step_id : String
  pub tool_call_id : String
  pub parent_id : String
  pub checkpoint_id : String
  pub timestamp : Time
  pub payload : Payload

pub data QuestionType : Type 0 where
  single_select multi_select free_text confirm : QuestionType

pub record QuestionOption : Type 0 where
  pub value : String
  pub label : String
  pub description : String

pub record Question : Type 0 where
  pub id : String
  pub prompt : String
  pub question_type : QuestionType
  pub is_required : Bool
  pub options : List QuestionOption

pub record ResumeToolCallRequest : Type 0 where
  pub answers : Payload
  pub next_step : String

-- The sentinel errors, the messages of `errors.New` and `fmt.Errorf`, and the wrappers by `%w`.
pub data Error : Type 0 where
  run_not_found run_access_denied run_is_cancelled : Error
  run_not_waiting_for_user tool_call_mismatch event_not_found : Error
  conversation_id_required input_required after_seq_negative run_id_required : Error
  event_seq_not_positive cancel_reason_required questions_count question_fields_required : Error
  duplicate_question_id too_few_options : String → Error
  cannot_request_user_input : RunStatus → Error
  create_agent_run append_agent_event save_waiting_agent_run save_resumed_agent_run : Error → Error
