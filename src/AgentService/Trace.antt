-- ===== src/AgentService/Trace.antt =====
-- The traces of tool calls and model requests (internal/agentservice/pipeline_trace.go, and their types
-- in types.go): what a trace must have, and RecordPipelineTrace.
use Prim.Native.Char.{Char, code}
use Prim.Native.String as Text
use ai_web_testing.Prelude.{
  ℕ, ◌+◌, String, Bool, false, not, ◌&&◌, ◌||◌, Option, none, some, List, [], ◌∷◌, any, leb, nat_eq,
  if◌then◌else◌, ◌==◌, trim_space, ℤ, below, Result, ok, err, Action, return, lift, relabelled,
  ◌>>=◌, ◌>>◌,
}
use ai_web_testing.Prelude.Results
use ai_web_testing.AgentService.Types.{
  Json, num, text, obj, Fields, end, field, Payload, RunStatus, running, waiting_user, completed,
  failed, cancelled, EventType, AgentRun, Error,
}
use ai_web_testing.AgentService.Service.{Service, Dependencies, event, record_event}

-- PipelinePlanRef
pub record PlanRef : Type 0 where
  pub plan_id : String
  pub version : ℤ
  pub sha256 : String
  pub status : String

pub record LineageRef : Type 0 where
  pub stage : String
  pub plan_id : String
  pub plan_version : ℤ
  pub plan_step_id : String
  pub probe_id : String
  pub observation_id : String
  pub observation_sha256 : String
  pub page_state_id : String
  pub element_refs : List String
  pub target_binding_id : String
  pub planned_candidate_id : String
  pub resolved_candidate_id : String
  pub resolved_element_ref : String
  pub generation_id : ℤ
  pub batch_id : ℤ
  pub case_id : ℤ
  pub execution_id : ℤ
  pub report_status : String

pub record CumulativeUsage : Type 0 where
  pub logical_calls : ℕ
  pub physical_attempts : ℕ
  pub input_tokens : ℤ
  pub output_tokens : ℤ
  pub total_tokens : ℤ
  pub prompt_cache_hit_tokens : ℤ
  pub prompt_cache_miss_tokens : ℤ
  pub usage_unavailable_attempts : ℕ

-- The request budget, numbers that no code of the trace reads, is left out.
pub record ModelRequestTrace : Type 0 where
  pub logical_call_id : String
  pub attempt : ℤ
  pub attempt_status : String
  pub cumulative : CumulativeUsage
  pub tool_call_ids : List String

pub record ToolCallTrace : Type 0 where
  pub name : String
  pub signature : String
  pub status : String
  pub attempt : ℤ
  pub retry_of_tool_call_id : String
  pub reason_code : String
  pub plan_step_ids : List String
  pub lineage : List LineageRef

pub record TracePayload : Type 0 where
  pub schema_version : String
  pub kind : String
  pub state_epoch : String
  pub plan : Option PlanRef
  pub model_request : Option ModelRequestTrace
  pub tool_call : Option ToolCallTrace

abbrev pub pipeline_trace_schema_v1 : String
pipeline_trace_schema_v1 = "agent.pipeline.trace.v1"

pub data TraceError : Type 0 where
  unsupported_schema unsupported_kind : String → TraceError
  state_epoch_required plan_reference_invalid : TraceError
  model_request_detail model_request_incomplete : TraceError
  tool_call_detail tool_call_incomplete invalid_lineage invalid_observation : TraceError
  not_encoded : TraceError
  not_appended : Error → TraceError

abbrev is_hex_digit : Char → Bool
is_hex_digit ch =
    let n = code ch in (leb 48 n && leb n 57) || (leb 65 n && leb n 70) || (leb 97 n && leb n 102)

is_hex_of : ℕ → String → Bool
is_hex_of n Text.[] = nat_eq n 64
is_hex_of n (Text.◌∷◌ ch s) = let rest = is_hex_of (n + 1) s in is_hex_digit ch && rest

-- 64 bytes that hex.DecodeString reads are 64 hexadecimal digits.
unfoldable pub valid_sha256 : String → Bool
unfolding is_hex_of
valid_sha256 value = is_hex_of 0 value

abbrev pub valid_tool_trace_status : String → Bool
valid_tool_trace_status status =
    any (λ s. status == s)
      ("proposed" ∷ "authorized" ∷ "running" ∷ "succeeded" ∷ "failed" ∷ "rejected" ∷ "pending" ∷ [])

abbrev is_blank : String → Bool
is_blank s = trim_space s == ""

bad_plan : Option PlanRef → Bool
unfolding valid_sha256
bad_plan none = false
bad_plan (some plan) =
    is_blank plan.plan_id
    || below plan.version 1
    || not (valid_sha256 plan.sha256)
    || is_blank plan.status

check_model_request : Option ModelRequestTrace → Option ToolCallTrace → Result TraceError (Unit {0})
check_model_request (some request) none =
    Results.reject_if
      (is_blank request.logical_call_id
        || below request.attempt 1
        || is_blank request.attempt_status)
      model_request_incomplete
check_model_request _ _ = err model_request_detail

check_lineage : List LineageRef → Result TraceError (Unit {0})
check_lineage [] = ok tt
check_lineage (l ∷ lineage) =
    let rest = check_lineage lineage in
    if is_blank l.stage || is_blank l.plan_id || below l.plan_version 1 || is_blank l.plan_step_id
    then err invalid_lineage
    else if not (l.observation_sha256 == "") && not (valid_sha256 l.observation_sha256)
    then err invalid_observation
    else rest

check_tool_call : Option ModelRequestTrace → Option ToolCallTrace → Result TraceError (Unit {0})
unfolding check_lineage
check_tool_call none (some call) =
    if is_blank call.name
      || not (valid_sha256 call.signature)
      || below call.attempt 1
      || not (valid_tool_trace_status call.status)
    then err tool_call_incomplete
    else check_lineage call.lineage
check_tool_call _ _ = err tool_call_detail

unfoldable pub validate_pipeline_trace : TracePayload → Result TraceError (Unit {0})
unfolding bad_plan check_model_request check_tool_call
validate_pipeline_trace payload =
    if not (payload.schema_version == pipeline_trace_schema_v1)
    then err (unsupported_schema payload.schema_version)
    else if not (valid_sha256 payload.state_epoch)
    then err state_epoch_required
    else if bad_plan payload.plan
    then err plan_reference_invalid
    else if payload.kind == "model_request"
    then check_model_request payload.model_request payload.tool_call
    else if payload.kind == "tool_call"
    then check_tool_call payload.model_request payload.tool_call
    else err (unsupported_kind payload.kind)

-- What traces take from encoding/json, crypto/sha256 and strconv. `to_payload` encodes a trace and
-- decodes it into a map; `none` is an error.
pub record Tracer : Type 0 where
  pub to_payload : TracePayload → Option Payload
  pub marshal : Json → Option String
  pub sha256 : String → String
  pub itoa : ℤ → String

abbrev pub run_status_name : RunStatus → String
run_status_name running = "running"
run_status_name waiting_user = "waiting_user"
run_status_name completed = "completed"
run_status_name failed = "failed"
run_status_name cancelled = "cancelled"

-- fields with the tag omitempty
abbrev pub text_field : String → Option String → Fields → Fields
text_field name none rest = rest
text_field name (some s) rest = field name (text s) rest

abbrev pub int_field : (ℤ → String) → String → Option ℤ → Fields → Fields
int_field itoa name none rest = rest
int_field itoa name (some n) rest = field name (num (itoa n)) rest

abbrev pub or_empty : Option String → String
or_empty none = ""
or_empty (some s) = s

module _ (tracer : Tracer) where
  abbrev hashed_json : Json → String
  hashed_json value = tracer.sha256 (or_empty (tracer.marshal value))

  unfoldable pub run_state_epoch : AgentRun → String
  run_state_epoch run = hashed_json (
      obj (
        field "status" (text (run_status_name run.status)) (
          text_field "pending_tool_call_id" run.pending_tool_call_id (
            int_field tracer.itoa "latest_generation_id" run.latest_generation_id
              (int_field tracer.itoa "approved_generation_id" run.approved_generation_id end)))))

  abbrev completed_payload : AgentRun → TracePayload → TracePayload
  completed_payload run payload = record payload {
    schema_version = pipeline_trace_schema_v1;
    state_epoch = if payload.state_epoch == "" then run_state_epoch run else payload.state_epoch;
  }

  encoded : Option Payload → Result TraceError Payload
  encoded none = err not_encoded
  encoded (some payload) = ok payload

  unfoldable pub record_pipeline_trace :
      Dependencies
      → AgentRun
      → String
      → String
      → TracePayload
      → Action Service TraceError (Unit {0})
  unfolding encoded
  record_pipeline_trace d run step_id tool_call_id given = do
    let payload = completed_payload run given
    lift (validate_pipeline_trace payload)
    event_payload ← lift (encoded (tracer.to_payload payload))
    relabelled not_appended (
        record_event d run
          (event EventType.agent_pipeline_trace step_id tool_call_id event_payload))
    return tt
