-- ===== src/Agent/Types.antt =====
-- The parts of a tool summary that the loop and the harness read (internal/agent/tool_result.go), and
-- what internal/agent takes from encoding/json.
use ai_web_testing.Prelude.{
  String, Bool, false, ◌||◌, Option, none, some, List, ℤ, ◌==◌, if◌then◌else◌,
}

abbrev pub model_tool_summary_schema_v1 : String
model_tool_summary_schema_v1 = "agent.model_tool_summary.v1"

-- An action or a page carries the message of its failure, if it failed.
pub record PageReport : Type 0 where
  pub failure : Option String
  pub actions : List (Option String)

pub record PlanRef : Type 0 where
  pub plan_id : String
  pub version : ℤ

pub record ModelToolSummary : Type 0 where
  pub tool : String
  pub success : Option Bool
  pub failures : List String
  pub pages : List PageReport
  pub task_plan : Option PlanRef

pub record ErrorPayload : Type 0 where
  pub status : String
  pub message : String

-- `none` is an error of json.Unmarshal.
pub record Decoder : Type 0 where
  pub schema_version : String → Option String
  pub summary : String → Option ModelToolSummary
  pub error_payload : String → Option ErrorPayload

abbrev pub is_exploration_tool : String → Bool
is_exploration_tool tool = tool == "explore_page" || tool == "explore_flow"

abbrev is_summary_version : Option String → Bool
is_summary_version none = false
is_summary_version (some version) = version == model_tool_summary_schema_v1

unfoldable pub decode_model_tool_summary : Decoder → String → Option ModelToolSummary
decode_model_tool_summary d content =
    if is_summary_version (d.schema_version content) then d.summary content else none

abbrev pub succeeded : Option Bool → Bool
succeeded none = false
succeeded (some success) = success
