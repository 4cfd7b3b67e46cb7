-- ===== src/TaskPlan/Service/Session.antt =====
-- Sequences of calls on the plan service (internal/taskplan/service.go).
use ai_web_testing.Prelude.{String, Bool, false, ◌&&◌, ◌==◌, List, [], ◌∷◌, any, int_eq, ℤ}
use ai_web_testing.TaskPlan.Types.{CreateRequest}
use ai_web_testing.TaskPlan.Contract.{Contract}
use ai_web_testing.TaskPlan.Memory.{new_memory_repository}
use ai_web_testing.TaskPlan.Service.{
  Service, create_version, record_tool_result, record_tool_failure, approve, mark_failed,
  mark_blocked,
}

-- The methods that write, with their arguments.
pub data Command : Type 0 where
  create : CreateRequest → Command
  tool_result : String → String → String → String → ℤ → Command
  tool_failure : String → String → String → Command
  approval : String → ℤ → Command
  failure blockage : String → Command

-- NewService on an empty repository
abbrev pub new_service : Service
new_service = record { repository = new_memory_repository; readings = 0 }

unfoldable pub perform : Contract → Command → Service → Service
perform c (create request) s = (create_version c request s).1
perform c (tool_result run_id tool arguments result event_seq) s =
    (record_tool_result c run_id tool arguments result event_seq s).1
perform c (tool_failure run_id tool message) s = (record_tool_failure c run_id tool message s).1
perform c (approval run_id generation_id) s = (approve c run_id generation_id s).1
perform c (failure run_id) s = (mark_failed c run_id s).1
perform c (blockage run_id) s = (mark_blocked c run_id s).1

unfoldable pub perform_all : Contract → List Command → Service → Service
perform_all c [] s = s
perform_all c (call ∷ calls) s = perform_all c calls (perform c call s)

abbrev pub is_approval : String → ℤ → Command → Bool
is_approval run_id id (approval run_id' id') = run_id == run_id' && int_eq id id'
is_approval run_id id _ = false

-- whether Approve was called for the generation
abbrev pub was_approved : String → ℤ → List Command → Bool
was_approved run_id id calls = any (is_approval run_id id) calls
