-- ===== src/AgentService/Service.antt =====
-- The run service (internal/agentservice/service.go): one action for each method, on the repository
-- in memory and the broker. `context.Context` is left out: the memory repository ignores it.
pub mod Steps
pub mod Session
pub mod Dialogue
pub mod Endings
pub mod Completion
use ai_web_testing.Prelude.{
  ℕ, ◌+◌, String, Bool, true, false, not, ◌&&◌, ◌||◌, Option, none, some, List, [], ◌∷◌, length,
  ltb, nat_eq, if◌then◌else◌, trim_space, ◌==◌, ℤ, below, int_eq, Result, ok, err, Action, return,
  fail, wrap, lift, ◌>>=◌, ◌>>◌, any,
}
use ai_web_testing.AgentService.Types.{
  Time, Json, text, arr, obj, Items, nil, cons, Fields, end, field, Payload, running, waiting_user,
  completed, failed, is_running, is_waiting_user, EventType, AgentRun, Event, QuestionType,
  single_select, multi_select, free_text, confirm, QuestionOption, Question, ResumeToolCallRequest,
  Error, run_access_denied, run_is_cancelled, run_not_waiting_for_user, tool_call_mismatch,
  conversation_id_required, input_required, after_seq_negative, run_id_required,
  event_seq_not_positive, cancel_reason_required, questions_count, question_fields_required,
  duplicate_question_id, too_few_options, cannot_request_user_input, create_agent_run,
  append_agent_event, save_waiting_agent_run, save_resumed_agent_run,
}
use ai_web_testing.AgentService.Memory
use ai_web_testing.AgentService.Memory.{MemoryRepository, Codec}
use ai_web_testing.AgentService.Broker.{EventBroker, publish}

-- A service: its repository, its broker, and how often the clock was read and an id was drawn.
pub record Service : Type 0 where
  pub repository : MemoryRepository
  pub broker : EventBroker
  pub readings : ℕ
  pub issued : ℕ

-- The injected functions: the k-th reading of the clock, the k-th id drawn, and encoding/json.
pub record Dependencies : Type 0 where
  pub now : ℕ → Time
  pub new_id : ℕ → String → String
  pub codec : Codec

abbrev pub ServiceAction : Type 0 → Type 0
ServiceAction A = Action Service Error A

-- A call of the repository changes nothing else.
unfoldable pub on_repository : {A : Type 0} → Action MemoryRepository Error A → ServiceAction A
on_repository m s =
    let (r, repository') = m s.repository in (r, record s { repository = repository' })

unfoldable pub notify : String → ServiceAction (Unit {0})
notify run_id s = (ok tt, record s { broker = publish run_id s.broker })

unfoldable pub get_run : String → ServiceAction AgentRun
get_run run_id = on_repository (Memory.get_run run_id)

unfoldable pub get_owned_run : String → ℤ → ServiceAction AgentRun
get_owned_run run_id actor_user_id = do
  run ← on_repository (Memory.get_run run_id)
  if below actor_user_id 1 || not (int_eq run.actor_user_id actor_user_id)
      then fail run_access_denied
      else return run

unfoldable pub list_events : String → ℤ → ServiceAction (List Event)
list_events run_id after_seq =
    if below after_seq 0
    then fail after_seq_negative
    else on_repository (Memory.list_events run_id after_seq)

unfoldable pub get_event : String → ℤ → ServiceAction Event
get_event run_id seq =
    if trim_space run_id == ""
    then fail run_id_required
    else if below seq 1
    then fail event_seq_not_positive
    else on_repository (Memory.get_event run_id seq)

-- The JSON of the questions, by the tags of the structs.
abbrev question_type_name : QuestionType → String
question_type_name single_select = "single_select"
question_type_name multi_select = "multi_select"
question_type_name free_text = "text"
question_type_name confirm = "confirm"

option_json : QuestionOption → Json
option_json o =
    let described =
      if o.description == "" then end else field "description" (text o.description) end in
    obj (field "value" (text o.value) (field "label" (text o.label) described))

options_json : List QuestionOption → Items
unfolding option_json
options_json [] = nil
options_json (o ∷ rest) = cons (option_json o) (options_json rest)

abbrev with_options : List QuestionOption → Fields
with_options [] = end
with_options (o ∷ rest) = field "options" (arr (options_json (o ∷ rest))) end

question_json : Question → Json
unfolding options_json
question_json q = obj (
    field "id" (text q.id) (
      field "question" (text q.prompt) (
        field "type" (text (question_type_name q.question_type))
          (field "required" (Json.bool q.is_required) (with_options q.options)))))

question_items : List Question → Items
unfolding question_json
question_items [] = nil
question_items (q ∷ rest) = cons (question_json q) (question_items rest)

questions_json : List Question → Json
unfolding question_items
questions_json questions = arr (question_items questions)

abbrev is_single_select : QuestionType → Bool
is_single_select single_select = true
is_single_select _ = false

abbrev fields_of : Payload → Fields
fields_of [] = end
fields_of ((name, value) ∷ rest) = field name value (fields_of rest)

check_questions : List String → List Question → Result Error (Unit {0})
check_questions seen [] = ok tt
check_questions seen (question ∷ rest) =
    let later = check_questions (question.id ∷ seen) rest in
    if trim_space question.id == "" || trim_space question.prompt == ""
    then err question_fields_required
    else if any (λ id. id == question.id) seen
    then err (duplicate_question_id question.id)
    else if is_single_select question.question_type && ltb (length question.options) 2
    then err (too_few_options question.id)
    else later

unfoldable pub validate_questions : List Question → Result Error (Unit {0})
unfolding check_questions
validate_questions questions =
    if nat_eq (length questions) 0 || ltb 3 (length questions)
    then err questions_count
    else check_questions [] questions

-- `Event{Type: ..., StepID: ..., ToolCallID: ..., Payload: ...}`
abbrev pub event : EventType → String → String → Payload → Event
event event_type step_id tool_call_id payload = record {
  seq = 0;
  event_type = event_type;
  conversation_id = "";
  run_id = "";
  step_id = step_id;
  tool_call_id = tool_call_id;
  parent_id = "";
  checkpoint_id = "";
  timestamp = 0;
  payload = payload;
}

abbrev is_run_cancelled : Error → Bool
is_run_cancelled run_is_cancelled = true
is_run_cancelled _ = false

abbrev failure_payload : Option String → Payload
failure_payload none = []
failure_payload (some message) = ("message", text message) ∷ []

abbrev or_empty : Option String → String
or_empty none = ""
or_empty (some id) = id

-- the run that StartOwnedProjectRun creates
abbrev pub fresh_run : ℤ → String → ℤ → String → Time → String → AgentRun
fresh_run actor_user_id conversation_id project_id input now id = record {
  id = id;
  actor_user_id = actor_user_id;
  conversation_id = conversation_id;
  project_id = project_id;
  status = running;
  input = input;
  pending_tool_call_id = none;
  pending_step_id = none;
  latest_generation_id = none;
  approved_generation_id = none;
  transcript =
      record {
        role = "user";
        content = input;
        reasoning_content = "";
        tool_call_id = "";
        tool_calls = [];
        segment_boundary = false;
      }
      ∷ [];
  created_at = now;
  updated_at = now;
}

module _ (d : Dependencies) where
  read_clock : ServiceAction Time
  read_clock s = (ok (d.now s.readings), record s { readings = s.readings + 1 })

  unfoldable pub draw_id : String → ServiceAction String
  draw_id prefix s = (ok (d.new_id s.issued prefix), record s { issued = s.issued + 1 })

  unfoldable pub record_event : AgentRun → Event → ServiceAction Event
  unfolding read_clock
  record_event run e = do
    timestamp ← read_clock
    persisted ← wrap append_agent_event (
        on_repository (
          Memory.append_event d.codec (record e {
            conversation_id = run.conversation_id;
            run_id = run.id;
            timestamp = timestamp;
          })))
    notify persisted.run_id
    return persisted

  announce_started : AgentRun → ServiceAction AgentRun
  unfolding draw_id
  announce_started run = do
    step_id ← draw_id "step"
    record_event run (event EventType.run_started step_id "" (("input", text run.input) ∷ []))
    return run

  unfoldable pub start_owned_project_run : ℤ → String → ℤ → String → ServiceAction AgentRun
  unfolding read_clock draw_id announce_started
  start_owned_project_run actor_user_id conversation project_id given =
      let conversation_id = trim_space conversation in
      let input = trim_space given in
      if conversation_id == ""
      then fail conversation_id_required
      else if input == ""
      then fail input_required
      else do
        now ← read_clock
        id ← draw_id "run"
        wrap create_agent_run (
            on_repository
              (Memory.create_run (fresh_run actor_user_id conversation_id project_id input now id)))
        announce_started (fresh_run actor_user_id conversation_id project_id input now id)

  unfoldable pub request_user_input_for_call :
      String → String → String → List Question → ServiceAction (AgentRun × Event)
  unfolding read_clock draw_id questions_json
  request_user_input_for_call run_id tool_call_id step_id questions = do
    lift (validate_questions questions)
    run ← on_repository (Memory.get_run run_id)
    if not (is_running run.status) then fail (cannot_request_user_input run.status) else do
      checkpoint_id ← draw_id "checkpoint"
      pending ←
          record_event run
            (record (event EventType.tool_pending step_id tool_call_id
              (("tool", text "ask_user_question") ∷ ("questions", questions_json questions) ∷ [])) {
                checkpoint_id = checkpoint_id;
              })
      now ← read_clock
      let waiting : AgentRun = record run {
        status = waiting_user;
        pending_tool_call_id = some tool_call_id;
        pending_step_id = some step_id;
        updated_at = now;
      }
      wrap save_waiting_agent_run (on_repository (Memory.save_run waiting))
      return (waiting, pending)

  unfoldable pub request_user_input : String → List Question → ServiceAction (AgentRun × Event)
  unfolding draw_id questions_json
  request_user_input run_id questions = do
    run ← get_run run_id
    tool_call_id ← draw_id "tool"
    step_id ← draw_id "step"
    record_event run (
        event EventType.tool_started step_id tool_call_id (("tool", text "ask_user_question") ∷ []))
    record_event run (
        event EventType.tool_args_delta step_id tool_call_id
          (("arguments", obj (field "questions" (questions_json questions) end)) ∷ []))
    request_user_input_for_call run_id tool_call_id step_id questions

  unfoldable pub save_run : AgentRun → ServiceAction (Unit {0})
  unfolding read_clock
  save_run run = do
    now ← read_clock
    on_repository (Memory.save_run (record run { updated_at = now }))

  abbrev announce_cancelled : AgentRun → Option Event → ServiceAction AgentRun
  announce_cancelled run none = return run
  announce_cancelled run (some e) = do notify e.run_id; return run

  unfoldable pub cancel_run : String → String → ServiceAction AgentRun
  unfolding read_clock
  cancel_run run_id given =
      let reason = trim_space given in
      if reason == "" then fail cancel_reason_required else do
        now ← read_clock
        (run, cancelled_event) ← on_repository (
            Memory.cancel_run d.codec run_id now
              (record (event EventType.run_cancelled "" "" (("reason", text reason) ∷ [])) {
                timestamp = now;
              }))
        announce_cancelled run cancelled_event

  unfoldable pub cancel_owned_run : String → ℤ → String → ServiceAction AgentRun
  cancel_owned_run run_id actor_user_id reason = do
    get_owned_run run_id actor_user_id
    cancel_run run_id reason

  -- The end of CompleteRun and of FailRun, by the result of SaveRun.
  settled : AgentRun → Event → Result Error (Unit {0}) → ServiceAction AgentRun
  settled run e (ok done) = do record_event run e; return run
  settled run e (err failure) =
      if is_run_cancelled failure then on_repository (Memory.get_run run.id) else fail failure

  settle : AgentRun → Event → ServiceAction AgentRun
  unfolding settled
  settle run e s = let (r, s') = on_repository (Memory.save_run run) s in settled run e r s'

  unfoldable pub complete_run : AgentRun → ServiceAction AgentRun
  unfolding read_clock settle
  complete_run run = do
    now ← read_clock
    settle
        (record run {
          status = completed;
          pending_tool_call_id = none;
          pending_step_id = none;
          updated_at = now;
        })
        (event EventType.run_finished "" "" [])

  -- `cause` is the text of the error, if there is one
  unfoldable pub fail_run : AgentRun → Option String → ServiceAction AgentRun
  unfolding read_clock settle
  fail_run run cause = do
    now ← read_clock
    settle
        (record run {
          status = failed;
          pending_tool_call_id = none;
          pending_step_id = none;
          updated_at = now;
        })
        (event EventType.run_failed "" "" (failure_payload cause))

  -- the rest of ResumeToolCall, for a run that waits for the call `pending`
  resume_pending :
      AgentRun → Option String → String → ResumeToolCallRequest → ServiceAction AgentRun
  unfolding read_clock
  resume_pending run none tool_call_id request = fail run_not_waiting_for_user
  resume_pending run (some pending) tool_call_id request =
      if not (pending == tool_call_id) then fail tool_call_mismatch else do
        let step_id = or_empty run.pending_step_id
        record_event run (
            event EventType.tool_result step_id tool_call_id (
              ("tool", text "ask_user_question")
              ∷ ("answers", obj (fields_of request.answers))
              ∷ ("next_step", text request.next_step)
              ∷ []))
        record_event run (
            event EventType.tool_finished step_id tool_call_id
              (("tool", text "ask_user_question") ∷ []))
        now ← read_clock
        let resumed : AgentRun = record run {
          status = running;
          pending_tool_call_id = none;
          pending_step_id = none;
          updated_at = now;
        }
        wrap save_resumed_agent_run (on_repository (Memory.save_run resumed))
        return resumed

  unfoldable pub resume_tool_call : String → String → ResumeToolCallRequest → ServiceAction AgentRun
  unfolding resume_pending
  resume_tool_call run_id tool_call_id request = do
    run ← on_repository (Memory.get_run run_id)
    if not (is_waiting_user run.status)
        then fail run_not_waiting_for_user
        else resume_pending run run.pending_tool_call_id tool_call_id request
