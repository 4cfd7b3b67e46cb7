-- ===== src/Examples/AgentServiceRuns.antt =====
-- The run service at concrete inputs (backend-go/internal/agentservice).
use ai_web_testing.Prelude.{
  ℕ, ◌+◌, nat_eq, eq_iff, if◌then◌else◌, String, ◌≡◌, refl, none, some, List, [], ◌∷◌, ◌++◌, true,
  false, lookup, ok, arith, pos, length, drop, trim_space, ◌==◌, ◌||◌,
}
use ai_web_testing.AgentService.Types.{
  Time, AgentRun, Event, EventType, Question, Question, QuestionType, RunStatus,
  ResumeToolCallRequest,
}
use ai_web_testing.AgentService.Memory
use ai_web_testing.AgentService.Memory.{Codec, MemoryRepository, log, list_events}
use ai_web_testing.AgentService.Memory.Log.{IsWellFormed, list_events-drop, get_event-seq}
use ai_web_testing.AgentService.Memory.Cancel.{cancelled_at, is_live}
use ai_web_testing.AgentService.Broker.{EventBroker, new_event_broker, subscribe, publish, cancel}
use ai_web_testing.AgentService.Broker.Wakeups.{
  fresh, subscribed_to, subscribed, publish_wakes, subscription_life,
}
use ai_web_testing.AgentService.Service.{
  Service, Dependencies, fresh_run, event, validate_questions, request_user_input_for_call,
  resume_tool_call, cancel_run, complete_run, fail_run,
}
use ai_web_testing.AgentService.Service.Steps.{
  Command, start, request, cancel as cancel_command, perform_all,
}
use ai_web_testing.AgentService.Service.Session.{
  new_service, session-IsWellFormed, cancelled_is_final,
}
use ai_web_testing.AgentService.Service.Dialogue.{running_again}
use ai_web_testing.AgentService.Service.Dialogue.RoundTrip.{
  answer_each, resume-once, AreFor, resume-request,
}
use ai_web_testing.AgentService.Service.Endings.{finish_after_cancel, cancel_run_lem, cancel-cancel}

-- The first id drawn is its prefix, every other one is "other"; the clock counts; and the codec gives
-- a payload back as no payload.
abbrev codec : Codec
codec = record { marshal = λ p. some "{}"; unmarshal = λ s. some [] }

abbrev pub deps : Dependencies
deps = record {
  now = λ k. 100 + k;
  new_id = λ k prefix. if nat_eq k 0 then prefix else "other";
  codec = codec;
}

abbrev calls : List Command
calls =
    start (pos 7) "chat" (pos 1) " log in " ∷ request "run" [] ∷ cancel_command "run" "stop" ∷ []

session-IsWellFormed_example : IsWellFormed (perform_all deps calls new_service).repository
session-IsWellFormed_example = session-IsWellFormed deps calls

-- One run, "r", as a repository holds it, and an event for it.
abbrev run : AgentRun
run = fresh_run (pos 7) "chat" (pos 1) "log in" 100 "r"

abbrev opening : Event
opening = record (event EventType.run_started "step" "" []) { seq = 1; run_id = "r" }

abbrev pub holding : AgentRun → Service
holding run = record new_service {
  repository = record { runs = ("r", run) ∷ []; events = ("r", opening ∷ []) ∷ [] };
  issued = 2;
}

ids_differ : ("other" == "r") ≡ false
ids_differ = refl

cancelled_is_final_example :
    let s = holding (cancelled_at 3 run) in
    let s' = perform_all deps calls s in
    (lookup "r" s'.repository.runs ≡ some (cancelled_at 3 run))
    × (log "r" s'.repository ≡ log "r" s.repository)
unfolding lookup
cancelled_is_final_example =
    cancelled_is_final deps "r" (cancelled_at 3 run) (holding (cancelled_at 3 run)) calls refl refl
      (λ k late e. ground (arith, eq_iff "other" "r", eq_iff "run" "r"))

abbrev question : Question
question = record {
  id = "q";
  prompt = "Which page?";
  question_type = QuestionType.confirm;
  is_required = true;
  options = [];
}

abbrev answer : ResumeToolCallRequest
answer = record { answers = []; next_step = "" }

resume-request_example :
    let s1 = (request_user_input_for_call deps "r" "call" "step" (question ∷ []) (holding run)).1 in
    let (outcome, s2) = resume_tool_call deps "r" "call" answer s1 in
    (t : Time) × (new : List Event) × (outcome ≡ ok (running_again t run))
    × (lookup "r" s2.repository.runs ≡ some (running_again t run))
    × (log "r" s2.repository ≡ log "r" (holding run).repository ++ new)
    × AreFor "call"
        (EventType.tool_pending ∷ EventType.tool_result ∷ EventType.tool_finished ∷ [])
        new
unfolding lookup validate_questions trim_space
resume-request_example =
    resume-request deps run "call" "step" (question ∷ []) answer (holding run) refl refl refl

abbrev waiting : AgentRun
waiting = record run { status = RunStatus.waiting_user; pending_tool_call_id = some "call" }

resume-once_example :
    let (outcome, s') = resume_tool_call deps "r" "call" answer (holding waiting) in
    (t : Time) × (outcome ≡ ok (running_again t waiting))
    × (lookup "r" s'.repository.runs ≡ some (running_again t waiting))
    × (answer_each deps "r"
          (("other", answer) ∷ ("call", answer) ∷ ("call", answer) ∷ [])
          (holding waiting)
        ≡ s')
unfolding lookup
resume-once_example =
    resume-once deps waiting "call" answer (("other", answer) ∷ []) (("call", answer) ∷ [])
      (holding waiting) refl refl refl (λ p. absurd (cc p), tt)

finish_after_cancel_example :
    let s = holding (cancelled_at 3 run) in
    let s' : Service = record s { readings = s.readings + 1 } in
    (complete_run deps run s ≡ (ok (cancelled_at 3 run), s'))
    × (fail_run deps run none s ≡ (ok (cancelled_at 3 run), s'))
unfolding lookup
finish_after_cancel_example =
    finish_after_cancel deps run (cancelled_at 3 run) none (holding (cancelled_at 3 run)) refl refl

cancel_run_example :
    let s = holding run in
    let (outcome, s') = cancel_run deps "r" "stop" s in
    let stopped = cancelled_at (deps.now s.readings) run in
    (is_live run ≡ true
      → (outcome ≡ ok stopped)
        × (lookup "r" s'.repository.runs ≡ some stopped)
        × ((e : Event) × (log "r" s'.repository ≡ log "r" s.repository ++ e ∷ [])
            × (e.event_type ≡ EventType.run_cancelled)
            × (e.seq ≡ length (log "r" s.repository) + 1)))
    × (is_live run ≡ false → (outcome ≡ ok run) × (s'.repository ≡ s.repository))
unfolding lookup trim_space
cancel_run_example = cancel_run_lem deps run "stop" (holding run) refl refl

cancel-cancel_example :
    let s1 = (cancel_run deps "r" "stop" (holding run)).1 in
    (cancel_run deps "r" "again" s1).1.repository ≡ s1.repository
unfolding trim_space
cancel-cancel_example = cancel-cancel deps "r" "stop" "again" (holding run) refl

abbrev repository : MemoryRepository
repository = (holding run).repository

repository-IsWellFormed : IsWellFormed repository
unfolding lookup log
repository-IsWellFormed = record {
  keyed = λ k other p. ground (arith, eq_iff "r" k);
  numbered = λ k. ground (arith, eq_iff "r" k);
  owned = λ k p. ground (arith, eq_iff "r" k);
}

list_events-drop_example :
    list_events "r" (pos 1) repository ≡ (ok (drop 1 (log "r" repository)), repository)
unfolding lookup
list_events-drop_example = list_events-drop repository "r" 1 run repository-IsWellFormed refl

get_event-seq_example :
    (e : Event) × (Memory.get_event "r" (pos 1) repository ≡ (ok e, repository))
    × (e.run_id ≡ "r")
    × (e.seq ≡ 1)
unfolding lookup log
get_event-seq_example =
    get_event-seq repository "r" 0 run repository-IsWellFormed refl (omega arith)

abbrev one_subscriber : EventBroker
one_subscriber = (subscribe "r" new_event_broker).1

publish_wakes_example :
    ((publish "r" one_subscriber).panicked ≡ false)
    × ((publish "r" one_subscriber).subscribers ≡ one_subscriber.subscribers)
    × ((id : ℕ)
        → ((publish "r" one_subscriber).channels id).woken
          ≡ (subscribed one_subscriber "r" id || (one_subscriber.channels id).woken))
publish_wakes_example =
    publish_wakes "r" one_subscriber (subscribed_to "r" new_event_broker (omega arith) fresh)

subscription_life_example :
    let (i, b1) = subscribe "r" new_event_broker in
    let b2 = cancel "r" i b1 in
    ((k : String) → subscribed new_event_broker k i ≡ false)
    × (((publish "r" b1).channels i).woken ≡ true)
    × ((k : String) → subscribed b2 k i ≡ false)
    × ((b2.channels i).closed ≡ true)
    × (cancel "r" i b2 ≡ b2)
subscription_life_example = subscription_life "r" new_event_broker (omega arith) fresh
