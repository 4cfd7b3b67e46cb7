-- ===== src/AgentService/Service/Dialogue.antt =====
-- Questions to the user: RequestUserInputForCall and ResumeToolCall of
-- internal/agentservice/service.go, and how they answer one another.
pub mod RoundTrip
use mathlib.Core.List.{append_assoc}
use ai_web_testing.Prelude.{
  ℕ, ◌+◌, String, ◌≡◌, refl, ◌≢◌, Option, none, some, List, [], ◌∷◌, ◌++◌, Bool, true, false,
  if◌then◌else◌, ◌==◌, eq_iff, eq_refl, lookup, insert, lookup-insert, ◌>>=◌, Result, ok, err,
  arith, not, sym, ◌∙◌,
}
use ai_web_testing.AgentService.Types.{
  Time, AgentRun, Event, EventType, Question, ResumeToolCallRequest, Error, text, obj, is_cancelled,
  is_running, is_waiting_user, running, waiting_user, run_not_waiting_for_user, tool_call_mismatch,
  cannot_request_user_input,
}
use ai_web_testing.AgentService.Memory
use ai_web_testing.AgentService.Memory.{MemoryRepository, log, push_event}
use ai_web_testing.AgentService.Memory.Log.{log-push_event}
use ai_web_testing.AgentService.Broker.{publish}
use ai_web_testing.AgentService.Service.{
  Service, Dependencies, on_repository, notify, record_event, event, or_empty, fields_of,
  questions_json, validate_questions, request_user_input_for_call, resume_tool_call,
}

-- The run, with no pending call.
abbrev pub running_again : Time → AgentRun → AgentRun
running_again t run = record run {
  status = running;
  pending_tool_call_id = none;
  pending_step_id = none;
  updated_at = t;
}

module _ (d : Dependencies) where
  -- What is stored for an event that is recorded for a run.
  pub recorded_event : AgentRun → Event → Service → Event
  recorded_event run e s =
      let stamped : Event = record e {
        conversation_id = run.conversation_id;
        run_id = run.id;
        timestamp = d.now s.readings;
      } in
      (push_event d.codec run.id stamped s.repository).0

  -- The state after that.
  pub recorded : AgentRun → Event → Service → Service
  recorded run e s =
      let stamped : Event = record e {
        conversation_id = run.conversation_id;
        run_id = run.id;
        timestamp = d.now s.readings;
      } in
      let (stored, repository') = push_event d.codec run.id stamped s.repository in
      record s {
        repository = repository';
        readings = s.readings + 1;
        broker = publish stored.run_id s.broker;
      }

  pub record_event-recorded :
      (run current : AgentRun) (e : Event) (s : Service)
      → lookup run.id s.repository.runs ≡ some current
      → is_cancelled current.status ≡ false
      → record_event d run e s ≡ (ok (recorded_event run e s), recorded run e s)
  unfolding record_event ◌>>=◌ on_repository notify Memory.append_event recorded recorded_event
  record_event-recorded run current e s found live = ground arith

  pub recorded_facts :
      (run : AgentRun) (e : Event) (s : Service)
      → ((recorded run e s).repository.runs ≡ s.repository.runs)
        × (log run.id (recorded run e s).repository
            ≡ log run.id s.repository ++ recorded_event run e s ∷ [])
        × ((recorded run e s).issued ≡ s.issued)
        × ((recorded_event run e s).event_type ≡ e.event_type)
        × ((recorded_event run e s).tool_call_id ≡ e.tool_call_id)
  unfolding recorded recorded_event
  recorded_facts run e s = (
    unfold push_event in refl,
    rw log-push_event (rw (eq_refl run.id)),
    refl,
    unfold push_event in ground arith,
    unfold push_event in ground arith,
  )

  readings_recorded :
      (run : AgentRun) (e : Event) (s : Service) → (recorded run e s).readings ≡ s.readings + 1
  unfolding recorded
  readings_recorded run e s = refl

  -- The run, waiting for the answer to `call`.
  abbrev waiting_for : String → String → Time → AgentRun → AgentRun
  waiting_for call step t run = record run {
    status = waiting_user;
    pending_tool_call_id = some call;
    pending_step_id = some step;
    updated_at = t;
  }

  abbrev pending_event : String → String → List Question → Service → Event
  pending_event call step questions s =
      record (event EventType.tool_pending step call
        (("tool", text "ask_user_question") ∷ ("questions", questions_json questions) ∷ [])) {
          checkpoint_id = d.new_id s.issued "checkpoint";
        }

  -- The state after the questions were asked.
  asked : AgentRun → String → String → List Question → Service → Service
  asked run call step questions s =
      let s' =
        recorded run (pending_event call step questions s) (record s { issued = s.issued + 1 }) in
      record s' {
        readings = s'.readings + 1;
        repository = record s'.repository {
          runs = insert run.id (waiting_for call step (d.now s'.readings) run) s'.repository.runs;
        };
      }

  request_for_call-asked :
      (run : AgentRun) (run_id call step : String) (questions : List Question) (s : Service)
      → lookup run_id s.repository.runs ≡ some run
      → run.id ≡ run_id
      → is_running run.status ≡ true
      → validate_questions questions ≡ ok tt
      → request_user_input_for_call d run_id call step questions s ≡ (
        ok (
          waiting_for call step (d.now (s.readings + 1)) run,
          recorded_event run
              (pending_event call step questions s)
              (record s { issued = s.issued + 1 }),
        ),
        asked run call step questions s,
      )
  unfolding request_user_input_for_call ◌>>=◌ on_repository Memory.get_run Memory.save_run asked
      questions_json recorded
  request_for_call-asked run run_id call step questions s found named live valid =
      let s1 : Service = record s { issued = s.issued + 1 } in
      let e = pending_event call step questions s in
      ground (arith, record_event-recorded run run e s1, recorded_facts run e s1)

  abbrev result_event : AgentRun → String → ResumeToolCallRequest → Event
  result_event run call answer = event EventType.tool_result (or_empty run.pending_step_id) call (
      ("tool", text "ask_user_question")
      ∷ ("answers", obj (fields_of answer.answers))
      ∷ ("next_step", text answer.next_step)
      ∷ [])

  abbrev finished_event : AgentRun → String → Event
  finished_event run call =
      event EventType.tool_finished (or_empty run.pending_step_id) call
        (("tool", text "ask_user_question") ∷ [])

  -- The state after the two events of an answer.
  abbrev heard : AgentRun → String → ResumeToolCallRequest → Service → Service
  heard run call answer s =
      recorded run (finished_event run call) (recorded run (result_event run call answer) s)

  pub answered : AgentRun → String → ResumeToolCallRequest → Service → Service
  answered run call answer s =
      let s' = heard run call answer s in
      record s' {
        readings = s'.readings + 1;
        repository = record s'.repository {
          runs = insert run.id (running_again (d.now s'.readings) run) s'.repository.runs;
        };
      }

  resume-answered :
      (run : AgentRun) (run_id call : String) (answer : ResumeToolCallRequest) (s : Service)
      → lookup run_id s.repository.runs ≡ some run
      → run.id ≡ run_id
      → is_waiting_user run.status ≡ true
      → run.pending_tool_call_id ≡ some call
      → resume_tool_call d run_id call answer s ≡ (
        ok (running_again (d.now (heard run call answer s).readings) run),
        answered run call answer s,
      )
  unfolding resume_tool_call ◌>>=◌ on_repository Memory.get_run Memory.save_run answered
  resume-answered run run_id call answer s found named waits pending =
      let e = result_event run call answer in
      let s1 = recorded run e s in
      let e' = finished_event run call in
      ground (
        arith,
        record_event-recorded run run e s,
        recorded_facts run e s,
        record_event-recorded run run e' s1,
        recorded_facts run e' s1,
        eq_refl call,
      )

  pub resume_refused :
      (run : AgentRun) (run_id call : String) (answer : ResumeToolCallRequest) (s : Service)
      → lookup run_id s.repository.runs ≡ some run
      → (is_waiting_user run.status ≡ false
          → resume_tool_call d run_id call answer s ≡ (err run_not_waiting_for_user, s))
        × (run.pending_tool_call_id ≡ none
            → resume_tool_call d run_id call answer s ≡ (err run_not_waiting_for_user, s))
        × ((pending : String)
            → is_waiting_user run.status ≡ true
            → run.pending_tool_call_id ≡ some pending
            → pending ≢ call
            → resume_tool_call d run_id call answer s ≡ (err tool_call_mismatch, s))
  unfolding resume_tool_call ◌>>=◌ on_repository Memory.get_run
  resume_refused run run_id call answer s found =
      (λ p. ground arith, λ p. ground arith, λ pending w p ne. ground (arith, eq_iff pending call))

  asked_facts :
      (run : AgentRun) (call step : String) (questions : List Question) (s : Service)
      → let s' = asked run call step questions s in
        (lookup run.id s'.repository.runs
          ≡ some (waiting_for call step (d.now (s.readings + 1)) run))
        × (log run.id s'.repository
            ≡ log run.id s.repository
              ++ recorded_event run
                  (pending_event call step questions s)
                  (record s { issued = s.issued + 1 })
                ∷ [])
  unfolding asked log
  asked_facts run call step questions s =
      let s1 : Service = record s { issued = s.issued + 1 } in
      let e = pending_event call step questions s in
      let waiting = waiting_for call step (d.now (recorded run e s1).readings) run in
      (
        ground (
          arith,
          eq_refl run.id,
          lookup-insert run.id run.id waiting (recorded run e s1).repository.runs,
          readings_recorded run e s1,
        ),
        (recorded_facts run e s1).1,
      )

  answered_facts :
      (run : AgentRun) (call : String) (answer : ResumeToolCallRequest) (s : Service)
      → let s' = answered run call answer s in
        (lookup run.id s'.repository.runs
          ≡ some (running_again (d.now (heard run call answer s).readings) run))
        × (log run.id s'.repository
            ≡ log run.id s.repository
              ++ recorded_event run (result_event run call answer) s
                ∷ recorded_event run
                    (finished_event run call)
                    (recorded run (result_event run call answer) s)
                ∷ [])
  unfolding answered log
  answered_facts run call answer s =
      let e = result_event run call answer in
      let s1 = recorded run e s in
      let e' = finished_event run call in
      let again = running_again (d.now (heard run call answer s).readings) run in
      (
        rw lookup-insert (rw (eq_refl run.id)),
        rw (recorded_facts run e' s1).1 (rw (recorded_facts run e s).1 (rw append_assoc)),
      )
