-- ===== src/AgentService/Service/Steps.antt =====
-- The calls of the service as data, and what it takes for a property to survive every call: the
-- rules for the steps that the methods of internal/agentservice/service.go are made of.
use ai_web_testing.Prelude.{
  ℕ, ◌+◌, String, ◌≡◌, refl, Option, none, some, List, [], ◌∷◌, ℤ, Result, ok, err, ◌>>=◌, Keeps,
  wrap, keeps_rules,
}
use ai_web_testing.AgentService.Types.{
  create_agent_run, AgentRun, Event, Question, ResumeToolCallRequest, Error,
}
use ai_web_testing.Prelude.{trim_space}
use ai_web_testing.AgentService.Memory
use ai_web_testing.AgentService.Broker.{publish}
use ai_web_testing.AgentService.Service.{
  Service, Dependencies, ServiceAction, on_repository, notify, get_run, get_owned_run,
  announce_cancelled, read_clock, draw_id, record_event, fresh_run, announce_started,
  start_owned_project_run, request_user_input_for_call, request_user_input, save_run, cancel_run,
  cancel_owned_run, settled, settle, complete_run, fail_run, resume_pending, resume_tool_call,
}

-- The calls that may change the state.
pub data Command : Type 0 where
  start : ℤ → String → ℤ → String → Command
  record_an_event : AgentRun → Event → Command
  request : String → List Question → Command
  request_for_call : String → String → String → List Question → Command
  save : AgentRun → Command
  cancel : String → String → Command
  cancel_owned : String → ℤ → String → Command
  complete : AgentRun → Command
  fail_with : AgentRun → Option String → Command
  resume : String → String → ResumeToolCallRequest → Command

abbrev pub perform : Dependencies → Command → Service → Service
perform d (start actor conversation project input) s =
    (start_owned_project_run d actor conversation project input s).1
perform d (record_an_event run e) s = (record_event d run e s).1
perform d (request run_id questions) s = (request_user_input d run_id questions s).1
perform d (request_for_call run_id call step questions) s =
    (request_user_input_for_call d run_id call step questions s).1
perform d (save run) s = (save_run d run s).1
perform d (cancel run_id reason) s = (cancel_run d run_id reason s).1
perform d (cancel_owned run_id actor reason) s = (cancel_owned_run d run_id actor reason s).1
perform d (complete run) s = (complete_run d run s).1
perform d (fail_with run cause) s = (fail_run d run cause s).1
perform d (resume run_id call answer) s = (resume_tool_call d run_id call answer s).1

-- A session: the calls in the order in which they take effect.
unfoldable pub perform_all : Dependencies → List Command → Service → Service
perform_all d [] s = s
perform_all d (c ∷ cs) s = perform_all d cs (perform d c s)

-- `P` survives the steps that the methods are made of.
pub record IsKept (d : Dependencies) (P : Service → Type 0) : Type 0 where
  pub read : (s : Service) → P s → P (record s { readings = s.readings + 1 })
  pub drawn : (s : Service) → P s → P (record s { issued = s.issued + 1 })
  pub notified :
      (run_id : String) (s : Service) → P s → P (record s { broker = publish run_id s.broker })
  pub saved : (run : AgentRun) → Keeps P (on_repository (Memory.save_run run))
  pub appended : (e : Event) → Keeps P (on_repository (Memory.append_event d.codec e))
  pub stopped :
      (run_id : String) (t : ℕ) (e : Event)
      → Keeps P (on_repository (Memory.cancel_run d.codec run_id t e))
  pub created :
      (run : AgentRun) (s : Service)
      → run.id ≡ d.new_id s.issued "run"
      → P s
      → P (on_repository (Memory.create_run run) (record s { issued = s.issued + 1 })).1

module _ {d : Dependencies} {P : Service → Type 0} (k : IsKept d P) where
  Keeps-read_clock : Keeps P (read_clock d)
  unfolding read_clock
  Keeps-read_clock = record { at = k.read }

  Keeps-draw_id : (prefix : String) → Keeps P (draw_id d prefix)
  unfolding draw_id
  Keeps-draw_id prefix = record { at = k.drawn }

  Keeps-notify : (run_id : String) → Keeps P (notify run_id)
  unfolding notify
  Keeps-notify run_id = record { at = k.notified run_id }

  Keeps-get_run : (run_id : String) → Keeps P (on_repository (Memory.get_run run_id))
  unfolding on_repository Memory.get_run
  Keeps-get_run run_id = record { at = λ s h. h }

  Keeps-lift : {A : Type 0} (r : Result Error A) → Keeps P (λ (s : Service). (r, s))
  Keeps-lift r = record { at = λ s h. h }

  Keeps-record_event : (run : AgentRun) (e : Event) → Keeps P (record_event d run e)
  unfolding record_event
  Keeps-record_event run e = search (keeps_rules, Keeps-read_clock, Keeps-notify, k.appended)

  Keeps-request_for_call :
      (run_id call step : String) (questions : List Question)
      → Keeps P (request_user_input_for_call d run_id call step questions)
  unfolding request_user_input_for_call
  Keeps-request_for_call run_id call step questions =
      search
        (
          keeps_rules, Keeps-lift, Keeps-read_clock, Keeps-draw_id, Keeps-get_run,
          Keeps-record_event, k.saved,
        )
        depth 9

  Keeps-request :
      (run_id : String) (questions : List Question)
      → Keeps P (request_user_input d run_id questions)
  unfolding request_user_input get_run
  Keeps-request run_id questions =
      search (keeps_rules, Keeps-draw_id, Keeps-get_run, Keeps-record_event, Keeps-request_for_call)
        depth 9

  Keeps-save_run : (run : AgentRun) → Keeps P (save_run d run)
  unfolding save_run
  Keeps-save_run run = search (keeps_rules, Keeps-read_clock, k.saved)

  Keeps-announce : (run : AgentRun) (o : Option Event) → Keeps P (announce_cancelled d run o)
  Keeps-announce run none = search keeps_rules
  Keeps-announce run (some e) = search (keeps_rules, Keeps-notify)

  Keeps-cancel_run : (run_id reason : String) → Keeps P (cancel_run d run_id reason)
  unfolding cancel_run
  Keeps-cancel_run run_id reason =
      search (keeps_rules, Keeps-read_clock, Keeps-announce, k.stopped) depth 9

  Keeps-get_owned_run : (run_id : String) (actor : ℤ) → Keeps P (get_owned_run run_id actor)
  unfolding get_owned_run
  Keeps-get_owned_run run_id actor = search (keeps_rules, Keeps-get_run)

  Keeps-cancel_owned :
      (run_id : String) (actor : ℤ) (reason : String)
      → Keeps P (cancel_owned_run d run_id actor reason)
  unfolding cancel_owned_run
  Keeps-cancel_owned run_id actor reason =
      search (keeps_rules, Keeps-get_owned_run, Keeps-cancel_run)

  Keeps-settled :
      (run : AgentRun) (e : Event) (r : Result Error (Unit {0})) → Keeps P (settled d run e r)
  unfolding settled
  Keeps-settled run e (ok done) = search (keeps_rules, Keeps-record_event)
  Keeps-settled run e (err failure) = search (keeps_rules, Keeps-get_run)

  Keeps-settle : (run : AgentRun) (e : Event) → Keeps P (settle d run e)
  unfolding settle
  Keeps-settle run e = record {
    at = λ s h.
        let (r, s') = on_repository (Memory.save_run run) s in
        (Keeps-settled run e r).at s' ((k.saved run).at s h);
  }

  Keeps-complete_run : (run : AgentRun) → Keeps P (complete_run d run)
  unfolding complete_run
  Keeps-complete_run run = search (keeps_rules, Keeps-read_clock, Keeps-settle)

  Keeps-fail_run : (run : AgentRun) (cause : Option String) → Keeps P (fail_run d run cause)
  unfolding fail_run
  Keeps-fail_run run cause = search (keeps_rules, Keeps-read_clock, Keeps-settle)

  Keeps-resume_pending :
      (run : AgentRun) (pending : Option String) (call : String) (answer : ResumeToolCallRequest)
      → Keeps P (resume_pending d run pending call answer)
  unfolding resume_pending
  Keeps-resume_pending run none call answer = search keeps_rules
  Keeps-resume_pending run (some pending) call answer =
      search (keeps_rules, Keeps-read_clock, Keeps-record_event, k.saved) depth 9

  Keeps-resume :
      (run_id call : String) (answer : ResumeToolCallRequest)
      → Keeps P (resume_tool_call d run_id call answer)
  unfolding resume_tool_call
  Keeps-resume run_id call answer = search (keeps_rules, Keeps-get_run, Keeps-resume_pending)

  -- A run is created under the id that was drawn just before.
  Keeps-opened :
      (open_run : String → AgentRun) (rest : String → ServiceAction AgentRun)
      → ((id : String) → (open_run id).id ≡ id)
      → ((id : String) → Keeps P (rest id))
      → Keeps P (
          draw_id d "run" >>= λ id.
          wrap create_agent_run (on_repository (Memory.create_run (open_run id))) >>= λ done.
          rest id)
  unfolding ◌>>=◌ draw_id on_repository Memory.create_run
  Keeps-opened open_run rest named kept = record {
    at = λ s h.
        let id = d.new_id s.issued "run" in
        (kept id).at
          (on_repository (Memory.create_run (open_run id)) (record s { issued = s.issued + 1 })).1
          (k.created (open_run id) s (named id) h);
  }

  Keeps-announce_started : (run : AgentRun) → Keeps P (announce_started d run)
  unfolding announce_started
  Keeps-announce_started run = search (keeps_rules, Keeps-draw_id, Keeps-record_event)

  Keeps-start :
      (actor : ℤ) (conversation : String) (project : ℤ) (given : String)
      → Keeps P (start_owned_project_run d actor conversation project given)
  unfolding start_owned_project_run
  Keeps-start actor conversation project given =
      let run = fresh_run actor (trim_space conversation) project (trim_space given) in
      let opened = λ (now : ℕ).
        Keeps-opened (run now) (λ id. announce_started d (run now id)) (λ id. refl)
          (λ id. Keeps-announce_started (run now id)) in
      search (keeps_rules, Keeps-read_clock, opened)

  -- Every call of the service keeps what its steps keep.
  pub perform-keeps : (c : Command) (s : Service) → P s → P (perform d c s)
  perform-keeps (start actor conversation project input) s h =
      (Keeps-start actor conversation project input).at s h
  perform-keeps (record_an_event run e) s h = (Keeps-record_event run e).at s h
  perform-keeps (request run_id questions) s h = (Keeps-request run_id questions).at s h
  perform-keeps (request_for_call run_id call step questions) s h =
      (Keeps-request_for_call run_id call step questions).at s h
  perform-keeps (save run) s h = (Keeps-save_run run).at s h
  perform-keeps (cancel run_id reason) s h = (Keeps-cancel_run run_id reason).at s h
  perform-keeps (cancel_owned run_id actor reason) s h =
      (Keeps-cancel_owned run_id actor reason).at s h
  perform-keeps (complete run) s h = (Keeps-complete_run run).at s h
  perform-keeps (fail_with run cause) s h = (Keeps-fail_run run cause).at s h
  perform-keeps (resume run_id call answer) s h = (Keeps-resume run_id call answer).at s h

  pub perform_all-keeps : (cs : List Command) (s : Service) → P s → P (perform_all d cs s)
  unfolding perform_all
  perform_all-keeps [] s h = h
  perform_all-keeps (c ∷ cs) s h = perform_all-keeps cs (perform d c s) (perform-keeps c s h)
