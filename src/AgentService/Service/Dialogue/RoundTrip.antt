-- ===== src/AgentService/Service/Dialogue/RoundTrip.antt =====
-- A question and its answer (RequestUserInputForCall, then ResumeToolCall, of
-- internal/agentservice/service.go).
use ai_web_testing.Prelude.{
  String, ◌≡◌, refl, some, List, [], ◌∷◌, ◌++◌, lookup, ok, true, false, ◌+◌, ◌∙◌, ◌≢◌, All,
}
use mathlib.Core.List.{append_assoc}
use ai_web_testing.AgentService.Types.{
  Time, AgentRun, Event, EventType, Question, ResumeToolCallRequest, is_running, is_waiting_user,
}
use ai_web_testing.AgentService.Memory.{log}
use ai_web_testing.AgentService.Service.{
  Service, Dependencies, validate_questions, request_user_input_for_call, resume_tool_call,
}
use ai_web_testing.AgentService.Service.Dialogue.{
  recorded_event, recorded_facts, asked, asked_facts, request_for_call-asked, answered_facts,
  resume-answered, resume_refused, answered, running_again, pending_event, result_event,
  finished_event, waiting_for, heard, recorded,
}

-- The events that `log` has gained are one of each given type for this call, in this order.
abbrev pub AreFor : String → List EventType → List Event → Type 0
AreFor call [] [] = Unit
AreFor call (t ∷ ts) (e ∷ es) = (e.event_type ≡ t) × (e.tool_call_id ≡ call) × AreFor call ts es
AreFor call _ _ = ⊥

-- Asking valid questions in a running run and then answering that call succeeds: the run is running
-- again with no pending call and is otherwise as before, but for its time of update, and its log has
-- gained exactly three events, the pending call, its result and its end, all of this call.
pub resume-request :
    (d : Dependencies) (run : AgentRun) (call step : String) (questions : List Question)
    (answer : ResumeToolCallRequest) (s : Service)
    → lookup run.id s.repository.runs ≡ some run
    → is_running run.status ≡ true
    → validate_questions questions ≡ ok tt
    → let s1 = (request_user_input_for_call d run.id call step questions s).1 in
      let (outcome, s2) = resume_tool_call d run.id call answer s1 in
      (t : Time) × (new : List Event) × (outcome ≡ ok (running_again t run))
      × (lookup run.id s2.repository.runs ≡ some (running_again t run))
      × (log run.id s2.repository ≡ log run.id s.repository ++ new)
      × AreFor call
          (EventType.tool_pending ∷ EventType.tool_result ∷ EventType.tool_finished ∷ [])
          new
resume-request d run call step questions answer s found live valid =
    let w = waiting_for d call step (d.now (s.readings + 1)) run in
    let s1 = asked d run call step questions s in
    let (stands, logged) = asked_facts d run call step questions s in
    let p = pending_event d call step questions s in
    let s0 : Service = record s { issued = s.issued + 1 } in
    let e = result_event d w call answer in
    let f = finished_event d w call in
    let s2 = recorded d w e s1 in
    let (stands', logged') = answered_facts d w call answer s1 in
    rw (request_for_call-asked d run run.id call step questions s found refl live valid) (
      rw (resume-answered d w run.id call answer s1 stands refl refl refl) (
        d.now (heard d w call answer s1).readings,
        recorded_event d run p s0 ∷ recorded_event d w e s1 ∷ recorded_event d w f s2 ∷ [],
        refl,
        stands',
        logged' ∙ rw logged (rw append_assoc),
        (
          (recorded_facts d run p s0).3,
          (recorded_facts d run p s0).4,
          (
            (recorded_facts d w e s1).3,
            (recorded_facts d w e s1).4,
            ((recorded_facts d w f s2).3, (recorded_facts d w f s2).4, tt),
          ),
        ),
      ))

module _ (d : Dependencies) (run_id : String) where
  -- The service after these answers to calls of the run, one after the other.
  unfoldable pub answer_each : List (String × ResumeToolCallRequest) → Service → Service
  answer_each [] s = s
  answer_each ((call, answer) ∷ later) s =
      answer_each later (resume_tool_call d run_id call answer s).1

  answer_each-append :
      (first later : List (String × ResumeToolCallRequest)) (s : Service)
      → answer_each (first ++ later) s ≡ answer_each later (answer_each first s)
  unfolding answer_each
  answer_each-append [] later s = refl
  answer_each-append ((call, answer) ∷ first) later s = answer_each-append first later _

  abbrev pub IsForOther : String → String × ResumeToolCallRequest → Type 0
  IsForOther pending (call, answer) = pending ≢ call

  mistaken :
      (run : AgentRun) (pending : String) (answers : List (String × ResumeToolCallRequest))
      (s : Service)
      → lookup run_id s.repository.runs ≡ some run
      → is_waiting_user run.status ≡ true
      → run.pending_tool_call_id ≡ some pending
      → All (IsForOther pending) answers
      → answer_each answers s ≡ s
  unfolding answer_each
  mistaken run pending [] s found waits asks h = refl
  mistaken run pending ((call, answer) ∷ later) s found waits asks h =
      rw ((resume_refused d run run_id call answer s found).2 pending waits asks h.0)
        (mistaken run pending later s found waits asks h.1)

  late :
      (run : AgentRun) (answers : List (String × ResumeToolCallRequest)) (s : Service)
      → lookup run_id s.repository.runs ≡ some run
      → is_waiting_user run.status ≡ false
      → answer_each answers s ≡ s
  unfolding answer_each
  late run [] s found settled = refl
  late run ((call, answer) ∷ later) s found settled =
      rw ((resume_refused d run run_id call answer s found).0 settled)
        (late run later s found settled)

-- Of all the answers that a waiting run is sent, in any number and order, the first one to its pending
-- call is accepted and is the only one that counts: the answers to other calls before it and all
-- answers after it leave the service as if they had not been sent.
pub resume-once :
    (d : Dependencies) (run : AgentRun) (call : String) (answer : ResumeToolCallRequest)
    (before after : List (String × ResumeToolCallRequest)) (s : Service)
    → lookup run.id s.repository.runs ≡ some run
    → is_waiting_user run.status ≡ true
    → run.pending_tool_call_id ≡ some call
    → All (IsForOther d run.id call) before
    → let (outcome, s') = resume_tool_call d run.id call answer s in
      (t : Time) × (outcome ≡ ok (running_again t run))
      × (lookup run.id s'.repository.runs ≡ some (running_again t run))
      × (answer_each d run.id (before ++ (call, answer) ∷ after) s ≡ s')
resume-once d run call answer before after s found waits pending others =
    let accepted = resume-answered d run run.id call answer s found refl waits pending in
    let (stands, logged) = answered_facts d run call answer s in
    let again = running_again (d.now (heard d run call answer s).readings) run in
    rw accepted (
      d.now (heard d run call answer s).readings,
      refl,
      stands,
      answer_each-append d run.id before ((call, answer) ∷ after) s
          ∙ rw (mistaken d run.id run call before s found waits pending others) (
              unfold answer_each in
              rw accepted (late d run.id again after (answered d run call answer s) stands refl)),
    )
