-- ===== src/AgentService/Service/Completion.antt =====
-- What SaveRun and CompleteRun of internal/agentservice/service.go do to a run that is not cancelled.
use ai_web_testing.Prelude.{
  ◌+◌, ◌≡◌, refl, none, some, [], ◌∷◌, ◌++◌, false, lookup, insert, lookup-insert, eq_refl, ◌>>=◌,
  ok,
}
use ai_web_testing.AgentService.Types.{Time, AgentRun, Event, EventType, is_cancelled, completed}
use ai_web_testing.AgentService.Memory
use ai_web_testing.AgentService.Memory.{log}
use ai_web_testing.AgentService.Service.{
  Service, Dependencies, on_repository, save_run, complete_run, event,
}
use ai_web_testing.AgentService.Service.Dialogue.{
  recorded, recorded_event, record_event-recorded, recorded_facts,
}

-- The run, completed, with no pending call.
abbrev pub completed_at : Time → AgentRun → AgentRun
completed_at t run = record run {
  status = completed;
  pending_tool_call_id = none;
  pending_step_id = none;
  updated_at = t;
}

module _ (d : Dependencies) where
  -- The state after the clock was read and the run was stored.
  abbrev pub stored : AgentRun → Service → Service
  stored run s = record s {
    readings = s.readings + 1;
    repository = record s.repository { runs = insert run.id run s.repository.runs };
  }

  pub save_run-live :
      (run current : AgentRun) (s : Service)
      → lookup run.id s.repository.runs ≡ some current
      → is_cancelled current.status ≡ false
      → save_run d run s ≡ (ok tt, stored (record run { updated_at = d.now s.readings }) s)
  unfolding save_run ◌>>=◌ on_repository Memory.save_run
  save_run-live run current s found live = rw (found, live)

  pub stored-found :
      (run : AgentRun) (s : Service) → lookup run.id (stored run s).repository.runs ≡ some run
  stored-found run s = rw (lookup-insert run.id run.id run s.repository.runs) (rw (eq_refl run.id))

  abbrev finished : AgentRun → Service → Service
  finished run s = recorded d run (event EventType.run_finished "" "" []) (stored run s)

  complete_run-finished :
      (run current : AgentRun) (s : Service)
      → lookup run.id s.repository.runs ≡ some current
      → is_cancelled current.status ≡ false
      → let done = completed_at (d.now s.readings) run in
        complete_run d run s ≡ (ok done, finished done s)
  unfolding complete_run ◌>>=◌ on_repository Memory.save_run
  complete_run-finished run current s found live =
      let done = completed_at (d.now s.readings) run in
      rw (found, live)
        (rw (
          record_event-recorded d done done (event EventType.run_finished "" "" []) (stored done s)
            (stored-found done s) refl))

  -- CompleteRun stores the run as completed and adds one event to its log.
  pub complete_run-live :
      (run current : AgentRun) (s : Service)
      → lookup run.id s.repository.runs ≡ some current
      → is_cancelled current.status ≡ false
      → let done = completed_at (d.now s.readings) run in
        (s' : Service) × (e : Event) × (complete_run d run s ≡ (ok done, s'))
        × (lookup run.id s'.repository.runs ≡ some done)
        × (log run.id s'.repository ≡ log run.id s.repository ++ e ∷ [])
        × (e.event_type ≡ EventType.run_finished)
  unfolding log
  complete_run-live run current s found live =
      let done = completed_at (d.now s.readings) run in
      let e = event EventType.run_finished "" "" [] in
      let facts = recorded_facts d done e (stored done s) in
      (
        finished done s,
        recorded_event d done e (stored done s),
        complete_run-finished run current s found live,
        rw facts.0 (stored-found done s),
        facts.1,
        facts.3,
      )
