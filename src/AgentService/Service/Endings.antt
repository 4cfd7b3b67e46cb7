-- ===== src/AgentService/Service/Endings.antt =====
-- How a run ends: CancelRun, CompleteRun and FailRun of internal/agentservice/service.go, and the
-- race between a cancellation and a completion.
use mathlib.Core.Path.{subst}
use ai_web_testing.Prelude.{
  ◌+◌, String, ◌≡◌, refl, Option, none, some, [], ◌∷◌, ◌++◌, true, false, ◌==◌, lookup, ◌>>=◌,
  proceed, ◌∙◌, sym, ap, Bool-cases, inl, inr, Result, ok, err, arith, trim_space, length,
}
use ai_web_testing.AgentService.Types.{AgentRun, Event, EventType, Error, text, is_cancelled}
use ai_web_testing.AgentService.Memory
use ai_web_testing.AgentService.Memory.{MemoryRepository, log, push_event}
use ai_web_testing.AgentService.Memory.Cancel.{
  cancelled_at, is_live, stop_event, stopped_runs, cancel_run-live, stopped_facts,
  cancel_run-settled, cancel_run-cancel_run,
}
use ai_web_testing.AgentService.Service.{
  Service, Dependencies, on_repository, notify, cancel_run, complete_run, fail_run, event,
  announce_cancelled,
}

-- A run that is cancelled between the reading and the saving of a caller is returned as cancelled by
-- CompleteRun and by FailRun, with no error, and nothing is written: neither the run nor an event.
pub finish_after_cancel :
    (d : Dependencies) (run current : AgentRun) (cause : Option String) (s : Service)
    → lookup run.id s.repository.runs ≡ some current
    → is_cancelled current.status ≡ true
    → let s' : Service = record s { readings = s.readings + 1 } in
      (complete_run d run s ≡ (ok current, s')) × (fail_run d run cause s ≡ (ok current, s'))
unfolding complete_run fail_run ◌>>=◌ on_repository Memory.save_run Memory.get_run
finish_after_cancel d run current cause s found stopped = (ground arith, ground arith)

module _ (d : Dependencies) where
  abbrev cancel_event : String → Service → Event
  cancel_event reason s =
      record (event EventType.run_cancelled "" "" (("reason", text (trim_space reason)) ∷ [])) {
        timestamp = d.now s.readings;
      }

  abbrev first_of_result : Result Error (AgentRun × Option Event) → Result Error AgentRun
  first_of_result (ok (run, e)) = ok run
  first_of_result (err e) = err e

  -- CancelRun with a reason is the repository's CancelRun, and a wake-up.
  cancel_run-memory :
      (run_id reason : String) (s : Service)
      → (trim_space reason == "") ≡ false
      → let (r, repository') =
          Memory.cancel_run d.codec run_id
            (d.now s.readings)
            (cancel_event reason s)
            s.repository in
        ((cancel_run d run_id reason s).0 ≡ first_of_result r)
        × ((cancel_run d run_id reason s).1.repository ≡ repository')
  unfolding cancel_run ◌>>=◌ on_repository notify
  cancel_run-memory run_id reason s given = rw given (
      announced
        (Memory.cancel_run d.codec run_id (d.now s.readings) (cancel_event reason s) s.repository).0
        (record s {
          readings = s.readings + 1;
          repository =
              (Memory.cancel_run d.codec run_id (d.now s.readings) (cancel_event reason s)
                s.repository).1;
        }))
    where
      announced :
          (r : Result Error (AgentRun × Option Event)) (s' : Service)
          → let (r', s'') = proceed (λ p. announce_cancelled d p.0 p.1) r s' in
            (r' ≡ first_of_result r) × (s''.repository ≡ s'.repository)
      announced (ok (run, none)) s' = (refl, refl)
      announced (ok (run, some e)) s' = (refl, refl)
      announced (err e) s' = (refl, refl)

-- CancelRun with a reason that is not blank, on a run of the repository: a running or waiting run is
-- stored as cancelled, its pending call is dropped, and its log gains exactly one event; any other
-- run is returned as it is, with no change to the repository.
pub cancel_run_lem :
    (d : Dependencies) (run : AgentRun) (reason : String) (s : Service)
    → lookup run.id s.repository.runs ≡ some run
    → (trim_space reason == "") ≡ false
    → let (outcome, s') = cancel_run d run.id reason s in
      let stopped = cancelled_at (d.now s.readings) run in
      (is_live run ≡ true
        → (outcome ≡ ok stopped)
          × (lookup run.id s'.repository.runs ≡ some stopped)
          × ((e : Event) × (log run.id s'.repository ≡ log run.id s.repository ++ e ∷ [])
              × (e.event_type ≡ EventType.run_cancelled)
              × (e.seq ≡ length (log run.id s.repository) + 1)))
      × (is_live run ≡ false → (outcome ≡ ok run) × (s'.repository ≡ s.repository))
cancel_run_lem d run reason s found given =
    let e = cancel_event d reason s in
    let t = d.now s.readings in
    let (result, written) = cancel_run-memory d run.id reason s given in
    let stored = stop_event d.codec run.id t e s.repository run in
    let facts = stopped_facts d.codec run.id t e s.repository run in
    let r' = stopped_runs d.codec run.id t e s.repository run in
    (
      λ live.
          let h =
            written
            ∙ ap (λ p. p.1) (cancel_run-live d.codec run.id t e s.repository run found live) in
          (
            result
                ∙ ap (λ p. first_of_result d p.0)
                    (cancel_run-live d.codec run.id t e s.repository run found live),
            subst (λ r''. lookup run.id r''.runs ≡ some (cancelled_at t run)) (sym h) facts.0,
            (
              (push_event d.codec run.id stored r').0,
              subst
                  (λ r''.
                    log run.id r''
                    ≡ log run.id s.repository ++ (push_event d.codec run.id stored r').0 ∷ [])
                  (sym h) facts.1,
              facts.2,
              facts.3,
            ),
          ),
      λ done.
          let h = cancel_run-settled d.codec run.id t e s.repository run found done in
          (result ∙ ap (λ p. first_of_result d p.0) h, written ∙ ap (λ p. p.1) h),
    )

-- If the reason of a first CancelRun is not blank, a second CancelRun changes nothing in the
-- repository, whatever its reason is and whatever became of the first.
pub cancel-cancel :
    (d : Dependencies) (run_id first second : String) (s : Service)
    → (trim_space first == "") ≡ false
    → let s1 = (cancel_run d run_id first s).1 in
      (cancel_run d run_id second s1).1.repository ≡ s1.repository
cancel-cancel d run_id first second s given =
    let s1 = (cancel_run d run_id first s).1 in
    let written = (cancel_run-memory d run_id first s given).1 in
    elim (Bool-cases (trim_space second == "")) [
      | inl blank ↦ unfold cancel_run in rw blank
      | inr second_given ↦
          (cancel_run-memory d run_id second s1 second_given).1
          ∙ rw written (
              cancel_run-cancel_run d.codec run_id (d.now s.readings) (d.now s1.readings)
                (cancel_event d first s) (cancel_event d second s1) s.repository)
    ]
