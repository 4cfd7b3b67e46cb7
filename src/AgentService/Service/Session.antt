-- ===== src/AgentService/Service/Session.antt =====
-- Sessions of the run service: what every sequence of calls keeps in the repository
-- (internal/agentservice/service.go on memory_repository.go).
use ai_web_testing.Prelude.{
  ℕ, ◌≤◌, String, ◌≡◌, refl, ◌≢◌, some, List, true, eq_iff, lookup, Action, Keeps, arith,
}
use ai_web_testing.AgentService.Types.{AgentRun, Event, Error, is_cancelled}
use ai_web_testing.AgentService.Memory.{MemoryRepository, log, new_memory_repository}
use ai_web_testing.AgentService.Memory.Log.{
  IsWellFormed, create_run-IsWellFormed, save_run-IsWellFormed, append_event-IsWellFormed,
  cancel_run-IsWellFormed,
}
use ai_web_testing.AgentService.Memory.Stopped.{
  Holds, create_run-Holds, save_run-Holds, append_event-Holds, cancel_run-Holds,
}
use ai_web_testing.AgentService.Broker.{new_event_broker}
use ai_web_testing.AgentService.Service.{Service, Dependencies, on_repository}
use ai_web_testing.AgentService.Service.Steps.{Command, perform_all, IsKept, perform_all-keeps}

-- NewService over an empty repository
abbrev pub new_service : Service
new_service = record {
  repository = new_memory_repository;
  broker = new_event_broker;
  readings = 0;
  issued = 0;
}

on_repository-Keeps :
    {A : Type 0} {Q : MemoryRepository → Type 0} (m : Action MemoryRepository Error A)
    → Keeps Q m
    → Keeps (λ (s : Service). Q s.repository) (on_repository m)
unfolding on_repository
on_repository-Keeps m k = record { at = λ s h. k.at s.repository h }

abbrev HasWellFormedLogs : Service → Type 0
HasWellFormedLogs s = IsWellFormed s.repository

logs_kept : (d : Dependencies) → IsKept d HasWellFormedLogs
unfolding on_repository
logs_kept d = record {
  read = λ s h. h;
  drawn = λ s h. h;
  notified = λ run_id s h. h;
  saved = λ run. on_repository-Keeps _ (save_run-IsWellFormed d.codec run);
  appended = λ e. on_repository-Keeps _ (append_event-IsWellFormed d.codec e);
  stopped = λ run_id t e. on_repository-Keeps _ (cancel_run-IsWellFormed d.codec run_id t e);
  created = λ run s named h. (create_run-IsWellFormed d.codec run).at s.repository h;
}

new_memory_repository-IsWellFormed : IsWellFormed new_memory_repository
unfolding lookup log
new_memory_repository-IsWellFormed = record {
  keyed = λ k run p. cc;
  numbered = λ k. tt;
  owned = λ k p. refl;
}

-- After any calls, in any order, on a new service: the repository is well formed, that is, each run
-- stands under its own id, each log holds events of its own run numbered 1, 2, 3 and so on, and an
-- unknown run has no log.
pub session-IsWellFormed :
    (d : Dependencies) (calls : List Command)
    → IsWellFormed (perform_all d calls new_service).repository
session-IsWellFormed d calls =
    perform_all-keeps (logs_kept d) calls new_service new_memory_repository-IsWellFormed

-- `run` stands in the repository with the log `events`, and its id is not drawn again.
pub record IsStopped (d : Dependencies) (run_id : String) (run : AgentRun) (events : List Event)
    (s : Service) : Type 0 where
  pub holds : Holds run_id run events s.repository
  pub unused : (k : ℕ) → s.issued ≤ k → d.new_id k "run" ≢ run_id

IsStopped-kept :
    (d : Dependencies) (run_id : String) (run : AgentRun) (events : List Event)
    → is_cancelled run.status ≡ true
    → IsKept d (IsStopped d run_id run events)
unfolding on_repository
IsStopped-kept d run_id run events stopped = record {
  read = λ s h. record { holds = h.holds; unused = h.unused };
  drawn = λ s h. record { holds = h.holds; unused = λ k lt. h.unused k (omega arith) };
  notified = λ id s h. record { holds = h.holds; unused = h.unused };
  saved = λ other. record {
    at = λ s h. record {
      holds = save_run-Holds run_id run events stopped other s.repository h.holds;
      unused = h.unused;
    };
  };
  appended = λ e. record {
    at = λ s h. record {
      holds = append_event-Holds run_id run events stopped d.codec e s.repository h.holds;
      unused = h.unused;
    };
  };
  stopped = λ id t e. record {
    at = λ s h. record {
      holds = cancel_run-Holds run_id run events stopped d.codec id t e s.repository h.holds;
      unused = h.unused;
    };
  };
  created = λ other s named h. record {
    holds =
        create_run-Holds run_id run events other s.repository
          (ground (arith, eq_iff other.id run_id, h.unused s.issued (omega arith))) h.holds;
    unused = λ k lt. h.unused k (omega arith);
  };
}

-- Cancellation is final: once a run is cancelled, and as long as the id generator does not draw its
-- id again, no calls on the service, for this run or any other, change the run or add to its log.
pub cancelled_is_final :
    (d : Dependencies) (run_id : String) (run : AgentRun) (s : Service) (calls : List Command)
    → is_cancelled run.status ≡ true
    → lookup run_id s.repository.runs ≡ some run
    → ((k : ℕ) → s.issued ≤ k → d.new_id k "run" ≢ run_id)
    → let s' = perform_all d calls s in
      (lookup run_id s'.repository.runs ≡ some run)
      × (log run_id s'.repository ≡ log run_id s.repository)
cancelled_is_final d run_id run s calls stopped found unused =
    let after =
      perform_all-keeps (IsStopped-kept d run_id run (log run_id s.repository) stopped) calls s
        (record { holds = record { found = found; logged = refl }; unused = unused }) in
    (after.holds.found, after.holds.logged)
