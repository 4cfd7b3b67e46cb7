-- ===== src/AgentService/Memory/Stopped.antt =====
-- A cancelled run in the memory repository (internal/agentservice/memory_repository.go): no save,
-- append or cancellation of any run changes it or its log.
use ai_web_testing.Prelude.{
  String, ◌≡◌, Option, none, some, List, true, ◌==◌, eq_iff, lookup, insert, lookup-insert, arith,
  refl, false, if-state, not, ◌&&◌,
}
use ai_web_testing.AgentService.Types.{
  Time, is_cancelled, is_running, is_waiting_user, AgentRun, Event,
}
use ai_web_testing.AgentService.Memory.{
  MemoryRepository, Codec, log, create_run, save_over, save_run, push_event, append_to,
  append_event, cancel_found, cancel_run,
}
use ai_web_testing.AgentService.Memory.Log.{log-push_event}

pub record Holds (run_id : String) (run : AgentRun) (events : List Event) (r : MemoryRepository)
    : Type 0 where
  pub found : lookup run_id r.runs ≡ some run
  pub logged : log run_id r ≡ events

module _ (run_id : String) (run : AgentRun) (events : List Event) where
  put_other :
      (other : AgentRun) (k : String) (r : MemoryRepository)
      → (k == run_id) ≡ false
      → Holds run_id run events r
      → Holds run_id run events (record r { runs = insert k other r.runs })
  unfolding log
  put_other other k r ne h = ground (arith, lookup-insert k run_id other r.runs)

  push_other :
      (codec : Codec) (k : String) (e : Event) (r : MemoryRepository)
      → (k == run_id) ≡ false
      → Holds run_id run events r
      → Holds run_id run events (push_event codec k e r).1
  push_other codec k e r ne h = record {
    found = unfold push_event in h.found;
    logged = ground (arith, log-push_event codec k run_id e r);
  }

  pub create_run-Holds :
      (other : AgentRun) (r : MemoryRepository)
      → (other.id == run_id) ≡ false
      → Holds run_id run events r
      → Holds run_id run events (create_run other r).1
  unfolding create_run
  create_run-Holds other r ne h = put_other other other.id r ne h

module _ (run_id : String) (run : AgentRun) (events : List Event)
    (stopped : is_cancelled run.status ≡ true) where
  save_over-Holds :
      (o : Option AgentRun) (other : AgentRun) (r : MemoryRepository)
      → lookup other.id r.runs ≡ o
      → Holds run_id run events r
      → Holds run_id run events (save_over o other r).1
  unfolding save_over log
  save_over-Holds none other r e h = h
  save_over-Holds (some current) other r e h =
      ground (arith, eq_iff other.id run_id, lookup-insert other.id run_id other r.runs)

  pub save_run-Holds :
      (other : AgentRun) (r : MemoryRepository)
      → Holds run_id run events r
      → Holds run_id run events (save_run other r).1
  unfolding save_run
  save_run-Holds other r h = save_over-Holds (lookup other.id r.runs) other r refl h

  append_to-Holds :
      (codec : Codec) (o : Option AgentRun) (e : Event) (r : MemoryRepository)
      → lookup e.run_id r.runs ≡ o
      → Holds run_id run events r
      → Holds run_id run events (append_to codec o e r).1
  unfolding append_to
  append_to-Holds codec none e r p h = h
  append_to-Holds codec (some current) e r p h =
      if-state (Holds run_id run events) (is_cancelled current.status) _ _ (λ q. h)
        λ q.
          push_other run_id run events codec e.run_id e r (ground (arith, eq_iff e.run_id run_id)) h

  pub append_event-Holds :
      (codec : Codec) (e : Event) (r : MemoryRepository)
      → Holds run_id run events r
      → Holds run_id run events (append_event codec e r).1
  unfolding append_event
  append_event-Holds codec e r h = append_to-Holds codec (lookup e.run_id r.runs) e r refl h

  cancel_found-Holds :
      (codec : Codec) (o : Option AgentRun) (k : String) (t : Time) (e : Event)
      (r : MemoryRepository)
      → lookup k r.runs ≡ o
      → Holds run_id run events r
      → Holds run_id run events (cancel_found codec o k t e r).1
  unfolding cancel_found
  cancel_found-Holds codec none k t e r p h = h
  cancel_found-Holds codec (some current) k t e r p h =
      if-state (Holds run_id run events)
        (not (is_running current.status) && not (is_waiting_user current.status)) _ _ (λ q. h)
        λ q.
          let ne : (k == run_id) ≡ false = ground (arith, eq_iff k run_id) in
          push_other run_id run events codec k _ _ ne (put_other run_id run events _ k r ne h)

  pub cancel_run-Holds :
      (codec : Codec) (k : String) (t : Time) (e : Event) (r : MemoryRepository)
      → Holds run_id run events r
      → Holds run_id run events (cancel_run codec k t e r).1
  unfolding cancel_run
  cancel_run-Holds codec k t e r h = cancel_found-Holds codec (lookup k r.runs) k t e r refl h
