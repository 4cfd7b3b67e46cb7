-- ===== src/AgentService/Memory/Cancel.antt =====
-- CancelRun of the memory repository (internal/agentservice/memory_repository.go).
use ai_web_testing.Prelude.{
  ◌+◌, String, ◌≡◌, refl, none, some, Option-cases, Bool-cases, inl, inr, ◌⊎◌, [], ◌∷◌, ◌++◌, Bool,
  true, false, eq_refl, lookup, insert, lookup-insert, ok, err, arith, ◌||◌, length,
}
use ai_web_testing.AgentService.Types.{
  Time, AgentRun, Event, is_running, is_waiting_user, cancelled, run_not_found,
}
use ai_web_testing.AgentService.Memory.{MemoryRepository, Codec, log, push_event, cancel_run}
use ai_web_testing.AgentService.Memory.Log.{log-push_event}

abbrev pub is_live : AgentRun → Bool
is_live run = is_running run.status || is_waiting_user run.status

abbrev pub cancelled_at : Time → AgentRun → AgentRun
cancelled_at t run = record run {
  status = cancelled;
  pending_tool_call_id = none;
  pending_step_id = none;
  updated_at = t;
}

module _ (codec : Codec) (k : String) (t : Time) (e : Event) (r : MemoryRepository) where
  abbrev pub stopped_runs : AgentRun → MemoryRepository
  stopped_runs run = record r { runs = insert k (cancelled_at t run) r.runs }

  abbrev pub stop_event : AgentRun → Event
  stop_event run = record e { run_id = run.id; conversation_id = run.conversation_id }

  pub cancel_run-live :
      (run : AgentRun)
      → lookup k r.runs ≡ some run
      → is_live run ≡ true
      → cancel_run codec k t e r ≡ (
        ok (cancelled_at t run, some (push_event codec k (stop_event run) (stopped_runs run)).0),
        (push_event codec k (stop_event run) (stopped_runs run)).1,
      )
  unfolding cancel_run
  cancel_run-live run found live = ground arith

  pub stopped_facts :
      (run : AgentRun)
      → let (stored, r') = push_event codec k (stop_event run) (stopped_runs run) in
        (lookup k r'.runs ≡ some (cancelled_at t run))
        × (log k r' ≡ log k r ++ stored ∷ [])
        × (stored.event_type ≡ e.event_type)
        × (stored.seq ≡ length (log k r) + 1)
  stopped_facts run = (
    unfold push_event in rw lookup-insert (rw (eq_refl k)),
    rw log-push_event (rw (eq_refl k) (unfold log in refl)),
    unfold push_event in ground arith,
    unfold push_event log in ground arith,
  )

  pub cancel_run-settled :
      (run : AgentRun)
      → lookup k r.runs ≡ some run
      → is_live run ≡ false
      → cancel_run codec k t e r ≡ (ok (run, none), r)
  unfolding cancel_run
  cancel_run-settled run found done = ground arith

  pub cancel_run-missing :
      lookup k r.runs ≡ none → cancel_run codec k t e r ≡ (err run_not_found, r)
  unfolding cancel_run
  cancel_run-missing missing = ground arith

  -- Afterwards no live run stands at `k`.
  pub settled_after :
      (run : AgentRun) → lookup k (cancel_run codec k t e r).1.runs ≡ some run → is_live run ≡ false
  settled_after run found = go (Option-cases (lookup k r.runs))
    where
      live_case :
          (old : AgentRun)
          → lookup k r.runs ≡ some old
          → (is_live old ≡ true) ⊎ (is_live old ≡ false)
          → is_live run ≡ false
      live_case old p (inl live) =
          let h = rw (cancel_run-live old p live) at found in
          unfold push_event in
          ground (arith, lookup-insert k k (cancelled_at t old) r.runs, eq_refl k, h)
      live_case old p (inr done) =
          let h = rw (cancel_run-settled old p done) at found in ground (arith, h)

      go :
          (lookup k r.runs ≡ none) ⊎ ((old : AgentRun) × (lookup k r.runs ≡ some old))
          → is_live run ≡ false
      go (inl p) = let h = rw (cancel_run-missing p) at found in cc (h, p)
      go (inr (old, p)) = live_case old p (Bool-cases (is_live old))

pub cancel_run-cancel_run :
    (codec : Codec) (k : String) (t t' : Time) (e e' : Event) (r : MemoryRepository)
    → let r' = (cancel_run codec k t e r).1 in (cancel_run codec k t' e' r').1 ≡ r'
cancel_run-cancel_run codec k t t' e e' r =
    let r' = (cancel_run codec k t e r).1 in
    elim (Option-cases (lookup k r'.runs)) [
      | inl p ↦ rw (cancel_run-missing codec k t' e' r' p)
      | inr (run, p) ↦
          rw (cancel_run-settled codec k t' e' r' run p (settled_after codec k t e r run p))
    ]
