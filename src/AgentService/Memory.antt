-- ===== src/AgentService/Memory.antt =====
-- The run repository in memory (internal/agentservice/memory_repository.go): one action for each
-- method. The mutex makes a method atomic, so an action is one step.
pub mod Log
pub mod Stopped
pub mod Cancel
use ai_web_testing.Prelude.{
  suc, ◌+◌, String, not, ◌&&◌, ◌||◌, Option, none, some, List, [], ◌∷◌, ◌++◌, length, get_elem?,
  if◌then◌else◌, Dict, lookup, insert, ℤ, pos, below, nat_le_int, int_gt_nat, Result, ok, err,
  Action,
}
use ai_web_testing.AgentService.Types.{
  Time, Payload, is_running, is_waiting_user, is_cancelled, AgentRun, Event, Error, run_not_found,
  run_is_cancelled, event_not_found, cancelled,
}

pub record MemoryRepository : Type 0 where
  pub runs : Dict AgentRun
  pub events : Dict (List Event)

abbrev pub new_memory_repository : MemoryRepository
new_memory_repository = record { runs = []; events = [] }

-- encoding/json, as normalizeEvent uses it: `none` is an error.
pub record Codec : Type 0 where
  pub marshal : Payload → Option String
  pub unmarshal : String → Option Payload

-- `r.events[runID]`: a missing key reads as the empty slice
unfoldable pub log : String → MemoryRepository → List Event
log run_id r = elim (lookup run_id r.events) [ none ↦ [] | some events ↦ events ]

create_run_in : AgentRun → MemoryRepository → MemoryRepository
create_run_in run r = record r { runs = insert run.id run r.runs }

unfoldable pub create_run : AgentRun → Action MemoryRepository Error (Unit {0})
unfolding create_run_in
create_run run r = (ok tt, create_run_in run r)

found_run : Option AgentRun → Result Error AgentRun
found_run none = err run_not_found
found_run (some run) = ok run

unfoldable pub get_run : String → Action MemoryRepository Error AgentRun
unfolding found_run
get_run run_id r = (found_run (lookup run_id r.runs), r)

save_over : Option AgentRun → AgentRun → Action MemoryRepository Error (Unit {0})
save_over none run r = (err run_not_found, r)
save_over (some current) run r =
    if is_cancelled current.status
    then (err run_is_cancelled, r)
    else (ok tt, record r { runs = insert run.id run r.runs })

unfoldable pub save_run : AgentRun → Action MemoryRepository Error (Unit {0})
unfolding save_over
save_run run r = save_over (lookup run.id r.runs) run r

module _ (codec : Codec) where
  unmarshalled : Option Payload → Event → Event
  unmarshalled none event = event
  unmarshalled (some payload) event = record event { payload = payload }

  marshalled : Option String → Event → Event
  marshalled none event = event
  marshalled (some encoded) event = unmarshalled (codec.unmarshal encoded) event

  unfoldable pub normalize_event : Event → Event
  unfolding unmarshalled marshalled
  normalize_event event = marshalled (codec.marshal event.payload) event

  -- the statements of CancelRun and AppendEvent that number and store an event
  unfoldable pub push_event : String → Event → MemoryRepository → Event × MemoryRepository
  unfolding normalize_event
  push_event run_id event r =
      let stored = normalize_event (record event { seq = length (log run_id r) + 1 }) in
      (stored, record r { events = insert run_id (log run_id r ++ stored ∷ []) r.events })

  -- The run, and the event if the run was cancelled by this call: the source returns the zero event
  -- and `false` where this has `none`.
  cancel_found :
      Option AgentRun
      → String
      → Time
      → Event
      → Action MemoryRepository Error (AgentRun × Option Event)
  cancel_found none run_id updated_at event r = (err run_not_found, r)
  cancel_found (some run) run_id updated_at event r =
      if not (is_running run.status) && not (is_waiting_user run.status)
      then (ok (run, none), r)
      else let run' = record run {
        status = cancelled;
        pending_tool_call_id = none;
        pending_step_id = none;
        updated_at = updated_at;
      } in
        let r' = record r { runs = insert run_id run' r.runs } in
        let (stored, r'') =
          push_event run_id
            (record event { run_id = run'.id; conversation_id = run'.conversation_id }) r' in
        (ok (run', some stored), r'')

  unfoldable pub cancel_run :
      String → Time → Event → Action MemoryRepository Error (AgentRun × Option Event)
  unfolding cancel_found
  cancel_run run_id updated_at event r =
      cancel_found (lookup run_id r.runs) run_id updated_at event r

  append_to : Option AgentRun → Event → Action MemoryRepository Error Event
  append_to none event r = (err run_not_found, r)
  append_to (some run) event r =
      if is_cancelled run.status
      then (err run_is_cancelled, r)
      else let (stored, r') = push_event event.run_id event r in (ok stored, r')

  unfoldable pub append_event : Event → Action MemoryRepository Error Event
  unfolding append_to
  append_event event r = append_to (lookup event.run_id r.runs) event r

-- `r.events[runID][seq-1]`, where the guard leaves 1 <= seq <= len
event_at : List Event → ℤ → Result Error Event
event_at events (pos (suc n)) = elim (get_elem? events n) [
  | some event ↦ ok event
  | none ↦ err event_not_found
]
event_at events _ = err event_not_found

get_event_of : Option AgentRun → List Event → ℤ → Result Error Event
unfolding event_at
get_event_of none events seq = err run_not_found
get_event_of (some run) events seq =
    if below seq 1 || int_gt_nat seq (length events)
    then err event_not_found
    else event_at events seq

unfoldable pub get_event : String → ℤ → Action MemoryRepository Error Event
unfolding get_event_of log
get_event run_id seq r = (get_event_of (lookup run_id r.runs) (log run_id r) seq, r)

-- the loop of ListEvents
unfoldable pub events_after : ℤ → List Event → List Event
events_after after_seq [] = []
events_after after_seq (event ∷ source) =
    let result = events_after after_seq source in
    if nat_le_int event.seq after_seq then result else event ∷ result

list_events_of : Option AgentRun → List Event → ℤ → Result Error (List Event)
list_events_of none events after_seq = err run_not_found
list_events_of (some run) events after_seq = ok (events_after after_seq events)

unfoldable pub list_events : String → ℤ → Action MemoryRepository Error (List Event)
unfolding list_events_of events_after log
list_events run_id after_seq r = (list_events_of (lookup run_id r.runs) (log run_id r) after_seq, r)
