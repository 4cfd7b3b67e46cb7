-- ===== src/AgentService/Memory/Log.antt =====
-- The event log of a run (internal/agentservice/memory_repository.go): how it is numbered, and that
-- reading it by sequence number finds every event.
use native.Mathlib.Nat.{zero-add}
use ai_web_testing.Prelude.{
  ℕ, zero, suc, ◌+◌, ◌<◌, String, ◌≡◌, refl, ◌∙◌, true, false, Option, none, some, Bool-cases, List,
  [], ◌∷◌, ◌++◌, inl, inr, ◌⊎◌, length, get_elem?, drop, if◌then◌else◌, if-state, eq_refl, not,
  ◌&&◌, ◌==◌, eq_iff, lookup, insert, lookup-insert, pos, ok, Keeps, arith,
}
use ai_web_testing.AgentService.Types.{
  Time, is_running, is_waiting_user, is_cancelled, cancelled, AgentRun, Event,
}
use ai_web_testing.AgentService.Memory.{
  MemoryRepository, Codec, log, create_run, save_over, append_to, cancel_found, save_run,
  normalize_event, push_event, cancel_run, append_event, get_event, list_events_of, events_after,
  list_events,
}

-- The events of a log belong to its run and are numbered in order, the first by `n`.
abbrev pub Numbered : String → ℕ → List Event → Type 0
Numbered run_id n [] = Unit
Numbered run_id n (e ∷ es) = (e.run_id ≡ run_id) × (e.seq ≡ n) × Numbered run_id (suc n) es

-- Every run stands under its own id, every log is numbered from 1, and only runs have a log.
pub record IsWellFormed (r : MemoryRepository) : Type 0 where
  pub keyed : (k : String) (run : AgentRun) → lookup k r.runs ≡ some run → run.id ≡ k
  pub numbered : (k : String) → Numbered k 1 (log k r)
  pub owned : (k : String) → lookup k r.runs ≡ none → log k r ≡ []

Numbered-snoc :
    (k : String) (n : ℕ) (es : List Event) (e : Event)
    → Numbered k n es
    → e.run_id ≡ k
    → e.seq ≡ n + length es
    → Numbered k n (es ++ e ∷ [])
Numbered-snoc k n [] e h p q = (p, omega arith, tt)
Numbered-snoc k n (x ∷ es) e h p q = (h.0, h.1, Numbered-snoc k (suc n) es e h.2 p (omega arith))

-- Nothing of a log that is numbered past `m` is left out.
events_after-all :
    (k : String) (m n : ℕ) (es : List Event)
    → m < n
    → Numbered k n es
    → events_after (pos m) es ≡ es
unfolding events_after
events_after-all k m n [] lt h = refl
events_after-all k m n (e ∷ es) lt h = ground (arith, events_after-all k m (suc n) es)

-- A log numbered from n + 1 read after n + j is the log without its first j events.
events_after-drop :
    (k : String) (n j : ℕ) (es : List Event)
    → Numbered k (suc n) es
    → events_after (pos (n + j)) es ≡ drop j es
unfolding events_after
events_after-drop k n zero es h = events_after-all k (n + 0) (suc n) es (omega arith) h
events_after-drop k n (suc j) [] h = refl
events_after-drop k n (suc j) (e ∷ es) h =
    let e' : suc n + j ≡ n + suc j = omega arith in ground (arith, events_after-drop k (suc n) j es)

get_elem?-Numbered :
    (k : String) (n i : ℕ) (es : List Event) (e : Event)
    → Numbered k n es
    → get_elem? es i ≡ some e
    → (e.run_id ≡ k) × (e.seq ≡ n + i)
get_elem?-Numbered k n i [] e h p = cc
get_elem?-Numbered k n zero (x ∷ es) e h p = ground arith
get_elem?-Numbered k n (suc i) (x ∷ es) e h p =
    ground (arith, get_elem?-Numbered k (suc n) i es e h.2 p)

get_elem?-some :
    {A : Type 0} (xs : List A) (i : ℕ) → i < length xs → (x : A) × (get_elem? xs i ≡ some x)
get_elem?-some [] i h = absurd (omega arith)
get_elem?-some (x ∷ xs) zero h = (x, refl)
get_elem?-some (x ∷ xs) (suc i) h = get_elem?-some xs i (omega arith)

module _ (codec : Codec) where
  -- Normalising keeps all but the payload.
  normalize_event_keeps :
      (e : Event)
      → ((normalize_event codec e).seq ≡ e.seq) × ((normalize_event codec e).run_id ≡ e.run_id)
  unfolding normalize_event
  normalize_event_keeps e = ground arith

  pub log-push_event :
      (k j : String) (e : Event) (r : MemoryRepository)
      → log j (push_event codec k e r).1
        ≡ (if k == j then log k r ++ (push_event codec k e r).0 ∷ [] else log j r)
  unfolding push_event log
  log-push_event k j e r =
      ground
        (arith, eq_iff k j, lookup-insert k j (log k r ++ (push_event codec k e r).0 ∷ []) r.events)

  -- What is stored is numbered by the length of the log.
  stored_facts :
      (k : String) (e : Event) (r : MemoryRepository)
      → let stored = (push_event codec k e r).0 in
        (stored.seq ≡ length (log k r) + 1) × (stored.run_id ≡ e.run_id)
  unfolding push_event
  stored_facts k e r = normalize_event_keeps (record e { seq = length (log k r) + 1 })

  push_event-IsWellFormed :
      (k : String) (e : Event) (run : AgentRun) (r : MemoryRepository)
      → IsWellFormed r
      → lookup k r.runs ≡ some run
      → e.run_id ≡ k
      → IsWellFormed (push_event codec k e r).1
  unfolding push_event
  push_event-IsWellFormed k e run r h found same = record {
    keyed = h.keyed;
    numbered = λ j. rw (log-push_event k j e r) (numbered_at j (Bool-cases (k == j)));
    owned = λ j missing. ground (arith, log-push_event k j e r, eq_iff k j, h.owned j missing);
  }
    where
      numbered_at :
          (j : String)
          → ((k == j) ≡ true) ⊎ ((k == j) ≡ false)
          → Numbered j 1 (if k == j then log k r ++ (push_event codec k e r).0 ∷ [] else log j r)
      numbered_at j (inl p) =
          let q = (eq_iff k j).0 p in
          rw p (
            Numbered-snoc j 1 (log k r) (push_event codec k e r).0 (rw q (h.numbered j))
              ((stored_facts k e r).1 ∙ same ∙ q) (omega (arith, stored_facts k e r)))
      numbered_at j (inr p) = rw p (h.numbered j)

put_run-IsWellFormed :
    (k : String) (run : AgentRun) (r : MemoryRepository)
    → IsWellFormed r
    → run.id ≡ k
    → IsWellFormed (record r { runs = insert k run r.runs })
unfolding log
put_run-IsWellFormed k run r h named = record {
  keyed = λ j other p. ground (arith, lookup-insert k j run r.runs, eq_iff k j, h.keyed j other);
  numbered = h.numbered;
  owned = λ j missing. ground (arith, lookup-insert k j run r.runs, eq_iff k j, h.owned j);
}

module _ (codec : Codec) where
  pub create_run-IsWellFormed : (run : AgentRun) → Keeps IsWellFormed (create_run run)
  unfolding create_run
  create_run-IsWellFormed run = record { at = λ r h. put_run-IsWellFormed run.id run r h refl }

  save_over-IsWellFormed :
      (o : Option AgentRun) (run : AgentRun) (r : MemoryRepository)
      → IsWellFormed r
      → IsWellFormed (save_over o run r).1
  unfolding save_over
  save_over-IsWellFormed none run r h = h
  save_over-IsWellFormed (some current) run r h =
      if-state IsWellFormed (is_cancelled current.status) _ _ (λ e. h)
        (λ e. put_run-IsWellFormed run.id run r h refl)

  pub save_run-IsWellFormed : (run : AgentRun) → Keeps IsWellFormed (save_run run)
  unfolding save_run
  save_run-IsWellFormed run = record {
    at = λ r h. save_over-IsWellFormed (lookup run.id r.runs) run r h;
  }

  append_to-IsWellFormed :
      (o : Option AgentRun) (e : Event) (r : MemoryRepository)
      → lookup e.run_id r.runs ≡ o
      → IsWellFormed r
      → IsWellFormed (append_to codec o e r).1
  unfolding append_to
  append_to-IsWellFormed none e r found h = h
  append_to-IsWellFormed (some run) e r found h =
      if-state IsWellFormed (is_cancelled run.status) _ _ (λ q. h)
        (λ q. push_event-IsWellFormed codec e.run_id e run r h found refl)

  pub append_event-IsWellFormed : (e : Event) → Keeps IsWellFormed (append_event codec e)
  unfolding append_event
  append_event-IsWellFormed e = record {
    at = λ r h. append_to-IsWellFormed (lookup e.run_id r.runs) e r refl h;
  }

  cancel_found-IsWellFormed :
      (o : Option AgentRun) (run_id : String) (t : Time) (e : Event) (r : MemoryRepository)
      → lookup run_id r.runs ≡ o
      → IsWellFormed r
      → IsWellFormed (cancel_found codec o run_id t e r).1
  unfolding cancel_found
  cancel_found-IsWellFormed none run_id t e r found h = h
  cancel_found-IsWellFormed (some run) run_id t e r found h =
      let named = h.keyed run_id run found in
      let stopped : AgentRun = record run {
        status = cancelled;
        pending_tool_call_id = none;
        pending_step_id = none;
        updated_at = t;
      } in
      let r' : MemoryRepository = record r { runs = insert run_id stopped r.runs } in
      if-state IsWellFormed (not (is_running run.status) && not (is_waiting_user run.status)) _ _
        (λ q. h)
        λ q.
          push_event-IsWellFormed codec run_id
            (record e { run_id = run.id; conversation_id = run.conversation_id }) stopped r'
            (put_run-IsWellFormed run_id stopped r h named) (rw lookup-insert (rw (eq_refl run_id)))
            named

  pub cancel_run-IsWellFormed :
      (run_id : String) (t : Time) (e : Event) → Keeps IsWellFormed (cancel_run codec run_id t e)
  unfolding cancel_run
  cancel_run-IsWellFormed run_id t e = record {
    at = λ r h. cancel_found-IsWellFormed (lookup run_id r.runs) run_id t e r refl h;
  }

-- ListEvents: of a run that exists it returns the log without its first `n` events, so a reader that
-- asks for what comes after the last sequence number it saw misses nothing and sees nothing twice.
pub list_events-drop :
    (r : MemoryRepository) (run_id : String) (n : ℕ) (run : AgentRun)
    → IsWellFormed r
    → lookup run_id r.runs ≡ some run
    → list_events run_id (pos n) r ≡ (ok (drop n (log run_id r)), r)
unfolding list_events
list_events-drop r run_id n run h found =
    rw (found, list_events_of)
      (let shifted : events_after (pos n) (log run_id r) ≡ drop n (log run_id r) =
          rw zero-add at (events_after-drop run_id 0 n (log run_id r) (h.numbered run_id)) in
        rw shifted)

-- GetEvent: for each sequence number from 1 to the length of the log it returns an event of that run
-- with that number.
pub get_event-seq :
    (r : MemoryRepository) (run_id : String) (n : ℕ) (run : AgentRun)
    → IsWellFormed r
    → lookup run_id r.runs ≡ some run
    → n < length (log run_id r)
    → (e : Event) × (get_event run_id (pos (suc n)) r ≡ (ok e, r))
      × (e.run_id ≡ run_id)
      × (e.seq ≡ suc n)
unfolding get_event
get_event-seq r run_id n run h found lt =
    let (e, at) = get_elem?-some (log run_id r) n lt in
    let (own, seq) = get_elem?-Numbered run_id 1 n (log run_id r) e (h.numbered run_id) at in
    (e, ground arith, own, omega arith)
