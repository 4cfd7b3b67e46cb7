-- ===== src/Harness/Turn/Replies.antt =====
-- The replies to the calls of a response (continueRun of internal/harness/harness.go): the messages of
-- the tools in the transcript, and what the parts of a method add to them.
pub mod Calls
use ai_web_testing.Prelude.{
  ℕ, String, Bool, true, false, not, ◌≡◌, ◌≢◌, refl, ◌∙◌, ap, sym, Option, none, some, List, [],
  ◌∷◌, ◌++◌, map, if◌then◌else◌, ◌==◌, Bool-cases, inl, inr, Dict, ℤ, Result, ok, err, Action,
  return, fail, proceed, Keeps, Keeps-lift, Keeps-return, Keeps-fail, Keeps-if, Keeps-bind,
  Keeps-attempt, Keeps-relabelled, ◌>>=◌, ◌>>◌, arith,
}
use ai_web_testing.AgentService.Types.{AgentRun, Message, ModelTool}
use ai_web_testing.TaskPlan.Types as Plans
use ai_web_testing.TaskPlan.Types.{Plan}
use ai_web_testing.Tools.{Artifact, Failure, ToolResult}
use ai_web_testing.Tools as Tools
use ai_web_testing.Agent.Types.{is_exploration_tool}
use ai_web_testing.Harness.Policy.{PolicyError, before_tool_call}
use ai_web_testing.Harness.State.{
  Turn, TurnAction, Setup, Cause, Error, failure_not_encoded, tool_failed, generation_id_invalid,
  get_run, set_run,
}
use ai_web_testing.Harness.Records as Records
use ai_web_testing.Harness.Records.{
  tool_message, append_message, save, find_plan, with_message, record_recoverable_tool_failure,
  generation_handoff_message,
}
use ai_web_testing.Harness.Trace.{ToolTraceIdentity}
use ai_web_testing.Harness.Turn.{
  trace, refuse_call, execute_tool, is_canceled, after_failure, after_pending, keep_generation,
  accept_artifact, answer_call, after_result, after_success, after_execution, after_policy,
  policy_plan, after_authorization, handle_call, handle_calls, hand_off, compact_if_set,
}
use ai_web_testing.Harness.Turn.Frames.{
  IgnoresRuns, IgnoresServices, Keeps-on_runs, Keeps-get_run, Keeps-find_plan,
  Keeps-new_tool_trace_identity, Keeps-record_tool_start, Keeps-trace, Keeps-on_plans,
  Keeps-on_active_runs, Keeps-record_tool_failure, Keeps-record_tool_result, Keeps-pipeline_lineage,
}
use ai_web_testing.Harness.Turn.Steps.{
  save-Keeps, Keeps-state_if_planned, Keeps-claim_ready_plan, Keeps-task_plan_summary,
  Keeps-needed_plan, Keeps-or_fail,
}

-- the ids of the calls that the messages answer
abbrev pub reply_ids : List Message → List String
reply_ids [] = []
reply_ids (message ∷ transcript) =
    let rest = reply_ids transcript in
    if message.role == "tool" then message.tool_call_id ∷ rest else rest

append_nil : {A : Type 0} (xs : List A) → xs ++ [] ≡ xs
append_nil [] = refl
append_nil (x ∷ xs) = ap (λ ys. x ∷ ys) (append_nil xs)

append_assoc : {A : Type 0} (xs ys zs : List A) → (xs ++ ys) ++ zs ≡ xs ++ (ys ++ zs)
append_assoc [] ys zs = refl
append_assoc (x ∷ xs) ys zs = ap (λ rest. x ∷ rest) (append_assoc xs ys zs)

reply_ids-append :
    (transcript later : List Message)
    → reply_ids (transcript ++ later) ≡ reply_ids transcript ++ reply_ids later
reply_ids-append [] later = refl
reply_ids-append (message ∷ transcript) later = elim (Bool-cases (message.role == "tool")) [
  | inl p ↦ rw p (ap (λ rest. message.tool_call_id ∷ rest) (reply_ids-append transcript later))
  | inr p ↦ rw p (reply_ids-append transcript later)
]

abbrev always : {A : Type 0} → A → Bool
always a = true

module _ {W : Type 0} where
  abbrev pub replies : Turn W → List String
  replies t = reply_ids t.run.transcript

  -- When the method returns a value that passes `goes_on`, it has added the replies.
  record Adds {A : Type 0} (ids : List String) (goes_on : A → Bool) (m : TurnAction W A)
      : Type 0 where
    pub at :
        (t : Turn W) (a : A)
        → (m t).0 ≡ ok a
        → goes_on a ≡ true
        → replies (m t).1 ≡ replies t ++ ids

  -- `P` says what the replies are.
  abbrev HasReplies : List String → Turn W → Type 0
  HasReplies ids t = replies t ≡ ids

  has_replies : (ids : List String) → IgnoresServices (HasReplies ids)
  has_replies ids = record {
    runs = record { runs = λ t runs before. before };
    plans = λ t plans before. before;
    active = λ t active_runs before. before;
  }

  -- what keeps the replies adds none
  quiet :
      {A : Type 0} (m : TurnAction W A)
      → ((ids : List String) → Keeps (HasReplies ids) m)
      → Adds [] always m
  quiet m kept = record {
    at = λ t a done passed. (kept (replies t)).at t refl ∙ sym (append_nil (replies t));
  }

  Adds-return : {A : Type 0} (g : A → Bool) (a : A) → Adds [] g (return a)
  Adds-return g a = record { at = λ t b done passed. sym (append_nil (replies t)) }

  Adds-stop : (ids : List String) → Adds ids (λ again. again) (return false)
  Adds-stop ids = record { at = λ t b done passed. absurd (ground (arith, done, passed)) }

  Adds-fail : {A : Type 0} (ids : List String) (g : A → Bool) (e : Error) → Adds ids g (fail e)
  Adds-fail ids g e = record { at = λ t b done passed. cc }

  -- The method never lets the loop go on.
  record Ends (m : TurnAction W Bool) : Type 0 where
    pub at : (t : Turn W) → (m t).0 ≢ ok true

  Ends-return : Ends (return false)
  Ends-return = record { at = λ t h. cc h }

  ended_after :
      {A : Type 0} (rest : A → TurnAction W Bool)
      → ((a : A) → Ends (rest a))
      → (r : Result Error A) (t : Turn W) → (proceed rest r t).0 ≢ ok true
  ended_after rest ends (ok a) t = (ends a).at t
  ended_after rest ends (err e) t = λ h. cc h

  Ends-bind :
      {A : Type 0} (m : TurnAction W A) (rest : A → TurnAction W Bool)
      → ((a : A) → Ends (rest a))
      → Ends (m >>= rest)
  unfolding ◌>>=◌
  Ends-bind m rest ends = record { at = λ t. ended_after rest ends (m t).0 (m t).1 }

  Adds-ended : (ids : List String) (m : TurnAction W Bool) → Ends m → Adds ids (λ again. again) m
  Adds-ended ids m ends = record {
    at = λ t b done passed. absurd (ends.at t (done ∙ ap ok passed));
  }

  joined :
      {A B : Type 0} (g : B → Bool) (first ids : List String) (rest : A → TurnAction W B)
      (h : A → Bool) (r : Result Error A) (t : Turn W) (before : List String)
      → ((a : A) → r ≡ ok a → Adds ids g (rest a))
      → ((a : A) → r ≡ ok a → replies t ≡ before ++ first)
      → (b : B) → (proceed rest r t).0 ≡ ok b
      → g b ≡ true
      → replies (proceed rest r t).1 ≡ (before ++ first) ++ ids
  joined g first ids rest h (err e) t before later now b done passed = cc
  joined g first ids rest h (ok a) t before later now b done passed =
      (later a refl).at t b done passed ∙ ap (λ start. start ++ ids) (now a refl)

  Adds-bind :
      {A B : Type 0} {g : B → Bool} (first ids : List String) (m : TurnAction W A)
      (rest : A → TurnAction W B)
      → Adds first always m
      → ((a : A) → Adds ids g (rest a))
      → Adds (first ++ ids) g (m >>= rest)
  unfolding ◌>>=◌
  Adds-bind {A} {B} {g} first ids m rest begun later = record {
    at = λ t b done passed.
        joined g first ids rest always (m t).0 (m t).1 (replies t) (λ a _. later a)
          (λ a ran. begun.at t a ran refl) b done passed
        ∙ append_assoc (replies t) first ids;
  }

  -- The replies come last, or first.
  Adds-then :
      {A B : Type 0} {g : B → Bool} (ids : List String) (m : TurnAction W A)
      (rest : A → TurnAction W B)
      → ((before : List String) → Keeps (HasReplies before) m)
      → ((a : A) → Adds ids g (rest a))
      → Adds ids g (m >>= rest)
  Adds-then ids m rest kept later = Adds-bind [] ids m rest (quiet m kept) later

  Adds-first :
      {A B : Type 0} {g : B → Bool} (ids : List String) (m : TurnAction W A)
      (rest : A → TurnAction W B)
      → Adds ids always m
      → ((a : A) → Adds [] g (rest a))
      → Adds ids g (m >>= rest)
  Adds-first ids m rest begun later =
      rw (sym (append_nil ids)) (Adds-bind ids [] m rest begun later)

  abbrev go_on : TurnAction W Bool → Bool → TurnAction W Bool
  go_on rest again = if again then rest else return false

  after_round :
      (first ids : List String) (rest : TurnAction W Bool)
      → Adds ids (λ again. again) rest
      → (r : Result Error Bool) (t : Turn W) (before : List String)
      → (r ≡ ok true → replies t ≡ before ++ first)
      → (b : Bool) → (proceed (go_on rest) r t).0 ≡ ok b
      → b ≡ true
      → replies (proceed (go_on rest) r t).1 ≡ before ++ (first ++ ids)
  after_round first ids rest later (err e) t before now b done passed = cc
  after_round first ids rest later (ok false) t before now b done passed =
      absurd (ground (arith, done, passed))
  after_round first ids rest later (ok true) t before now b done passed =
      later.at t b done passed
      ∙ ap (λ start. start ++ ids) (now refl)
      ∙ append_assoc before first ids

  -- one round of a loop, and the others
  Adds-round :
      (first ids : List String) (m rest : TurnAction W Bool)
      → Adds first (λ again. again) m
      → Adds ids (λ again. again) rest
      → Adds (first ++ ids) (λ again. again) (m >>= go_on rest)
  unfolding ◌>>=◌
  Adds-round first ids m rest begun later = record {
    at = λ t b done passed.
        after_round first ids rest later (m t).0 (m t).1 (replies t)
          (λ ran. begun.at t true ran refl) b done passed;
  }
