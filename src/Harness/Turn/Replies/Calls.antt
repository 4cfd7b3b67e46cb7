-- ===== src/Harness/Turn/Replies/Calls.antt =====
-- The replies that each step of the handler (continueRun of internal/harness/harness.go) adds.
use ai_web_testing.Prelude.{
  String, true, false, ◌≡◌, refl, ◌∙◌, Option, none, some, List, [], ◌∷◌, ◌++◌, map, ◌==◌,
  Bool-cases, inl, inr, ℤ, Result, ok, err, Keeps, Keeps-lift, Keeps-return, Keeps-fail, Keeps-if,
  Keeps-bind, Keeps-attempt, Keeps-relabelled, ◌>>=◌,
}
use ai_web_testing.AgentService.Types.{AgentRun, ModelTool}
use ai_web_testing.TaskPlan.Types as Plans
use ai_web_testing.TaskPlan.Types.{Plan}
use ai_web_testing.Tools.{Artifact, Failure, ToolResult}
use ai_web_testing.Tools as Tools
use ai_web_testing.Agent.Types.{is_exploration_tool}
use ai_web_testing.Harness.Policy.{PolicyError, before_tool_call}
use ai_web_testing.Harness.State.{
  Turn, TurnAction, Setup, Cause, Error, failure_not_encoded, tool_failed, generation_id_invalid,
  get_run, set_run,
}
use ai_web_testing.Harness.Records as Records
use ai_web_testing.Harness.Records.{
  tool_message, append_message, save, find_plan, with_message, record_recoverable_tool_failure,
  generation_handoff_message,
}
use ai_web_testing.Harness.Trace.{ToolTraceIdentity}
use ai_web_testing.Harness.Turn.{
  trace, refuse_call, execute_tool, is_canceled, after_failure, after_pending, keep_generation,
  accept_artifact, answer_call, after_result, after_success, after_execution, after_policy,
  policy_plan, after_authorization, handle_call, handle_calls, hand_off, compact_if_set,
}
use ai_web_testing.Harness.Turn.Frames.{
  Keeps-on_runs, Keeps-get_run, Keeps-find_plan, Keeps-new_tool_trace_identity,
  Keeps-record_tool_start, Keeps-trace, Keeps-on_plans, Keeps-on_active_runs,
  Keeps-record_tool_failure, Keeps-record_tool_result, Keeps-pipeline_lineage,
}
use ai_web_testing.Harness.Turn.Steps.{
  save-Keeps, Keeps-state_if_planned, Keeps-claim_ready_plan, Keeps-task_plan_summary,
  Keeps-needed_plan,
}
use ai_web_testing.Harness.Turn.Replies.{
  reply_ids, reply_ids-append, always, replies, Adds, HasReplies, has_replies, quiet, Adds-return,
  Adds-fail, Ends-return, Ends-bind, Adds-ended, Adds-bind, Adds-then, Adds-first, Adds-round,
}

module _ {W : Type 0} (setup : Setup W) where
  abbrev AddsOne : String → TurnAction W (Unit {0}) → Type 0
  AddsOne id = Adds (id ∷ []) always

  reply_added : (content id : String) → AddsOne id (append_message setup (tool_message content id))
  unfolding append_message ◌>>=◌ get_run set_run
  reply_added content id = record {
    at = λ t a done passed. reply_ids-append t.run.transcript (tool_message content id ∷ []);
  }

  handoff-Adds :
      (plan : Plan) → Adds [] always (append_message setup (generation_handoff_message setup plan))
  unfolding append_message ◌>>=◌ get_run set_run generation_handoff_message
  handoff-Adds plan = record {
    at = λ t a done passed.
        reply_ids-append t.run.transcript (generation_handoff_message setup plan ∷ []);
  }

  hand_off-Adds : (plan : Option Plan) → Adds [] always (hand_off setup plan)
  hand_off-Adds none = Adds-return always tt
  hand_off-Adds (some plan) = handoff-Adds plan

  module _ (step_id : String) (call : ModelTool) (identity : ToolTraceIdentity) where
    traced :
        (identity' : ToolTraceIdentity) (status reason : String) (ids : List String)
        → Keeps (HasReplies ids) (trace setup step_id call identity' status reason)
    traced identity' status reason ids =
        Keeps-trace (has_replies ids).runs setup step_id call identity' status reason

    recoverable-Adds :
        (cause : Cause) → AddsOne call.id (record_recoverable_tool_failure setup step_id call cause)
    unfolding record_recoverable_tool_failure
    recoverable-Adds cause =
        Adds-then _ _ _
          (λ ids. Keeps-record_tool_failure (has_replies ids) setup step_id call cause)
          (λ _.
            Adds-then _ _ _ (λ ids. encoded_kept ids _)
              (λ content. Adds-first _ _ _ (reply_added content call.id) (λ _.
                Adds-then _ _ _ (λ ids. Keeps-get_run (has_replies ids).runs)
                  (λ run.
                    quiet _
                      (λ ids. Keeps-relabelled _ _ (Keeps-on_runs (has_replies ids).runs _))))))
      where
        encoded_kept :
            (ids : List String) (found : Option String)
            → Keeps (HasReplies ids) (Records.or_fail setup failure_not_encoded found)
        encoded_kept ids none = Keeps-fail _
        encoded_kept ids (some content) = Keeps-return content

    refused-Adds :
        (status reason : String) (cause : Cause)
        → Adds
            (call.id ∷ [])
            (λ again. again)
            (refuse_call setup step_id call identity status reason cause)
    unfolding refuse_call
    refused-Adds status reason cause =
        Adds-then _ _ _ (traced identity status reason)
          (λ _. Adds-first _ _ _ (recoverable-Adds cause) (λ _. Adds-return _ true))

    failed-Adds :
        (failure : Failure)
        → Adds (call.id ∷ []) (λ again. again) (after_failure setup step_id call identity failure)
    unfolding after_failure
    failed-Adds failure = elim (Bool-cases (is_canceled failure)) [
      | inl p ↦ rw p (Adds-fail (call.id ∷ []) _ _)
      | inr p ↦ rw p (
          Adds-then _ _ _ (traced identity "failed" "tool_execution_failed") (λ _.
            Adds-then _ _ _ (λ ids. Keeps-get_run (has_replies ids).runs)
              (λ run.
                Adds-then _ _ _ (λ ids. Keeps-on_plans (has_replies ids) _)
                  (λ recorded.
                    Adds-then _ _ _
                      (λ ids. Keeps-state_if_planned (has_replies ids) setup step_id call recorded)
                      (λ _.
                        Adds-first _ _ _ (recoverable-Adds (tool_failed failure))
                          (λ _. Adds-return _ true))))))
    ]

    pending-Adds :
        (pending : Tools.Pending)
        → Adds (call.id ∷ []) (λ again. again) (after_pending setup step_id call identity pending)
    unfolding after_pending
    pending-Adds pending = Adds-ended _ _ (
        Ends-bind _ _ (λ _. Ends-bind _ _ (λ questions.
          Ends-bind _ _ (λ _. Ends-bind _ _ (λ run. Ends-bind _ _ (λ _. Ends-return))))))

    -- the artifact changes the generations of the run only
    kept_run :
        (ids : List String) (change : AgentRun → AgentRun)
        → ((run : AgentRun) → reply_ids (change run).transcript ≡ reply_ids run.transcript)
        → Keeps (HasReplies {W = W} ids) (get_run >>= λ run. set_run {E = Error} (change run))
    unfolding ◌>>=◌ get_run set_run
    kept_run ids change same = record { at = λ t before. same t.run ∙ before }

    kept_generation :
        (ids : List String) (text : String) (id : Option ℤ)
        → Keeps (HasReplies ids) (keep_generation setup step_id call text id)
    kept_generation ids text none =
        Keeps-bind _ _
          (Keeps-attempt _ (
            Keeps-record_tool_failure (has_replies ids) setup step_id call
              (generation_id_invalid text)))
          (λ _. Keeps-fail _)
    kept_generation ids text (some id) = kept_run ids _ (λ run. refl)

    kept_artifact :
        (ids : List String) (artifact : Option Artifact)
        → Keeps (HasReplies ids) (accept_artifact setup step_id call artifact)
    unfolding accept_artifact
    kept_artifact ids none = Keeps-return tt
    kept_artifact ids (some artifact) =
        Keeps-if (artifact.kind == "dsl_generation") _ _
          (λ _.
            Keeps-if (artifact.kind == "task_plan") _ _ (λ _. Keeps-return tt)
              (λ _. kept_run ids _ (λ run. refl)))
          (λ _. kept_generation ids artifact.id (setup.parse_int artifact.id))

    answered-Adds :
        (result : ToolResult) → Adds (call.id ∷ []) always (answer_call setup step_id call result)
    unfolding answer_call
    answered-Adds result =
        Adds-then _ _ _ (λ ids. kept_artifact ids result.artifact)
          (λ _.
            Adds-then _ _ _
              (λ ids. Keeps-record_tool_result (has_replies ids) setup step_id call result)
              (λ seq.
                Adds-then _ _ _ (λ ids. Keeps-get_run (has_replies ids).runs)
                  (λ run.
                    Adds-then _ _ _ (λ ids. Keeps-on_plans (has_replies ids) _)
                      (λ advanced.
                        Adds-then _ _ _
                          (λ ids.
                            Keeps-state_if_planned (has_replies ids) setup step_id call advanced)
                          (λ _.
                            Adds-then _ _ _ (λ ids. Keeps-claim_ready_plan (has_replies ids) setup)
                              (λ ready_plan.
                                Adds-then _ _ _
                                  (λ ids. Keeps-task_plan_summary (has_replies ids) setup call)
                                  (λ summary.
                                    Adds-then _ _ _ (λ ids. Keeps-lift _)
                                      (λ content.
                                        Adds-first _ _ _ (reply_added content call.id)
                                          (λ _. Adds-return always ready_plan)))))))))

    module _ (uncompacted : setup.per_turn_transcript_compaction ≡ false) where
      kept_uncompacted : (ids : List String) → Keeps (HasReplies ids) (compact_if_set setup)
      unfolding ◌>>=◌ get_run set_run
      kept_uncompacted ids = record { at = λ t before. rw uncompacted before }

      result-Adds :
          (result : ToolResult)
          → Adds (call.id ∷ []) (λ again. again) (after_result setup step_id call identity result)
      unfolding after_result
      result-Adds result = Adds-first _ _ _ (answered-Adds result) (λ ready_plan.
          Adds-then _ _ _ kept_uncompacted (λ _.
            Adds-bind [] [] _ _ (hand_off-Adds ready_plan) (λ _.
              Adds-then _ _ _ (λ ids. save-Keeps (has_replies ids) setup)
                (λ _.
                  Adds-then _ _ _
                    (λ ids.
                      Keeps-bind _ _ (Keeps-get_run (has_replies ids).runs)
                        (λ run. Keeps-on_active_runs (has_replies ids) _))
                    (λ _.
                      Adds-then _ _ _ (λ ids. Keeps-pipeline_lineage (has_replies ids) setup _ _ _)
                        (λ lineage.
                          Adds-then _ _ _ (traced _ "succeeded" "") (λ _. Adds-return _ true)))))))

      executed-Adds :
          (r : Result Failure ToolResult)
          → Adds (call.id ∷ []) (λ again. again) (after_execution setup step_id call identity r)
      executed-Adds (err failure) = failed-Adds failure
      executed-Adds (ok result) = by_pending result.pending
        where
          by_pending :
              (pending : Option Tools.Pending)
              → Adds
                  (call.id ∷ [])
                  (λ again. again)
                  (after_success setup step_id call identity result pending)
          by_pending none = result-Adds result
          by_pending (some pending) = pending-Adds pending

      judged-Adds :
          (refusal : Option PolicyError)
          → Adds (call.id ∷ []) (λ again. again) (after_policy setup step_id call identity refusal)
      unfolding after_policy
      judged-Adds (some refusal) = refused-Adds _ _ _
      judged-Adds none = Adds-then _ _ _ (traced identity "authorized" "") (λ _.
          Adds-then _ _ _ (traced identity "running" "")
            (λ _. Adds-then _ _ _ kept_by_execution executed-Adds))
        where
          kept_by_execution : (ids : List String) → Keeps (HasReplies ids) (execute_tool setup call)
          kept_by_execution ids = unfold execute_tool in record { at = λ t before. before }

      kept_policy_plan : (ids : List String) → Keeps (HasReplies ids) (policy_plan setup call)
      kept_policy_plan ids =
          Keeps-if (is_exploration_tool call.name) _ _ (λ _. Keeps-return none)
            (λ _. Keeps-needed_plan (has_replies ids) setup)

      allowed-Adds :
          Adds
            (call.id ∷ [])
            (λ again. again)
            (do
              plan ← policy_plan setup call
              run ← get_run
              after_policy setup step_id call identity
                  (before_tool_call setup.environment setup.exploration run call plan))
      allowed-Adds = Adds-then _ _ _ kept_policy_plan (λ plan.
          Adds-then _ _ _ (λ ids. Keeps-get_run (has_replies ids).runs) (λ run. judged-Adds _))

      authorized-Adds :
          (answer : Option (Result Plans.Error (Unit {0})))
          → Adds
              (call.id ∷ [])
              (λ again. again)
              (after_authorization setup step_id call identity answer)
      unfolding after_authorization
      authorized-Adds (some (err e)) = refused-Adds _ _ _
      authorized-Adds (some (ok done)) = allowed-Adds
      authorized-Adds none = allowed-Adds

  module _ (uncompacted : setup.per_turn_transcript_compaction ≡ false) where
    handled-Adds :
        (call : ModelTool) → Adds (call.id ∷ []) (λ again. again) (handle_call setup call)
    unfolding handle_call
    handled-Adds call =
        Adds-then _ _ _ (λ ids. Keeps-on_runs (has_replies ids).runs _)
          (λ step_id.
            Adds-then _ _ _ (λ ids. Keeps-find_plan (has_replies ids) setup)
              (λ trace_plan.
                Adds-then _ _ _
                  (λ ids.
                    Keeps-new_tool_trace_identity (has_replies ids).runs setup call trace_plan)
                  (λ identity.
                    Adds-then _ _ _ (traced step_id call identity identity "proposed" "") (λ _.
                      Adds-then _ _ _
                        (λ ids. Keeps-record_tool_start (has_replies ids).runs setup step_id call)
                        (λ _.
                          Adds-then _ _ _ (λ ids. Keeps-get_run (has_replies ids).runs)
                            (λ run.
                              Adds-then _ _ _ (λ ids. Keeps-on_plans (has_replies ids) _)
                                (λ answer.
                                  authorized-Adds step_id call identity uncompacted answer)))))))

    calls-Adds :
        (calls : List ModelTool)
        → Adds (map (λ call. call.id) calls) (λ again. again) (handle_calls setup calls)
    unfolding handle_calls
    calls-Adds [] = Adds-return _ true
    calls-Adds (call ∷ calls) =
        Adds-round (call.id ∷ []) _ _ _ (handled-Adds call) (calls-Adds calls)

    -- Without compaction of the transcript: when the handler lets the loop go on after the calls of a
    -- response, the transcript has got exactly one tool message for each call, in the order of the
    -- calls, whether a call was refused, failed or succeeded.
    pub handle_calls-replies :
        (calls : List ModelTool) (t : Turn W)
        → (handle_calls setup calls t).0 ≡ ok true
        → replies (handle_calls setup calls t).1 ≡ replies t ++ map (λ call. call.id) calls
    handle_calls-replies calls t again = (calls-Adds calls).at t true again refl
