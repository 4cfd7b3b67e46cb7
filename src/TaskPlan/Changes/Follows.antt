-- ===== src/TaskPlan/Changes/Follows.antt =====
-- No change of a plan by a tool's result or failure approves it (internal/taskplan/service.go).
use ai_web_testing.Prelude.{
  String, Bool, true, false, Option, none, some, List, ◌≡◌, refl, ℤ, if◌then◌else◌, below, arith,
}
use ai_web_testing.Prelude.Results.{OfOk, OfOk-value, OfOk-err, OfOk-if, of_ok_rules}
use ai_web_testing.TaskPlan.Types.{
  Status, executing, Step, ready_for_generation, approved, Plan, Error,
}
use ai_web_testing.TaskPlan.Contract.{Contract}
use ai_web_testing.TaskPlan.Changes.{
  all_grounded, record_exploration, apply_strategy, apply_report, record_generation, record_report,
  record_strategy, record_result, record_failure, carry_forward_grounding,
  rebind_carried_target_bindings,
}

abbrev pub is_approved : Status → Bool
is_approved approved = true
is_approved _ = false

-- `next` is of the same run, and is approved only as far as `plan` was.
pub record Follows (plan next : Plan) : Type 0 where
  pub same_run : next.run_id ≡ plan.run_id
  pub approved_before :
      is_approved next.status ≡ true
      → (is_approved plan.status ≡ true) × (next.bound_generation_id ≡ plan.bound_generation_id)

-- A plan whose status is not `approved` follows any plan of its run.
unapproved :
    (plan next : Plan)
    → next.run_id ≡ plan.run_id
    → is_approved next.status ≡ false
    → Follows plan next
unapproved plan next same not_yet = record { same_run = same; approved_before = λ p. cc }

unchanged : (plan : Plan) → Follows plan plan
unchanged plan = record { same_run = refl; approved_before = λ p. (p, refl) }

started : (plan : Plan) → Follows plan (record plan { status = executing })
started plan = record { same_run = refl; approved_before = λ p. cc }

with_steps :
    (plan : Plan) (steps : List Step)
    → Follows plan (record plan {
      steps = steps;
      status = if all_grounded steps then ready_for_generation else plan.status;
    })
with_steps plan steps = record { same_run = refl; approved_before = λ p. ground (arith, p) }

pub carry_forward_grounding-Follows :
    (plan previous : Plan) → Follows plan (carry_forward_grounding plan previous)
unfolding carry_forward_grounding
carry_forward_grounding-Follows plan previous = record {
  same_run = refl;
  approved_before = λ p. ground (arith, p);
}

module _ (c : Contract) where
  record_exploration-Follows :
      (plan : Plan) (tool arguments result : String) (event_seq : ℤ)
      → OfOk (Follows plan) (record_exploration c plan tool arguments result event_seq)
  unfolding record_exploration
  record_exploration-Follows plan tool arguments result event_seq =
      search (of_ok_rules, with_steps) depth 9

  apply_report-Follows : (plan : Plan) (status : String) → Follows plan (apply_report c plan status)
  unfolding apply_report
  apply_report-Follows plan status = record {
    same_run = ground arith;
    approved_before = λ p. ground (arith, p);
  }

  apply_strategy-Follows :
      (plan next : Plan) (strategy : String)
      → next.run_id ≡ plan.run_id
      → Follows plan (apply_strategy c next strategy)
  unfolding apply_strategy
  apply_strategy-Follows plan next strategy same = record {
    same_run = ground arith;
    approved_before = λ p. ground (arith, p);
  }

  record_generation-Follows :
      (plan : Plan) (id : Option ℤ) → OfOk (Follows plan) (record_generation c plan id)
  unfolding record_generation
  record_generation-Follows plan none = OfOk-err _ _
  record_generation-Follows plan (some id) =
      OfOk-if _ (below id 1) _ _ (OfOk-err _ _) (OfOk-value Error _ _ (unapproved plan _ refl refl))

  record_report-Follows :
      (plan : Plan) (status : Option String) → OfOk (Follows plan) (record_report c plan status)
  unfolding record_report
  record_report-Follows plan none = OfOk-err _ _
  record_report-Follows plan (some status) = OfOk-value Error _ _ (apply_report-Follows plan status)

  record_strategy-Follows :
      (plan : Plan) (strategy : Option String)
      → OfOk (Follows plan) (record_strategy c plan strategy)
  unfolding record_strategy
  record_strategy-Follows plan none = OfOk-err _ _
  record_strategy-Follows plan (some strategy) =
      OfOk-value Error _ _
        (apply_strategy-Follows plan (record plan { bound_generation_id = none }) strategy refl)

  pub record_result-Follows :
      (plan : Plan) (tool arguments result : String) (event_seq : ℤ)
      → OfOk (Follows plan) (record_result c plan tool arguments result event_seq)
  unfolding record_result
  record_result-Follows plan tool arguments result event_seq =
      search
        (
          of_ok_rules, record_exploration-Follows, record_generation-Follows, record_report-Follows,
          record_strategy-Follows, started, unchanged,
        )
        depth 12

  pub record_failure-Follows :
      (plan : Plan) (tool message : String) → Follows plan (record_failure c plan tool message)
  unfolding record_failure
  record_failure-Follows plan tool message = record {
    same_run = ground arith;
    approved_before = λ p. ground (arith, p);
  }

  pub rebind-Follows : (plan : Plan) → Follows plan (rebind_carried_target_bindings c plan).0
  unfolding rebind_carried_target_bindings
  rebind-Follows plan = record { same_run = refl; approved_before = λ p. (p, refl) }
