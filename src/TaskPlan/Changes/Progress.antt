-- ===== src/TaskPlan/Changes/Progress.antt =====
-- What an exploration leaves of a plan (internal/taskplan/service.go).
use ai_web_testing.Prelude.{String, false, ◌≡◌, ◌==◌, List, [], ℤ, if◌then◌else◌}
use ai_web_testing.TaskPlan.Types.{Step, Plan, EvidenceRef, ready_for_generation}
use ai_web_testing.TaskPlan.Contract.{Contract}
use ai_web_testing.TaskPlan.Probe.{successful_exploration_evidence}
use ai_web_testing.TaskPlan.Changes.{Findings, all_grounded}
use ai_web_testing.TaskPlan.Changes.Advances.{AllAdvance}

-- What an exploration has found, by its result.
pub record IsFrom (c : Contract) (tool result : String) (event_seq : ℤ) (found : Findings)
    : Type 0 where
  pub is_flow : found.is_flow ≡ (tool == "explore_flow")
  pub evidence : found.evidence ≡ successful_exploration_evidence c (c.exploration result)
  pub page_actions : (tool == "explore_flow") ≡ false → found.grounded_actions ≡ []
  pub reference :
      found.reference
      ≡ record { tool = tool; event_seq = event_seq; content_sha256 = c.sha256 result }

-- What an exploration with these findings has to leave of a plan.
pub record IsProgress (c : Contract) (found : Findings) (plan next : Plan) : Type 0 where
  pub steps_advance : AllAdvance c found plan.steps next.steps
  pub ready : next.status ≡ (if all_grounded next.steps then ready_for_generation else plan.status)
  pub rest_kept : next ≡ record plan { steps = next.steps; status = next.status }

abbrev grown : Plan → List Step → Plan
grown plan steps = record plan {
  steps = steps;
  status = if all_grounded steps then ready_for_generation else plan.status;
}

module _ (c : Contract) (plan : Plan) (tool arguments result : String) (event_seq : ℤ) where
  abbrev Explains : Plan → Type 0
  Explains next =
      (found : Findings) × IsFrom c tool result event_seq found × IsProgress c found plan next

  abbrev reference_of : EvidenceRef
  reference_of = record { tool = tool; event_seq = event_seq; content_sha256 = c.sha256 result }
