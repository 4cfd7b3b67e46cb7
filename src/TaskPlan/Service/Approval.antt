-- ===== src/TaskPlan/Service/Approval.antt =====
-- No plan is approved but by Approve (internal/taskplan/service.go).
pub mod Calls
use ai_web_testing.Prelude.{
  ℕ, ◌+◌, String, Bool, true, false, ◌≡◌, refl, ◌∙◌, Option, none, some, List, [], ◌∷◌, any, ◌||◌,
  ◌&&◌, ◌==◌, eq_iff, eq_refl, int_eq, int_eq-eq, pos, negsuc, ap, if◌then◌else◌, ℤ, Result, ok,
  err, Action, Keeps, Keeps-bind, Keeps-if, Keeps-return, Keeps-fail, proceed, ◌>>=◌, keeps_rules,
  arith, Bool-cases, inl, inr, ◌⊎◌, return, fail, lift,
}
use ai_web_testing.Prelude.Results.{OfOk, OfOk-ok}
use ai_web_testing.TaskPlan.Types.{
  Status, run_id_required, approved, approval_mismatch, failed, blocked, superseded, Plan,
  CreateRequest, Error,
}
use ai_web_testing.TaskPlan.Contract.{Contract}
use ai_web_testing.TaskPlan.Validate.{validate_definition}
use ai_web_testing.TaskPlan.Memory
use ai_web_testing.TaskPlan.Memory.{MemoryRepository}
use ai_web_testing.TaskPlan.Memory.Versions.{
  AllVersions, save-AllVersions, get_current-All, create_version-AllVersions,
}
use ai_web_testing.TaskPlan.Changes.{
  record_result, record_failure, is_over, is_awaiting, is_bound_to, approve_plan, end_plan,
  carry_forward_grounding, rebind_carried_target_bindings,
}
use ai_web_testing.TaskPlan.Changes.Follows.{
  is_approved, Follows, carry_forward_grounding-Follows, record_result-Follows,
  record_failure-Follows, rebind-Follows,
}
use ai_web_testing.TaskPlan.Service.{
  Service, ServiceAction, on_repository, read_clock, previous_version, create_checked, save_stamped,
  rebinding, store_version, create_after, create_version, change_if_any, unless_missing,
  record_tool_result, record_tool_failure, approve, mark_terminal, mark_failed, mark_blocked,
  save_ended, new_plan,
}
use ai_web_testing.TaskPlan.Service.Session.{
  Command, create, tool_result, tool_failure, approval, failure, blockage, perform, perform_all,
  is_approval, was_approved,
}

bound_to-some : (id : ℤ) (bound : Option ℤ) → is_bound_to id bound ≡ true → bound ≡ some id
bound_to-some id none h = cc
bound_to-some id (some bound) h = ap some (int_eq-eq bound id h)

-- The plan stands under its run, and if it is approved, then for a generation that was asked for.
pub record IsFine (Asked : String → ℤ → Type 0) (k : String) (plan : Plan) : Type 0 where
  pub keyed : plan.run_id ≡ k
  pub asked :
      is_approved plan.status ≡ true → (id : ℤ) × (plan.bound_generation_id ≡ some id) × Asked k id

module _ (Asked : String → ℤ → Type 0) where
  abbrev pub HasApprovals : Service → Type 0
  HasApprovals s = AllVersions (IsFine Asked) s.repository

  Follows-IsFine :
      (k : String) (plan next : Plan)
      → Follows plan next
      → IsFine Asked k plan
      → IsFine Asked k next
  Follows-IsFine k plan next f h = record {
    keyed = f.same_run ∙ h.keyed;
    asked = λ p.
        let (before, same) = f.approved_before p in
        let (id, bound, was_asked) = h.asked before in (id, same ∙ bound, was_asked);
  }

  not_approved-IsFine :
      (k : String) (plan : Plan)
      → plan.run_id ≡ k
      → is_approved plan.status ≡ false
      → IsFine Asked k plan
  not_approved-IsFine k plan same not_yet = record { keyed = same; asked = λ p. cc }

  on_repository-Keeps :
      {A : Type 0} (m : Action MemoryRepository Error A)
      → Keeps (AllVersions (IsFine Asked)) m
      → Keeps HasApprovals (on_repository m)
  unfolding on_repository
  on_repository-Keeps m k = record { at = λ s h. k.at s.repository h }

  own_key : (k : String) (plan : Plan) → IsFine Asked k plan → IsFine Asked plan.run_id plan
  own_key k plan h = record {
    keyed = refl;
    asked = λ p. let (id, bound, was_asked) = h.asked p in (id, bound, rw h.keyed was_asked);
  }

  -- What is read stands in the repository.
  current-Keeps :
      {A : Type 0} (k : String) (rest : Result Error Plan → ServiceAction A)
      → ((r : Result Error Plan) → OfOk (IsFine Asked k) r → Keeps HasApprovals (rest r))
      → Keeps HasApprovals (λ s. let (r, s') = on_repository (Memory.get_current k) s in rest r s')
  unfolding on_repository Memory.get_current
  current-Keeps k rest kept = record {
    at = λ s h.
        (kept (Memory.get_current k s.repository).0
            (get_current-All (IsFine Asked) k s.repository h)).at
          _ h;
  }

  proceed-Keeps :
      {A : Type 0} (k : String) (rest : Plan → ServiceAction A) (r : Result Error Plan)
      → OfOk (IsFine Asked k) r
      → ((plan : Plan) → IsFine Asked k plan → Keeps HasApprovals (rest plan))
      → Keeps HasApprovals (proceed rest r)
  unfolding OfOk
  proceed-Keeps k rest (ok plan) h kept = kept plan h
  proceed-Keeps k rest (err e) h kept = record { at = λ s before. before }

  -- `plan, err := GetCurrent(...)`, and a return on an error
  read-Keeps :
      {A : Type 0} (k : String) (rest : Plan → ServiceAction A)
      → ((plan : Plan) → IsFine Asked k plan → Keeps HasApprovals (rest plan))
      → Keeps HasApprovals (on_repository (Memory.get_current k) >>= rest)
  unfolding ◌>>=◌
  read-Keeps k rest kept =
      current-Keeps k (proceed rest) (λ r fine. proceed-Keeps k rest r fine kept)

  lift-Keeps :
      {A : Type 0} (k : String) (r : Result Error Plan) (rest : Plan → ServiceAction A)
      → OfOk (IsFine Asked k) r
      → ((plan : Plan) → IsFine Asked k plan → Keeps HasApprovals (rest plan))
      → Keeps HasApprovals (lift r >>= rest)
  unfolding ◌>>=◌
  lift-Keeps k r rest fine kept = record {
    at = λ s before. (proceed-Keeps k rest r fine kept).at s before;
  }

  OfOk-Follows :
      (k : String) (plan : Plan) (r : Result Error Plan)
      → IsFine Asked k plan
      → OfOk (Follows plan) r
      → OfOk (IsFine Asked k) r
  unfolding OfOk
  OfOk-Follows k plan (ok next) h f = Follows-IsFine k plan next f h
  OfOk-Follows k plan (err e) h f = tt

  approve_plan-IsFine :
      (k : String) (plan : Plan) (id : ℤ)
      → plan.run_id ≡ k
      → Asked k id
      → OfOk (IsFine Asked k) (approve_plan plan id)
  unfolding approve_plan OfOk
  approve_plan-IsFine k plan id keyed was_asked =
      by_test (is_awaiting plan.status && is_bound_to id plan.bound_generation_id)
        (λ passed. bound_to-some id plan.bound_generation_id (ground arith))
    where
      by_test :
          (test : Bool)
          → (test ≡ true → plan.bound_generation_id ≡ some id)
          → OfOk
              (IsFine Asked k)
              (if test then ok (record plan { status = approved }) else err approval_mismatch)
      by_test true bound = record { keyed = keyed; asked = λ p. (id, bound refl, was_asked) }
      by_test false bound = tt
