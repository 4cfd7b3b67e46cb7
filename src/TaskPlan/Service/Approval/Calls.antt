-- ===== src/TaskPlan/Service/Approval/Calls.antt =====
-- The methods of the plan service (internal/taskplan/service.go) keep what Approval states.
use ai_web_testing.Prelude.{
  String, Bool, true, false, ◌≡◌, refl, none, some, List, [], ◌∷◌, eq_refl, int_eq, pos, negsuc,
  if◌then◌else◌, ℤ, Result, ok, err, Keeps, Keeps-bind, Keeps-if, Keeps-return, Keeps-fail, ◌>>=◌,
  keeps_rules, arith, return, lift,
}
use ai_web_testing.Prelude.Results.{OfOk, OfOk-ok}
use ai_web_testing.TaskPlan.Types.{Status, failed, blocked, Plan, CreateRequest, Error}
use ai_web_testing.TaskPlan.Contract.{Contract}
use ai_web_testing.TaskPlan.Validate.{validate_definition}
use ai_web_testing.TaskPlan.Memory
use ai_web_testing.TaskPlan.Memory.{MemoryRepository}
use ai_web_testing.TaskPlan.Memory.Versions.{save-AllVersions, create_version-AllVersions}
use ai_web_testing.TaskPlan.Changes.{
  is_over, end_plan, carry_forward_grounding, rebind_carried_target_bindings,
}
use ai_web_testing.TaskPlan.Changes.Follows.{
  is_approved, record_result-Follows, record_failure-Follows, rebind-Follows,
}
use ai_web_testing.TaskPlan.Service.{
  Service, ServiceAction, on_repository, read_clock, previous_version, create_checked, save_stamped,
  rebinding, store_version, create_after, create_version, change_if_any, unless_missing,
  record_tool_result, record_tool_failure, approve, mark_terminal, mark_failed, mark_blocked,
  save_ended, new_plan,
}
use ai_web_testing.TaskPlan.Service.Session.{
  Command, create, tool_result, tool_failure, approval, failure, blockage, perform, perform_all,
  is_approval, was_approved,
}
use ai_web_testing.TaskPlan.Service.Approval.{
  IsFine, HasApprovals, on_repository-Keeps, Follows-IsFine, not_approved-IsFine, own_key,
  current-Keeps, read-Keeps, lift-Keeps, OfOk-Follows, approve_plan-IsFine,
}

carried_not_approved :
    (plan previous : Plan)
    → is_approved plan.status ≡ false
    → is_approved (carry_forward_grounding plan previous).status ≡ false
unfolding carry_forward_grounding
carried_not_approved plan previous not_yet = ground arith

int_eq_refl : (x : ℤ) → int_eq x x ≡ true
int_eq_refl (pos n) = ground arith
int_eq_refl (negsuc n) = ground arith

module _ (Asked : String → ℤ → Type 0) (c : Contract) where
  save_stamped-Keeps :
      (k : String) (plan : Plan)
      → IsFine Asked k plan
      → Keeps (HasApprovals Asked) (save_stamped c plan)
  unfolding save_stamped read_clock
  save_stamped-Keeps k plan h =
      Keeps-bind _ _ (record { at = λ s before. before })
        (λ now. on_repository-Keeps Asked _ (
          save-AllVersions (IsFine Asked) (record plan { updated_at = now })
            (record { keyed = refl; asked = (own_key Asked k plan h).asked })))

  record_tool_result-Keeps :
      (run_id tool arguments result : String) (event_seq : ℤ)
      → Keeps (HasApprovals Asked) (record_tool_result c run_id tool arguments result event_seq)
  unfolding record_tool_result
  record_tool_result-Keeps run_id tool arguments result event_seq =
      Keeps-if _ _ _
        (λ p. read-Keeps Asked run_id _ (λ plan h.
          lift-Keeps Asked run_id _ _
            (OfOk-Follows Asked run_id plan _ h
              (record_result-Follows c plan tool arguments result event_seq))
            (save_stamped-Keeps run_id)))
        (λ p. Keeps-return tt)

  approve-Keeps :
      (run_id : String) (id : ℤ)
      → Asked run_id id
      → Keeps (HasApprovals Asked) (approve c run_id id)
  unfolding approve
  approve-Keeps run_id id was_asked = read-Keeps Asked run_id _ (λ plan h.
      lift-Keeps Asked run_id _ _ (approve_plan-IsFine Asked run_id plan id h.keyed was_asked)
        (save_stamped-Keeps run_id))

  change_if_any-Keeps :
      (k : String) (change : Plan → ServiceAction (Unit {0}))
      → ((plan : Plan) → IsFine Asked k plan → Keeps (HasApprovals Asked) (change plan))
      → Keeps (HasApprovals Asked) (change_if_any c k change)
  unfolding change_if_any
  change_if_any-Keeps k change kept =
      current-Keeps Asked k (unless_missing change (return tt)) found_or_not
    where
      found_or_not :
          (r : Result Error Plan)
          → OfOk (IsFine Asked k) r
          → Keeps (HasApprovals Asked) (unless_missing change (return tt) r)
      found_or_not (ok plan) h = kept plan (OfOk-ok (IsFine Asked k) (ok plan) h refl)
      found_or_not (err e) h = Keeps-if _ _ _ (λ p. Keeps-fail e) (λ p. Keeps-return tt)

  record_tool_failure-Keeps :
      (run_id tool message : String)
      → Keeps (HasApprovals Asked) (record_tool_failure c run_id tool message)
  unfolding record_tool_failure
  record_tool_failure-Keeps run_id tool message = change_if_any-Keeps run_id _ (λ plan h.
      save_stamped-Keeps run_id _
        (Follows-IsFine Asked run_id plan _ (record_failure-Follows c plan tool message) h))

  mark_terminal-Keeps :
      (status : Status) (run_id : String)
      → is_approved status ≡ false
      → Keeps (HasApprovals Asked) (mark_terminal c status run_id)
  unfolding mark_terminal end_plan
  mark_terminal-Keeps status run_id not_yet =
      change_if_any-Keeps run_id _ (λ plan h. ended plan h (is_over plan.status))
    where
      ended :
          (plan : Plan)
          → IsFine Asked run_id plan
          → (over : Bool)
          → Keeps
              (HasApprovals Asked)
              (save_ended c (if over then none else some (record plan { status = status })))
      ended plan h true = Keeps-return tt
      ended plan h false =
          save_stamped-Keeps run_id (record plan { status = status })
            (not_approved-IsFine Asked run_id (record plan { status = status }) h.keyed not_yet)

  rebound-IsFine :
      (created : Plan)
      → is_approved created.status ≡ false
      → let rebound = (rebind_carried_target_bindings c created).0 in
        IsFine Asked rebound.run_id rebound
  rebound-IsFine created not_yet = own_key Asked created.run_id _ (
      Follows-IsFine Asked created.run_id created _ (rebind-Follows c created)
        (not_approved-IsFine Asked created.run_id created refl not_yet))

  rebinding-Keeps :
      (created : Plan)
      → is_approved created.status ≡ false
      → Keeps (HasApprovals Asked) (rebinding c created)
  unfolding rebinding
  rebinding-Keeps created not_yet =
      let saved =
        on_repository-Keeps Asked (Memory.save (rebind_carried_target_bindings c created).0) (
          save-AllVersions (IsFine Asked) (rebind_carried_target_bindings c created).0
            (rebound-IsFine created not_yet)) in
      search (keeps_rules, saved) depth 6

  store_version-Keeps :
      (plan : Plan)
      → is_approved plan.status ≡ false
      → Keeps (HasApprovals Asked) (store_version c plan)
  unfolding store_version ◌>>=◌ on_repository Memory.create_version
  store_version-Keeps plan not_yet = record {
    at = λ s h. (rebinding-Keeps (record plan { version = _ }) not_yet).at _ (
        (create_version-AllVersions (IsFine Asked)
            (λ k old fine. not_approved-IsFine Asked k _ fine.keyed refl) plan
            (λ v. not_approved-IsFine Asked plan.run_id _ refl not_yet)).at
          s.repository h);
  }

  create_after-Keeps :
      (plan : Plan) (previous : Result Error Plan)
      → is_approved plan.status ≡ false
      → Keeps (HasApprovals Asked) (create_after c plan previous)
  unfolding create_after
  create_after-Keeps plan (ok previous) not_yet =
      let carried =
        store_version-Keeps (carry_forward_grounding plan previous)
          (carried_not_approved plan previous not_yet) in
      search (keeps_rules, carried) depth 4
  create_after-Keeps plan (err e) not_yet =
      let stored = store_version-Keeps plan not_yet in search (keeps_rules, stored) depth 4

  from_previous-Keeps :
      (run_id : String) (plan : Plan)
      → is_approved plan.status ≡ false
      → Keeps (HasApprovals Asked) (previous_version c run_id >>= create_after c plan)
  unfolding previous_version ◌>>=◌
  from_previous-Keeps run_id plan not_yet = record {
    at =
        (current-Keeps Asked run_id (create_after c plan)
          (λ previous fine. create_after-Keeps plan previous not_yet)).at;
  }

  create_checked-Keeps :
      (request : CreateRequest) → Keeps (HasApprovals Asked) (create_checked c request)
  unfolding create_checked
  create_checked-Keeps request =
      Keeps-bind (lift (validate_definition c.lower request.definition)) _
        (record { at = λ s before. before })
        (λ definition.
          Keeps-bind (read_clock c) _ (unfold read_clock in record { at = λ s before. before })
            (λ now.
              from_previous-Keeps request.run_id (new_plan c request definition now)
                (unfold new_plan in refl)))

  create_version-Keeps :
      (request : CreateRequest) → Keeps (HasApprovals Asked) (create_version c request)
  unfolding create_version
  create_version-Keeps request =
      let checked = create_checked-Keeps request in search (keeps_rules, checked) depth 4

  perform-Keeps :
      (call : Command)
      → ((run_id : String) (id : ℤ) → is_approval run_id id call ≡ true → Asked run_id id)
      → (s : Service) → HasApprovals Asked s
      → HasApprovals Asked (perform c call s)
  unfolding perform mark_failed mark_blocked
  perform-Keeps (create request) allowed = (create_version-Keeps request).at
  perform-Keeps (tool_result run_id tool arguments result event_seq) allowed =
      (record_tool_result-Keeps run_id tool arguments result event_seq).at
  perform-Keeps (tool_failure run_id tool message) allowed =
      (record_tool_failure-Keeps run_id tool message).at
  perform-Keeps (approval run_id id) allowed =
      (approve-Keeps run_id id
        (allowed run_id id (ground (arith, eq_refl run_id, int_eq_refl id)))).at
  perform-Keeps (failure run_id) allowed = (mark_terminal-Keeps failed run_id refl).at
  perform-Keeps (blockage run_id) allowed = (mark_terminal-Keeps blocked run_id refl).at

  pub perform_all-Keeps :
      (calls : List Command)
      → ((run_id : String) (id : ℤ) → was_approved run_id id calls ≡ true → Asked run_id id)
      → (s : Service) → HasApprovals Asked s
      → HasApprovals Asked (perform_all c calls s)
  unfolding perform_all
  perform_all-Keeps [] allowed s h = h
  perform_all-Keeps (call ∷ calls) allowed s h =
      perform_all-Keeps calls (λ run_id id p. allowed run_id id (ground (arith, p)))
        (perform c call s)
        (perform-Keeps call (λ run_id id p. allowed run_id id (ground (arith, p))) s h)
