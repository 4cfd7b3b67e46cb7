-- ===== src/TaskPlan/Window/Contiguous.antt =====
-- The window that contiguousPendingSteps (internal/taskplan/service.go) returns.
use ai_web_testing.Prelude.{
  ℕ, zero, suc, String, Bool, true, not, some, List, [], ◌∷◌, ◌++◌, map, all, length, take, drop,
  eq_iff, ◌≡◌, refl, ap, ◌∙◌, inl, inr, Option-cases, ok, arith,
}
use ai_web_testing.TaskPlan.Types.{Step, is_grounded}
use ai_web_testing.TaskPlan.Window.{first_index, check_ids, window_at, contiguous_pending_steps}

abbrev pub is_pending_step : Step → Bool
is_pending_step step = not (is_grounded step.status)

abbrev pub step_id : Step → String
step_id step = step.id

-- the first step, if there is one, is not grounded
abbrev pub opens_pending : List Step → Bool
opens_pending [] = true
opens_pending (step ∷ steps) = is_pending_step step

-- `window` is the part of `steps` that `ids` names, and it begins where the grounded steps end.
pub record IsWindow (steps : List Step) (ids : List String) (window : List Step) : Type 0 where
  pub before : List Step
  pub after : List Step
  pub split : steps ≡ before ++ (window ++ after)
  pub grounded_before : all (λ step. is_grounded step.status) before ≡ true
  pub opens : opens_pending window ≡ true
  pub named : map step_id window ≡ ids

take-drop : (n : ℕ) (steps : List Step) → steps ≡ take n steps ++ drop n steps
take-drop zero steps = refl
take-drop (suc n) [] = refl
take-drop (suc n) (step ∷ steps) = ap (λ rest. step ∷ rest) (take-drop n steps)

first_pending :
    (steps : List Step) (i : ℕ)
    → first_index is_pending_step steps ≡ some i
    → (all (λ step. is_grounded step.status) (take i steps) ≡ true)
      × (opens_pending (drop i steps) ≡ true)
unfolding first_index
first_pending [] i found = cc
first_pending (step ∷ steps) zero found = ground arith
first_pending (step ∷ steps) (suc i) found = ground (arith, first_pending steps i)

opens-take :
    (n : ℕ) (steps : List Step) → opens_pending steps ≡ true → opens_pending (take n steps) ≡ true
opens-take zero steps opens = refl
opens-take (suc n) [] opens = refl
opens-take (suc n) (step ∷ steps) opens = opens

check_ids-named :
    (steps : List Step) (ids : List String)
    → check_ids steps ids ≡ ok tt
    → map step_id (take (length ids) steps) ≡ ids
unfolding check_ids
check_ids-named steps [] checked = refl
check_ids-named [] (id ∷ ids) checked = cc
check_ids-named (step ∷ steps) (id ∷ ids) checked =
    ground (arith, eq_iff step.id id, check_ids-named steps ids)

-- What the tests of the window at `first` leave true.
window_at-ok :
    (first : ℕ) (steps : List Step) (id : String) (ids : List String) {window : List Step}
    → window_at (some first) steps id ids ≡ ok window
    → (check_ids (drop first steps) (id ∷ ids) ≡ ok tt)
      × (window ≡ take (length (id ∷ ids)) (drop first steps))
unfolding window_at
window_at-ok first steps id ids {window} accepted = ground (arith, accepted)

-- If contiguousPendingSteps accepts the submitted ids, what it returns is a run of consecutive steps
-- of the plan with exactly those ids in that order, every step before it is grounded, and its first
-- step is not.
pub contiguous_pending_steps-IsWindow :
    (steps : List Step) (ids : List String) {window : List Step}
    → contiguous_pending_steps steps ids ≡ ok window
    → IsWindow steps ids window
unfolding contiguous_pending_steps window_at
contiguous_pending_steps-IsWindow steps [] accepted = cc
contiguous_pending_steps-IsWindow steps (id ∷ ids) {window} accepted =
    elim (Option-cases (first_index is_pending_step steps)) [
      | inl p ↦ absurd (ground (arith, p, accepted))
      | inr (first, p) ↦ window_of first p (window_at-ok first steps id ids (rw p at accepted))
    ]
  where
    window_of :
        (first : ℕ)
        → first_index is_pending_step steps ≡ some first
        → (check_ids (drop first steps) (id ∷ ids) ≡ ok tt)
          × (window ≡ take (length (id ∷ ids)) (drop first steps))
        → IsWindow steps (id ∷ ids) window
    window_of first p (checked, same) = record {
      before = take first steps;
      after = drop (length (id ∷ ids)) (drop first steps);
      split = rw same (
          take-drop first steps
          ∙ ap (λ rest. take first steps ++ rest)
              (take-drop (length (id ∷ ids)) (drop first steps)));
      grounded_before = (first_pending steps first p).0;
      opens =
          rw same
            (opens-take (length (id ∷ ids)) (drop first steps) (first_pending steps first p).1);
      named = rw same (check_ids-named (drop first steps) (id ∷ ids) checked);
    }
