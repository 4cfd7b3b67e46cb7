-- ===== src/TaskPlan/Validate/Sound.antt =====
-- What validateDefinition (internal/taskplan/service.go) lets pass.
use Prim.Native.Char.{Char}
use Prim.Native.String.{◌++◌}
use ai_web_testing.Prelude.{
  trim_space, ℕ, ◌+◌, String, Bool, true, false, not, ◌&&◌, ◌||◌, ◌≡◌, refl, ◌==◌, List, [], ◌∷◌,
  All, any, contains, below, int_lt, Result, ok, err, arith,
}
use ai_web_testing.Prelude.Results.{
  ◌>>=◌, OfOk, OfOk-value, OfOk-err, OfOk-bind, OfOk-bind_with, OfOk-ok, ◌>>◌, reject_if,
}
use ai_web_testing.TaskPlan.Types.{
  SideEffect, StepDefinition, Definition, Error, invalid_step_id, invalid_semantics,
  exceeds_max_side_effect, invalid_occurrence, violates_forbidden,
}
use ai_web_testing.TaskPlan.Rules.{
  normalize, forbidden, valid_action, side_effect_rank, valid_side_effect, matches_step_id,
  validate_action_parameters,
}
use ai_web_testing.TaskPlan.Validate.Ids.{IsId, matches_step_id-IsId}
use ai_web_testing.TaskPlan.Validate.Parameters.{
  HasItsParameters, neither, validate_action_parameters-HasItsParameters,
}
use ai_web_testing.TaskPlan.Validate.{
  label_step, occurs, trim_step, default_occurrences, clean_conditions, check_step, validate_steps,
  sort_strings, validate_definition,
}

module _ (lower : Char → Char) (max_side_effect : SideEffect) (rules : List String) where
  pub record IsValidStep (step : StepDefinition) : Type 0 where
    pub id_form : IsId step.id
    pub within :
        int_lt (side_effect_rank max_side_effect) (side_effect_rank step.side_effect) ≡ false
    pub occurring : below step.expected_occurrences 1 ≡ false
    pub allowed :
        All
          (λ rule.
            contains
              (normalize lower (step.action ++ " " ++ step.target ++ " " ++ step.intent))
              rule
            ≡ false)
          rules
    pub parameters : HasItsParameters step
    pub timely : below step.timeout_ms 0 ≡ false

-- No id occurs twice, or among `seen`.
abbrev pub HasDistinctIds : List String → List StepDefinition → Type 0
HasDistinctIds seen [] = Unit
HasDistinctIds seen (step ∷ steps) =
    (occurs step.id seen ≡ false) × HasDistinctIds (step.id ∷ seen) steps

module _ (lower : Char → Char) where
  label_step-ok : (id : String) (r : Result Error (Unit {0})) → label_step id r ≡ ok tt → r ≡ ok tt
  label_step-ok id (ok tt) h = refl
  label_step-ok id (err e) h = cc

  -- A chain of the tests of one step passes only if each of them does.
  tests_pass :
      (a b d e f : Bool) (p q r s t : Error) (id : String) (m : Result Error (Unit {0}))
      → (do
        reject_if a p
        reject_if b q
        reject_if d r
        reject_if e s
        label_step id m
        reject_if f t)
        ≡ ok tt
      → (a ≡ false) × (b ≡ false) × (d ≡ false) × (e ≡ false) × (m ≡ ok tt) × (f ≡ false)
  tests_pass true _ _ _ _ _ _ _ _ _ _ _ h = absurd cc
  tests_pass false true _ _ _ _ _ _ _ _ _ _ h = absurd cc
  tests_pass false false true _ _ _ _ _ _ _ _ _ h = absurd cc
  tests_pass false false false true _ _ _ _ _ _ _ _ h = absurd cc
  tests_pass false false false false _ _ _ _ _ _ _ (err e) h = absurd cc
  tests_pass false false false false true _ _ _ _ _ _ (ok tt) h = absurd cc
  tests_pass false false false false false _ _ _ _ _ _ (ok tt) h =
      (refl, refl, refl, refl, refl, refl)

  no_rule :
      (value : String) (rules : List String)
      → any (contains value) rules ≡ false
      → All (λ rule. contains value rule ≡ false) rules
  no_rule value [] h = tt
  no_rule value (rule ∷ rules) h =
      let (absent, later) = neither (contains value rule) (any (contains value) rules) h in
      (absent, no_rule value rules later)

  check_step-IsValidStep :
      (max_side_effect : SideEffect) (rules : List String) (index : ℕ) (seen : List String)
      (step : StepDefinition)
      → check_step lower max_side_effect rules index seen step ≡ ok tt
      → IsValidStep lower max_side_effect rules step × (occurs step.id seen ≡ false)
  unfolding check_step forbidden
  check_step-IsValidStep max_side_effect rules index seen step h =
      let (fresh, semantics, effect, repeated, parameters, allowed) =
        tests_pass (not (matches_step_id step.id) || occurs step.id seen)
          (step.intent == ""
            || not (valid_action step.action)
            || not (valid_side_effect step.side_effect))
          (int_lt (side_effect_rank max_side_effect) (side_effect_rank step.side_effect))
          (below step.expected_occurrences 1
            || not (step.idempotency == "idempotent") && not (step.idempotency == "non_idempotent"))
          (forbidden lower rules (step.action ++ " " ++ step.target ++ " " ++ step.intent))
          (invalid_step_id index) (invalid_semantics step.id) (exceeds_max_side_effect step.id)
          (invalid_occurrence step.id) (violates_forbidden step.id) step.id
          (validate_action_parameters step) h in
      let known : valid_action step.action ≡ true = ground (arith, semantics) in
      let fitting = validate_action_parameters-HasItsParameters step known parameters in
      (
        record {
          id_form = matches_step_id-IsId step.id (ground (arith, fresh));
          within = effect;
          occurring = ground (arith, repeated);
          allowed = no_rule (normalize lower _) rules allowed;
          parameters = fitting.0;
          timely = fitting.1;
        },
        ground (arith, fresh),
      )

  check_step-OfOk :
      (max_side_effect : SideEffect) (rules : List String) (index : ℕ) (seen : List String)
      (step : StepDefinition)
      → OfOk
          (λ u. IsValidStep lower max_side_effect rules step × (occurs step.id seen ≡ false))
          (check_step lower max_side_effect rules index seen step)
  check_step-OfOk max_side_effect rules index seen step =
      of_ok (check_step lower max_side_effect rules index seen step) refl
    where
      of_ok :
          (r : Result Error (Unit {0}))
          → check_step lower max_side_effect rules index seen step ≡ r
          → OfOk
              (λ u. IsValidStep lower max_side_effect rules step × (occurs step.id seen ≡ false))
              r
      of_ok (ok tt) p =
          OfOk-value Error _ tt (check_step-IsValidStep max_side_effect rules index seen step p)
      of_ok (err e) p = OfOk-err _ e

  abbrev AreValid : SideEffect → List String → List String → List StepDefinition → Type 0
  AreValid max_side_effect rules seen steps =
      All (IsValidStep lower max_side_effect rules) steps × HasDistinctIds seen steps

  cleaned-IsValidStep :
      (max_side_effect : SideEffect) (rules : List String) (step : StepDefinition)
      → IsValidStep lower max_side_effect rules step
      → IsValidStep lower max_side_effect rules (clean_conditions lower step)
  unfolding clean_conditions
  cleaned-IsValidStep max_side_effect rules step h = record {
    id_form = h.id_form;
    within = h.within;
    occurring = h.occurring;
    allowed = h.allowed;
    parameters = h.parameters;
    timely = h.timely;
  }

  validate_steps-AreValid :
      (max_side_effect : SideEffect) (rules : List String) (index : ℕ) (seen : List String)
      (steps : List StepDefinition)
      → OfOk
          (AreValid max_side_effect rules seen)
          (validate_steps lower max_side_effect rules index seen steps)
  unfolding validate_steps clean_conditions
  validate_steps-AreValid max_side_effect rules index seen [] = OfOk-value Error _ [] (tt, tt)
  validate_steps-AreValid max_side_effect rules index seen (raw ∷ rest) =
      let step : StepDefinition = default_occurrences lower (trim_step lower raw) in
      OfOk-bind_with _ _ (check_step lower max_side_effect rules index seen step) _
        (check_step-OfOk max_side_effect rules index seen step)
        (λ u checked.
          OfOk-bind_with _ _
            (validate_steps lower max_side_effect rules (index + 1) (step.id ∷ seen) rest) _
            (validate_steps-AreValid max_side_effect rules (index + 1) (step.id ∷ seen) rest)
            (λ steps later.
              OfOk-value Error (AreValid max_side_effect rules seen)
                (clean_conditions lower step ∷ steps)
                (
                  (cleaned-IsValidStep max_side_effect rules step checked.0, later.0),
                  (checked.1, later.1),
                )))

  definition-AreValid :
      (source : Definition)
      → OfOk
          (λ (result : Definition).
            AreValid source.max_side_effect result.forbidden_actions [] result.steps)
          (validate_definition lower source)
  unfolding validate_definition
  definition-AreValid source = search (OfOk-bind, steps_of) depth 9
    where
      steps_of :
          (rules : List String)
          → OfOk
              (λ (result : Definition).
                AreValid source.max_side_effect result.forbidden_actions [] result.steps)
              (validate_steps lower source.max_side_effect (sort_strings rules) 0 [] source.steps
                >>= λ steps. ok (record source {
                  goal = trim_space source.goal;
                  forbidden_actions = sort_strings rules;
                  steps = steps;
                }))
      steps_of rules =
          OfOk-bind_with (AreValid source.max_side_effect (sort_strings rules) []) _
            (validate_steps lower source.max_side_effect (sort_strings rules) 0 [] source.steps) _
            (validate_steps-AreValid source.max_side_effect (sort_strings rules) 0 [] source.steps)
            (λ steps valid. OfOk-value Error _ _ valid)

-- If validateDefinition accepts a definition, then in the definition that it returns no two steps have
-- the same id; each id is a letter and at most 63 letters, digits, underscores and hyphens; each
-- action is one of the seven known ones and has the parameters, the idempotency and the side effect
-- that this action needs, and no negative timeout; no step has a side effect beyond the largest one
-- allowed or occurs less than once, and the normalised text of no step contains a forbidden action.
pub validate_definition-IsValidStep :
    (lower : Char → Char) (source : Definition) {result : Definition}
    → validate_definition lower source ≡ ok result
    → All (IsValidStep lower source.max_side_effect result.forbidden_actions) result.steps
      × HasDistinctIds [] result.steps
validate_definition-IsValidStep lower source accepted =
    OfOk-ok
      (λ (result : Definition).
        AreValid lower source.max_side_effect result.forbidden_actions [] result.steps)
      (validate_definition lower source) (definition-AreValid lower source) accepted
