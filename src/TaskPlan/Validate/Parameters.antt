-- ===== src/TaskPlan/Validate/Parameters.antt =====
-- What validateActionParameters of internal/taskplan/service.go asks for, written out for each action.
use ai_web_testing.Prelude.{
  String, Bool, true, false, not, ◌&&◌, ◌||◌, ◌≡◌, ◌≢◌, ◌⊎◌, inl, inr, refl, Option, none, some,
  if◌then◌else◌, ◌==◌, eq_iff, Bool-cases, below, ok, err, arith,
}
use ai_web_testing.TaskPlan.Types.{
  SideEffect, no_effect, browser_state, external_state, unknown, other, StepDefinition, Error,
  timeout_negative,
}
use ai_web_testing.TaskPlan.Rules.{
  valid_action, check_action, is_browser_state, is_no_effect, validate_action_parameters,
}

-- The parameters that a step with this action needs, and the effect that it must have.
pub data HasParameters (action target value trigger context_key idempotency : String)
    (effect : SideEffect) : Type 0 where
  goto :
      action ≡ "goto"
      → value ≢ ""
      → idempotency ≡ "idempotent"
      → effect ≡ browser_state
      → HasParameters action target value trigger context_key idempotency effect
  click :
      action ≡ "click"
      → target ≢ ""
      → HasParameters action target value trigger context_key idempotency effect
  input :
      action ≡ "input"
      → target ≢ ""
      → (trigger ≡ "") ⊎ (trigger ≡ "Enter") ⊎ (trigger ≡ "Tab")
      → idempotency ≡ "idempotent"
      → effect ≡ browser_state
      → HasParameters action target value trigger context_key idempotency effect
  wait_for :
      action ≡ "wait_for"
      → target ≢ ""
      → idempotency ≡ "idempotent"
      → effect ≡ no_effect
      → HasParameters action target value trigger context_key idempotency effect
  assertion :
      (action ≡ "assert_text") ⊎ (action ≡ "assert_url_contains")
      → target ≢ ""
      → value ≢ ""
      → idempotency ≡ "idempotent"
      → effect ≡ no_effect
      → HasParameters action target value trigger context_key idempotency effect
  capture_text :
      action ≡ "capture_text"
      → target ≢ ""
      → context_key ≢ ""
      → idempotency ≡ "idempotent"
      → effect ≡ no_effect
      → HasParameters action target value trigger context_key idempotency effect

abbrev pub HasItsParameters : StepDefinition → Type 0
HasItsParameters step =
    HasParameters step.action step.target step.value step.trigger step.context_key step.idempotency
      step.side_effect

same : (s t : String) → (s == t) ≡ true → s ≡ t
same s t h = ground (arith, eq_iff s t, h)

differs : (s t : String) → (s == t) ≡ false → s ≢ t
differs s t h = λ p. ground (arith, eq_iff s t, h, p)

-- The two tests of a case of check_action.
two_tests :
    (lacking fits : Bool) (e e' : Error)
    → (if lacking then some e else if fits then none else some e') ≡ none
    → (lacking ≡ false) × (fits ≡ true)
two_tests true fits e e' h = absurd cc
two_tests false true e e' h = (refl, refl)
two_tests false false e e' h = absurd cc

targeted :
    (lacking : Bool) (e : Error) → (if lacking then some e else none) ≡ none → lacking ≡ false
targeted true e h = absurd cc
targeted false e h = refl

three_tests :
    (lacking odd fits : Bool) (e e' e'' : Error)
    → (if lacking then some e else if odd then some e' else if fits then none else some e'') ≡ none
    → (lacking ≡ false) × (odd ≡ false) × (fits ≡ true)
three_tests true odd fits e e' e'' h = absurd cc
three_tests false true fits e e' e'' h = absurd cc
three_tests false false true e e' e'' h = (refl, refl, refl)
three_tests false false false e e' e'' h = absurd cc

browses :
    (idempotent : Bool) (effect : SideEffect)
    → idempotent && is_browser_state effect ≡ true
    → (idempotent ≡ true) × (effect ≡ browser_state)
browses true browser_state h = (refl, refl)
browses true no_effect h = absurd cc
browses true external_state h = absurd cc
browses true unknown h = absurd cc
browses true (other s) h = absurd cc
browses false e h = absurd cc

steady :
    (idempotent : Bool) (effect : SideEffect)
    → idempotent && is_no_effect effect ≡ true
    → (idempotent ≡ true) × (effect ≡ no_effect)
steady true no_effect h = (refl, refl)
steady true browser_state h = absurd cc
steady true external_state h = absurd cc
steady true unknown h = absurd cc
steady true (other s) h = absurd cc
steady false e h = absurd cc

pub neither : (a b : Bool) → a || b ≡ false → (a ≡ false) × (b ≡ false)
neither false false h = (refl, refl)
neither false true h = absurd cc
neither true b h = absurd cc

triggered :
    (trigger : String)
    → not (trigger == "") && not (trigger == "Enter") && not (trigger == "Tab") ≡ false
    → (trigger ≡ "") ⊎ (trigger ≡ "Enter") ⊎ (trigger ≡ "Tab")
triggered trigger h =
    ground (arith, h, eq_iff trigger "", eq_iff trigger "Enter", eq_iff trigger "Tab")

asserted :
    (step : StepDefinition)
    → (step.action == "goto") ≡ false
    → (step.action == "click") ≡ false
    → (step.action == "input") ≡ false
    → (step.action == "wait_for") ≡ false
    → valid_action step.action ≡ true
    → check_action step ≡ none
    → HasItsParameters step
unfolding valid_action check_action
asserted step n1 n2 n3 n4 known passed = elim (Bool-cases (step.action == "assert_text")) [
  | inl p ↦
      let (given, fits) =
        two_tests (step.target == "" || step.value == "") _ _ _
          (rw (n1, n2, n3, n4, p) at passed) in
      let (no_target, no_value) = neither _ _ given in
      let (idempotent, effect) = steady (step.idempotency == "idempotent") step.side_effect fits in
      assertion (inl (same _ _ p)) (differs _ _ no_target) (differs _ _ no_value)
        (same _ _ idempotent) effect
  | inr n5 ↦ elim (Bool-cases (step.action == "assert_url_contains")) [
    | inl p ↦
        let (given, fits) =
          two_tests (step.target == "" || step.value == "") _ _ _
            (rw (n1, n2, n3, n4, n5, p) at passed) in
        let (no_target, no_value) = neither _ _ given in
        let (idempotent, effect) =
          steady (step.idempotency == "idempotent") step.side_effect fits in
        assertion (inr (same _ _ p)) (differs _ _ no_target) (differs _ _ no_value)
          (same _ _ idempotent) effect
    | inr n6 ↦ elim (Bool-cases (step.action == "capture_text")) [
      | inl p ↦
          let (given, fits) =
            two_tests (step.target == "" || step.context_key == "") _ _ _
              (rw (n1, n2, n3, n4, n5, n6, p) at passed) in
          let (no_target, no_key) = neither _ _ given in
          let (idempotent, effect) =
            steady (step.idempotency == "idempotent") step.side_effect fits in
          capture_text (same _ _ p) (differs _ _ no_target) (differs _ _ no_key)
            (same _ _ idempotent) effect
      | inr n7 ↦ absurd (cc (rw (n1, n2, n3, n4, n5, n6, n7) at known))
    ]
  ]
]

check_action-HasItsParameters :
    (step : StepDefinition)
    → valid_action step.action ≡ true
    → check_action step ≡ none
    → HasItsParameters step
unfolding valid_action check_action
check_action-HasItsParameters step known passed = elim (Bool-cases (step.action == "goto")) [
  | inl p ↦
      let (given, fits) = two_tests (step.value == "") _ _ _ (rw p at passed) in
      let (idempotent, effect) = browses (step.idempotency == "idempotent") step.side_effect fits in
      goto (same _ _ p) (differs _ _ given) (same _ _ idempotent) effect
  | inr n1 ↦ elim (Bool-cases (step.action == "click")) [
    | inl p ↦
        click (same _ _ p) (differs _ _ (targeted (step.target == "") _ (rw (n1, p) at passed)))
    | inr n2 ↦ elim (Bool-cases (step.action == "input")) [
      | inl p ↦
          let (given, typed, fits) =
            three_tests (step.target == "") _ _ _ _ _ (rw (n1, n2, p) at passed) in
          let (idempotent, effect) =
            browses (step.idempotency == "idempotent") step.side_effect fits in
          input (same _ _ p) (differs _ _ given) (triggered step.trigger typed)
            (same _ _ idempotent) effect
      | inr n3 ↦ elim (Bool-cases (step.action == "wait_for")) [
        | inl p ↦
            let (given, fits) =
              two_tests (step.target == "") _ _ _ (rw (n1, n2, n3, p) at passed) in
            let (idempotent, effect) =
              steady (step.idempotency == "idempotent") step.side_effect fits in
            wait_for (same _ _ p) (differs _ _ given) (same _ _ idempotent) effect
        | inr n4 ↦ asserted step n1 n2 n3 n4 known passed
      ]
    ]
  ]
]

-- What validateActionParameters accepts, for a known action.
pub validate_action_parameters-HasItsParameters :
    (step : StepDefinition)
    → valid_action step.action ≡ true
    → validate_action_parameters step ≡ ok tt
    → HasItsParameters step × (below step.timeout_ms 0 ≡ false)
unfolding validate_action_parameters
validate_action_parameters-HasItsParameters step known =
    by_check (check_action step) (below step.timeout_ms 0)
      (check_action-HasItsParameters step known)
  where
    by_check :
        {P : Type 0} (checked : Option Error) (early : Bool)
        → (checked ≡ none → P)
        → (elim checked [ some e ↦ err e | none ↦ if early then err timeout_negative else ok tt ])
          ≡ ok tt
        → P × (early ≡ false)
    by_check none false give h = (give refl, refl)
    by_check none true give h = absurd cc
    by_check (some e) early give h = absurd cc
