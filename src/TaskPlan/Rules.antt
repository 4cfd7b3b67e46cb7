-- ===== src/TaskPlan/Rules.antt =====
-- The vocabulary of plan steps and the checks of one step (internal/taskplan/service.go and
-- compiler.go).
use Prim.Native.Char.{Char, code}
use ai_web_testing.Prelude.{
  ℕ, zero, suc, String, Bool, true, false, not, ◌&&◌, ◌||◌, Option, none, some, List, [], ◌∷◌, any,
  leb, nat_eq, if◌then◌else◌, ◌==◌, trim_space, join_fields, map_runes, contains, ℤ, pos, negsuc,
  below, Result, ok, err,
}
use ai_web_testing.TaskPlan.Types.{
  SideEffect, no_effect, browser_state, external_state, unknown, other, StepDefinition, Error,
  goto_requires_value, click_requires_target, input_requires_target, input_trigger,
  wait_for_requires_target, assert_text_requires, assert_url_requires, capture_requires,
  wrong_effect, timeout_negative,
}

-- `lower` is unicode.ToLower.
unfoldable pub normalize : (Char → Char) → String → String
normalize lower value = map_runes lower (join_fields (trim_space value))

-- `rules` are normalised already
unfoldable pub forbidden : (Char → Char) → List String → String → Bool
forbidden lower rules value = any (contains (normalize lower value)) rules

unfoldable pub clean_strings : List String → List String
clean_strings [] = []
clean_strings (value ∷ values) =
    let result = clean_strings values in
    if trim_space value == "" then result else trim_space value ∷ result

unfoldable pub equal_strings : List String → List String → Bool
equal_strings [] [] = true
equal_strings (l ∷ left) (r ∷ right) = l == r && equal_strings left right
equal_strings _ _ = false

unfoldable pub valid_action : String → Bool
valid_action value =
    any (λ action. value == action)
      ("goto" ∷ "click" ∷ "input" ∷ "wait_for" ∷ "assert_text" ∷ "assert_url_contains"
        ∷ "capture_text" ∷ [])

unfoldable pub requires_target_binding : String → Bool
requires_target_binding action = action == "click" || action == "input" || action == "capture_text"

unfoldable pub side_effect_rank : SideEffect → ℤ
side_effect_rank no_effect = pos 0
side_effect_rank browser_state = pos 1
side_effect_rank external_state = pos 2
side_effect_rank unknown = pos 3
side_effect_rank (other _) = negsuc 0

unfoldable pub valid_side_effect : SideEffect → Bool
unfolding side_effect_rank
valid_side_effect value = not (below (side_effect_rank value) 0)

abbrev pub is_browser_state : SideEffect → Bool
is_browser_state browser_state = true
is_browser_state _ = false

abbrev pub is_no_effect : SideEffect → Bool
is_no_effect no_effect = true
is_no_effect _ = false

-- one byte of the pattern of step ids
abbrev pub is_letter : ℕ → Bool
is_letter c = leb 65 c && leb c 90 || leb 97 c && leb c 122

abbrev pub is_id_char : ℕ → Bool
is_id_char c = is_letter c || leb 48 c && leb c 57 || nat_eq c 95 || nat_eq c 45

-- at most `room` further characters
unfoldable pub id_rest : ℕ → String → Bool
id_rest room String.[] = true
id_rest zero (String.◌∷◌ c s) = false
id_rest (suc room) (String.◌∷◌ c s) = is_id_char (code c) && id_rest room s

-- ^[A-Za-z][A-Za-z0-9_-]{0,63}$
unfoldable pub matches_step_id : String → Bool
unfolding id_rest
matches_step_id String.[] = false
matches_step_id (String.◌∷◌ c s) = is_letter (code c) && id_rest 63 s

-- The cases of validateActionParameters, each with its error if it fails.
unfoldable pub check_action : StepDefinition → Option Error
check_action step =
    let idempotent = step.idempotency == "idempotent" in
    let steady = idempotent && is_no_effect step.side_effect in
    let browsing = idempotent && is_browser_state step.side_effect in
    if step.action == "goto"
    then (if step.value == ""
        then some goto_requires_value
        else if browsing
        then none
        else some (wrong_effect "goto"))
    else if step.action == "click"
    then (if step.target == "" then some click_requires_target else none)
    else if step.action == "input"
    then (if step.target == ""
        then some input_requires_target
        else if not (step.trigger == "")
            && not (step.trigger == "Enter")
            && not (step.trigger == "Tab")
        then some input_trigger
        else if browsing
        then none
        else some (wrong_effect "input"))
    else if step.action == "wait_for"
    then (if step.target == ""
        then some wait_for_requires_target
        else if steady
        then none
        else some (wrong_effect "wait_for"))
    else if step.action == "assert_text"
    then (if step.target == "" || step.value == ""
        then some assert_text_requires
        else if steady
        then none
        else some (wrong_effect "assert_text"))
    else if step.action == "assert_url_contains"
    then (if step.target == "" || step.value == ""
        then some assert_url_requires
        else if steady
        then none
        else some (wrong_effect "assert_url_contains"))
    else if step.action == "capture_text"
    then (if step.target == "" || step.context_key == ""
        then some capture_requires
        else if steady
        then none
        else some (wrong_effect "capture_text"))
    else none

unfoldable pub validate_action_parameters : StepDefinition → Result Error (Unit {0})
unfolding check_action
validate_action_parameters step = elim (check_action step) [
  | some e ↦ err e
  | none ↦ if below step.timeout_ms 0 then err timeout_negative else ok tt
]
