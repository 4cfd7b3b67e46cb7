-- ===== src/Harness/Cost.antt =====
-- The cost fuses of a run (internal/harness/harness.go): what each model call adds, and the limits. A
-- method acts on the map of active runs, which the mutex guards.
pub mod Fuses
use ai_web_testing.Prelude.{
  ℕ, zero, suc, ◌+◌, String, Bool, true, false, not, ◌&&◌, ◌||◌, Option, none, some, if◌then◌else◌,
  ◌==◌, Dict, lookup, insert, ltb, ℤ, pos, negsuc, below, int_lt, ◌+ℤ◌, wrap_int64, Result, ok, err,
  Action,
}

pub record RunCostLimits : Type 0 where
  pub max_model_calls : ℤ
  pub max_total_tokens : ℤ
  pub max_transcript_bytes : ℤ

abbrev or_positive : ℤ → ℤ → ℤ
or_positive n default = if below n 1 then default else n

unfoldable pub with_defaults : RunCostLimits → RunCostLimits
with_defaults l = record {
  max_model_calls = or_positive l.max_model_calls (pos 40);
  max_total_tokens = or_positive l.max_total_tokens (pos 3_000_000);
  max_transcript_bytes = or_positive l.max_transcript_bytes (pos 2_000_000);
}

abbrev pub default_run_cost_limits : RunCostLimits
default_run_cost_limits = record {
  max_model_calls = pos 40;
  max_total_tokens = pos 3_000_000;
  max_transcript_bytes = pos 1_000_000;
}

abbrev pub is_enabled : RunCostLimits → Bool
is_enabled l =
    not (below l.max_model_calls 1)
    || not (below l.max_total_tokens 1)
    || not (below l.max_transcript_bytes 1)

-- An entry of activeRuns, without the cancel function of its context. The source never sets
-- lastLimit.
pub record ActiveRun : Type 0 where
  pub turn_budget : ℕ
  pub generation_segment_plan_sha256 : String
  pub model_calls : ℕ
  pub total_tokens : ℤ
  pub transcript_bytes : ℕ

abbrev pub new_active_run : ActiveRun
new_active_run = record {
  turn_budget = 0;
  generation_segment_plan_sha256 = "";
  model_calls = 0;
  total_tokens = pos 0;
  transcript_bytes = 0;
}

abbrev pub update_cost : ℕ → ℤ → ℕ → ActiveRun → ActiveRun
update_cost calls tokens bytes a = record a {
  model_calls = a.model_calls + calls;
  total_tokens = wrap_int64 (a.total_tokens +ℤ tokens);
  transcript_bytes = bytes;
}

-- a fuse that is set, and what it limits
abbrev pub is_blown : ℤ → ℤ → Bool
is_blown limit value = not (below limit 1) && int_lt limit value

-- the first limit that is violated, or ""
unfoldable pub exceed : RunCostLimits → ActiveRun → String
exceed limits a =
    if is_blown limits.max_model_calls (pos a.model_calls)
    then "model_calls"
    else if is_blown limits.max_total_tokens a.total_tokens
    then "total_tokens"
    else if is_blown limits.max_transcript_bytes (pos a.transcript_bytes)
    then "transcript_bytes"
    else ""

-- RunCostLimitError, its numbers before they are printed
pub record RunCostLimitError : Type 0 where
  pub limit : String
  pub current : Option ℤ
  pub max : Option ℤ

abbrev cost_values : RunCostLimits → String → ℕ → ℤ → ℕ → Option ℤ × Option ℤ
cost_values limits limit calls tokens bytes =
    if limit == "model_calls"
    then (some (pos calls), some limits.max_model_calls)
    else if limit == "total_tokens"
    then (some tokens, some limits.max_total_tokens)
    else if limit == "transcript_bytes"
    then (some (pos bytes), some limits.max_transcript_bytes)
    else (none, none)

unfoldable pub cost_limit_error :
    RunCostLimits → String → ℕ → ℤ → ℕ → Result RunCostLimitError (Unit {0})
cost_limit_error limits limit calls tokens bytes =
    if limit == ""
    then ok tt
    else let (current, max) = cost_values limits limit calls tokens bytes in
      err (record { limit = limit; current = current; max = max })

abbrev checked : RunCostLimits → ActiveRun → Result RunCostLimitError (Unit {0})
checked limits a =
    cost_limit_error limits (exceed limits a) a.model_calls a.total_tokens a.transcript_bytes

abbrev pub CostAction : Type 0
CostAction = Action (Dict ActiveRun) RunCostLimitError (Unit {0})

abbrev or_zero_int : Option ℤ → ℤ
or_zero_int none = pos 0
or_zero_int (some n) = n

add_call : RunCostLimits → String → ℤ → Option ActiveRun → CostAction
add_call limits run_id tokens none active_runs = (ok tt, active_runs)
add_call limits run_id tokens (some a) active_runs =
    let a' = update_cost 1 tokens a.transcript_bytes a in
    (checked limits a', insert run_id a' active_runs)

-- recordRunCost, for a model call with its number of tokens, if the provider gave one
unfoldable pub record_run_cost : RunCostLimits → String → Option ℤ → CostAction
unfolding add_call
record_run_cost limits run_id total_tokens active_runs =
    if not (is_enabled limits)
    then (ok tt, active_runs)
    else add_call limits run_id (or_zero_int total_tokens) (lookup run_id active_runs) active_runs

measure : RunCostLimits → String → ℕ → Option ActiveRun → CostAction
measure limits run_id bytes none active_runs = (ok tt, active_runs)
measure limits run_id bytes (some a) active_runs =
    let a' : ActiveRun = record a { transcript_bytes = bytes } in
    (checked limits a', insert run_id a' active_runs)

-- recordTranscriptCost, for a transcript of `bytes` bytes
unfoldable pub record_transcript_cost : RunCostLimits → String → ℕ → CostAction
unfolding measure
record_transcript_cost limits run_id bytes active_runs =
    if below limits.max_transcript_bytes 1
    then (ok tt, active_runs)
    else measure limits run_id bytes (lookup run_id active_runs) active_runs

-- raiseTurnBudget
raise_to : ℕ → Option ActiveRun → String → Dict ActiveRun → Dict ActiveRun
raise_to needed none run_id active_runs = active_runs
raise_to needed (some a) run_id active_runs =
    if ltb a.turn_budget needed
    then insert run_id (record a { turn_budget = needed }) active_runs
    else active_runs

unfoldable pub raise_turn_budget : String → ℕ → Dict ActiveRun → Dict ActiveRun
unfolding raise_to
raise_turn_budget run_id needed active_runs =
    raise_to needed (lookup run_id active_runs) run_id active_runs

-- turnBudgetFor
abbrev budget_of : Option ActiveRun → ℕ
budget_of none = 0
budget_of (some a) = a.turn_budget

unfoldable pub turn_budget_for : String → Dict ActiveRun → ℕ
turn_budget_for run_id active_runs = budget_of (lookup run_id active_runs)

-- markGenerationSegment: whether the plan's revision has no segment, which it gets
mark_segment : String → String → Option ActiveRun → Dict ActiveRun → Bool × Dict ActiveRun
mark_segment run_id hash none active_runs = (false, active_runs)
mark_segment run_id hash (some a) active_runs =
    if a.generation_segment_plan_sha256 == hash
    then (false, active_runs)
    else (true, insert run_id (record a { generation_segment_plan_sha256 = hash }) active_runs)

unfoldable pub mark_generation_segment : String → String → Dict ActiveRun → Bool × Dict ActiveRun
unfolding mark_segment
mark_generation_segment run_id hash active_runs =
    mark_segment run_id hash (lookup run_id active_runs) active_runs
