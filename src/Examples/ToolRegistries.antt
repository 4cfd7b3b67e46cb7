-- ===== src/Examples/ToolRegistries.antt =====
-- The registry of tools and the cost fuses at concrete inputs (backend-go/internal/tools/tool.go and
-- internal/harness/harness.go).
use ai_web_testing.Prelude.{
  ℕ, ◌+◌, ◌≤◌, String, Bool, true, ◌≡◌, refl, Option, none, some, List, [], ◌∷◌, map, pos, ok,
  lookup, insert, Dict,
}
use ai_web_testing.Tools.{
  Call, Handler, Registry, register, register_all, new_registry, execute, definitions,
}
use ai_web_testing.Tools.Registered.{Runs, execute-new_registry}
use ai_web_testing.Harness.Cost.{
  RunCostLimits, ActiveRun, new_active_run, exceed, cost_limit_error, record_run_cost,
}
use ai_web_testing.Harness.Cost.Fuses.{spend, tokens_of, HasSpent, spend-few_calls}

-- The handler counts its calls and returns its name.
abbrev handler : String → Handler ℕ
handler name = record {
  definition = record { name = name; description = ""; input_schema = "{}" };
  execute = λ call s. (ok (record { content = name; artifact = none; pending = none }), s + 1);
}

abbrev valid : String → Bool
valid s = true

abbrev handlers : List (Option (Handler ℕ))
handlers = some (handler "b") ∷ some (handler "a") ∷ []

abbrev registry : Registry ℕ
registry = record { handlers = ("a", handler "a") ∷ ("b", handler "b") ∷ [] }

made : new_registry valid handlers ≡ ok registry
unfolding new_registry register_all register lookup insert
made = refl

sorted_names : map (λ d. d.name) (definitions valid registry) ≡ "a" ∷ "b" ∷ []
unfolding definitions
sorted_names = refl

abbrev call : Call
call = record {
  run_id = "r";
  run_input = "";
  actor_user_id = pos 1;
  conversation_id = "";
  project_id = pos 1;
  latest_generation_id = none;
  approved_generation_id = none;
  tool_call_id = "1";
  name = "b";
  arguments = "{}";
}

execute-new_registry_example : Runs valid handlers call 0 (execute valid registry call 0)
execute-new_registry_example = execute-new_registry valid handlers made call 0

abbrev limits : RunCostLimits
limits = record {
  max_model_calls = pos 2;
  max_total_tokens = pos 100;
  max_transcript_bytes = pos 0;
}

abbrev active : Dict ActiveRun
active = ("r", new_active_run) ∷ []

abbrev after_two : Dict ActiveRun
after_two = ("r", record new_active_run { model_calls = 2; total_tokens = pos 70 }) ∷ []

spent : spend limits "r" (some (pos 70) ∷ none ∷ []) active ≡ ok after_two
unfolding spend record_run_cost exceed cost_limit_error lookup insert
spent = refl

found : lookup "r" active ≡ some new_active_run
unfolding lookup
found = refl

tokens : tokens_of limits "r" (pos 0) (some (pos 70) ∷ none ∷ []) ≡ pos 70
unfolding tokens_of
tokens = refl

spend-few_calls_example :
    (2 ≤ 2)
    × HasSpent limits "r" 2 (tokens_of limits "r" (pos 0) (some (pos 70) ∷ none ∷ [])) after_two
spend-few_calls_example =
    spend-few_calls limits "r" 1 refl (some (pos 70) ∷ none ∷ []) active after_two found spent
