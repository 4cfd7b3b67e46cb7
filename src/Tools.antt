-- ===== src/Tools.antt =====
-- The registry of tools (internal/tools/tool.go). A handler acts on a state `S` of what it can reach; a
-- nil handler is `none`; raw JSON is a text, and encoding/json is a parameter.
pub mod Registered
use ai_web_testing.Prelude.{
  ℕ, String, Bool, true, false, not, ◌&&◌, ◌||◌, Option, none, some, List, [], ◌∷◌, map,
  if◌then◌else◌, ◌==◌, Dict, lookup, insert, ℤ, Result, ok, err, text_le,
}
use ai_web_testing.Prelude.Results.{◌>>=◌}

pub record Definition : Type 0 where
  pub name : String
  pub description : String
  pub input_schema : String

pub record Call : Type 0 where
  pub run_id : String
  pub run_input : String
  pub actor_user_id : ℤ
  pub conversation_id : String
  pub project_id : ℤ
  pub latest_generation_id : Option ℤ
  pub approved_generation_id : Option ℤ
  pub tool_call_id : String
  pub name : String
  pub arguments : String

pub record Artifact : Type 0 where
  pub kind : String
  pub id : String

pub record Pending : Type 0 where
  pub kind : String
  pub payload : String

pub record ToolResult : Type 0 where
  pub content : String
  pub artifact : Option Artifact
  pub pending : Option Pending

-- The errors of Execute; `canceled` is one that wraps context.Canceled.
pub data Failure : Type 0 where
  canceled : Failure
  tool_not_found invalid_arguments failed : String → Failure

pub record Handler (S : Type 0) : Type 0 where
  pub definition : Definition
  pub execute : Call → S → Result Failure ToolResult × S

pub record Registry (S : Type 0) : Type 0 where
  pub handlers : Dict (Handler S)

-- The errors of Register.
pub data Error : Type 0 where
  handler_required name_required : Error
  invalid_input_schema already_registered : String → Error

abbrev pub is_found : {A : Type 0} → Option A → Bool
is_found none = false
is_found (some a) = true

insert_definition : Definition → List Definition → List Definition
insert_definition d [] = d ∷ []
insert_definition d (e ∷ es) =
    let later = insert_definition d es in if text_le d.name e.name then d ∷ e ∷ es else e ∷ later

sort_definitions : List Definition → List Definition
unfolding insert_definition
sort_definitions [] = []
sort_definitions (d ∷ ds) = insert_definition d (sort_definitions ds)

module _ {S : Type 0} (valid_json : String → Bool) where
  -- json.Valid refuses the empty text, which Register tests apart.
  unfoldable pub register : Option (Handler S) → Registry S → Result Error (Registry S)
  register none registry = err handler_required
  register (some handler) registry =
      let definition = handler.definition in
      if definition.name == ""
      then err name_required
      else if definition.input_schema == "" || not (valid_json definition.input_schema)
      then err (invalid_input_schema definition.name)
      else if is_found (lookup definition.name registry.handlers)
      then err (already_registered definition.name)
      else ok (record { handlers = insert definition.name handler registry.handlers })

  unfoldable pub register_all : List (Option (Handler S)) → Registry S → Result Error (Registry S)
  register_all [] registry = ok registry
  register_all (handler ∷ handlers) registry = register handler registry >>= register_all handlers

  unfoldable pub new_registry : List (Option (Handler S)) → Result Error (Registry S)
  unfolding register_all
  new_registry handlers = register_all handlers (record { handlers = [] })

  abbrev pub found_handler : String → Option (Handler S) → Result Failure (Handler S)
  found_handler name none = err (tool_not_found name)
  found_handler name (some handler) = ok handler

  unfoldable pub get : String → Registry S → Result Failure (Handler S)
  get name registry = found_handler name (lookup name registry.handlers)

  abbrev pub run_found : Call → Result Failure (Handler S) → S → Result Failure ToolResult × S
  run_found call (err e) s = (err e, s)
  run_found call (ok handler) s =
      if not (valid_json call.arguments)
      then (err (invalid_arguments call.name), s)
      else handler.execute call s

  unfoldable pub execute : Registry S → Call → S → Result Failure ToolResult × S
  execute registry call s = run_found call (get call.name registry) s

  unfoldable pub definitions : Registry S → List Definition
  unfolding sort_definitions
  definitions registry = sort_definitions (map (λ entry. entry.1.definition) registry.handlers)
