-- ===== src/Tools/Registered.antt =====
-- What a registry runs (internal/tools/tool.go).
use ai_web_testing.Prelude.{
  String, Bool, true, false, not, ◌||◌, Option, none, some, List, [], ◌∷◌, ◌≡◌, refl, ◌∙◌, sym,
  if◌then◌else◌, ◌==◌, eq_iff, Dict, lookup, insert, lookup-insert, Result, ok, err, Bool-cases,
  inl, inr, arith,
}
use ai_web_testing.Prelude.Results.{bind-ok}
use ai_web_testing.Tools.{
  Call, Failure, ToolResult, tool_not_found, invalid_arguments, Error, name_required,
  invalid_input_schema, already_registered, Handler, Registry, is_found, register, register_all,
  new_registry, get, execute,
}

module _ {S : Type 0} (valid_json : String → Bool) where
  -- the first handler of the list with the name
  unfoldable pub named : String → List (Option (Handler S)) → Option (Handler S)
  named name [] = none
  named name (none ∷ handlers) = named name handlers
  named name (some handler ∷ handlers) =
      let later = named name handlers in
      if handler.definition.name == name then some handler else later

  abbrev or_first : Option (Handler S) → Option (Handler S) → Option (Handler S)
  or_first none later = later
  or_first (some handler) later = some handler

  or_first-none : (found : Option (Handler S)) → or_first found none ≡ found
  or_first-none none = refl
  or_first-none (some handler) = refl

  unfound : (found : Option (Handler S)) → is_found found ≡ false → found ≡ none
  unfound none h = refl
  unfound (some handler) h = cc

  -- A free name is looked up in what is registered later.
  add_one :
      (key name : String) (handler : Handler S) (m : Dict (Handler S)) (later : Option (Handler S))
      → is_found (lookup key m) ≡ false
      → or_first (if key == name then some handler else lookup name m) later
        ≡ or_first (lookup name m) (if key == name then some handler else later)
  add_one key name handler m later free = elim (Bool-cases (key == name)) [
    | inl p ↦
        let same : key ≡ name = ground (arith, eq_iff key name, p) in
        let missing : lookup name m ≡ none = rw (sym same) (unfound (lookup key m) free) in
        rw (p, missing)
    | inr p ↦ rw p
  ]

  by_tests :
      (nameless invalid taken : Bool) (e e' e'' : Error) (next last : Registry S)
      → (if nameless then err e else if invalid then err e' else if taken then err e'' else ok next)
        ≡ ok last
      → (taken ≡ false) × (last ≡ next)
  by_tests true invalid taken e e' e'' next last h = cc
  by_tests false true taken e e' e'' next last h = cc
  by_tests false false true e e' e'' next last h = cc
  by_tests false false false e e' e'' next last h = (refl, cc)

  -- One registration adds one handler, under a name that is free.
  registered :
      (handler : Handler S) (registry : Registry S) {next : Registry S}
      → register valid_json (some handler) registry ≡ ok next
      → (is_found (lookup handler.definition.name registry.handlers) ≡ false)
        × (next.handlers ≡ insert handler.definition.name handler registry.handlers)
  unfolding register
  registered handler registry {next} h =
      let (free, same) =
        by_tests (handler.definition.name == "")
          (handler.definition.input_schema == ""
            || not (valid_json handler.definition.input_schema))
          (is_found (lookup handler.definition.name registry.handlers)) name_required
          (invalid_input_schema handler.definition.name)
          (already_registered handler.definition.name)
          (record { handlers = insert handler.definition.name handler registry.handlers }) next h in
      (free, rw same)

  lookup-register_all :
      (handlers : List (Option (Handler S))) (registry : Registry S) {last : Registry S}
      → register_all valid_json handlers registry ≡ ok last
      → (name : String)
      → lookup name last.handlers ≡ or_first (lookup name registry.handlers) (named name handlers)
  unfolding register_all named
  lookup-register_all [] registry {last} h name =
      let same : registry ≡ last = cc h in
      rw (sym same) (sym (or_first-none (lookup name registry.handlers)))
  lookup-register_all (none ∷ handlers) registry h name = absurd (unfold register in cc h)
  lookup-register_all (some handler ∷ handlers) registry h name =
      let (next, first, rest) =
        bind-ok (register valid_json (some handler) registry) (register_all valid_json handlers)
          h in
      let (free, same) = registered handler registry first in
      lookup-register_all handlers next rest name
      ∙ rw (same, lookup-insert handler.definition.name name handler registry.handlers)
          (add_one handler.definition.name name handler registry.handlers (named name handlers)
            free)

  -- What the registry has to do with a call, by the first handler of its list with the call's name.
  pub record Runs (handlers : List (Option (Handler S))) (call : Call) (s : S)
      (outcome : Result Failure ToolResult × S) : Type 0 where
    pub missing : named call.name handlers ≡ none → outcome ≡ (err (tool_not_found call.name), s)
    pub not_json :
        (handler : Handler S)
        → named call.name handlers ≡ some handler
        → valid_json call.arguments ≡ false
        → outcome ≡ (err (invalid_arguments call.name), s)
    pub runs :
        (handler : Handler S)
        → named call.name handlers ≡ some handler
        → valid_json call.arguments ≡ true
        → outcome ≡ handler.execute call s

  -- For each call, the registry that NewRegistry makes runs the first handler of the list with the name
  -- of the call, if there is one and the arguments are JSON. If there is no handler with the name, or
  -- the arguments are not JSON, the call has the error of that, and nothing is run: the state stays.
  pub execute-new_registry :
      (handlers : List (Option (Handler S))) {registry : Registry S}
      → new_registry valid_json handlers ≡ ok registry
      → (call : Call) (s : S) → Runs handlers call s (execute valid_json registry call s)
  unfolding new_registry execute get lookup
  execute-new_registry handlers made call s =
      let found = lookup-register_all handlers (record { handlers = [] }) made call.name in
      record {
        missing = λ none_named. rw (found, none_named);
        not_json = λ handler p invalid. rw (found, p, invalid);
        runs = λ handler p valid. rw (found, p, valid);
      }
