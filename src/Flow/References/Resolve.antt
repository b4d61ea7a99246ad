-- ===== src/Flow/References/Resolve.antt =====
-- neorc_core/flows/_references.py: `resolve` and the metadata of a consumer. A fan-out over a list
-- resolves a reference on the way, so `resolve` recurs on fuel; with none left it raises, as Python
-- does when its own recursion is too deep.
use neorc.Prelude.{
  ℕ, zero, suc, ◌+◌, String, ◌==◌, nat_eq, string_eq, list_eq, Bool, true, false, ◌||◌, not, Option,
  none, some, List, [], ◌∷◌, map, length, take, ltb, if◌then◌else◌,
}
use neorc.Prelude.Dict
use neorc.Errors.{
  Result, ok, err, value_error, key_error, index_error, recursion, resolution, ◌>>=◌,
}
use neorc.Json.{JsonValue, int, pos}
use neorc.Flow.Definition.{
  Namespace, Reference, loop, fan_out, step_name, Container, FlowDefinition,
}
use neorc.Flow.Walk.{enclosing}
use neorc.Flow.RunState.{Scope, Address, RunState}
use neorc.Flow.References.{Resolver, levels, over_items, collect, dict_of}

pub data Kind : Type 0 where
  loops fan_outs : Kind

abbrev is_kind : Kind → Container → Bool
is_kind loops (loop _ _ _ _) = true
is_kind loops _ = false
is_kind fan_outs (fan_out _ _ _ _) = true
is_kind fan_outs _ = false

-- The last of the containers of a kind, with its depth and the consumer's number in it.
innermost : Kind → List Container → Scope → ℕ → Option (ℕ × Container × ℕ)
innermost kind [] scope depth = none
innermost kind (c ∷ cs) [] depth = none
innermost kind (c ∷ cs) ((name, n) ∷ scope) depth = elim (innermost kind cs scope (depth + 1)) [
  | some found ↦ some found
  | none ↦ if is_kind kind c then some (depth, c, n) else none
]

-- `items[number - 1]`: an index of -1 counts from the end.
nth : ℕ → List JsonValue → Result JsonValue
nth zero [] = err index_error
nth zero (v ∷ []) = ok v
nth zero (_ ∷ v ∷ vs) = nth zero (v ∷ vs)
nth (suc i) [] = err index_error
nth (suc zero) (v ∷ vs) = ok v
nth (suc (suc i)) (_ ∷ vs) = nth (suc i) vs

item_of : ℕ → Option (List JsonValue) → Result (Option JsonValue)
unfolding nth
item_of number none = ok none
item_of number (some items) =
    if ltb (length items) number then err resolution else do v ← nth number items; ok (some v)

over_of : Container → Option Reference
over_of (fan_out _ _ over _) = over
over_of _ = none

metadata_at : Resolver → Address → List Container → String → Result (Option JsonValue)
unfolding innermost item_of over_items over_of
metadata_at again consumer around name =
    elim (innermost (if name == "loop_count" then loops else fan_outs) around consumer.scope 0) [
      | none ↦ err value_error
      | some (depth, c, number) ↦ if not (name == "item") then ok (some (int (pos number))) else do
        items ← over_items again (step_name c) (over_of c) (take depth consumer.scope)
        item_of number items
    ]

unfoldable pub metadata :
    Resolver → Option Address → List Container → Reference → Result (Option JsonValue)
unfolding metadata_at
metadata again none around reference = err value_error
metadata again (some consumer) around reference =
    let name = reference.name in
    if (name == "loop_count") || (name == "index") || (name == "item")
    then metadata_at again consumer around name
    else err value_error

abbrev pub scope_of : Option Address → Scope
scope_of none = []
scope_of (some consumer) = consumer.scope

unfoldable pub around_of : FlowDefinition → Option Address → Result (List Container)
unfolding enclosing
around_of definition none = ok []
around_of definition (some consumer) = enclosing definition consumer.step

module _ (definition : FlowDefinition) (state : RunState) where
  -- The part of `resolve` behind its check of the consumer's scope.
  resolve_in : Resolver → List Container → Option Address → Reference → Result (Option JsonValue)
  unfolding metadata collect levels enclosing dict_of
  resolve_in again around consumer reference = elim reference.namespace [
    | Namespace.inputs ↦ elim (Dict.get reference.name state.inputs) [
      | none ↦ err key_error
      | some v ↦ ok (some v)
    ]
    | Namespace.metadata ↦ metadata again consumer around reference
    | _ ↦ do
      target_around ← enclosing definition reference.name
      collect state again reference.name (dict_of (scope_of consumer) [])
          (levels around target_around) []
  ]

  resolve_step : Resolver → Resolver
  unfolding resolve_in around_of
  resolve_step again consumer reference = do
    around ← around_of definition consumer
    if Dict.keys (scope_of consumer) == map step_name around
        then resolve_in again around consumer reference
        else err value_error

  unfoldable pub resolve : ℕ → Resolver
  unfolding resolve_step
  resolve zero consumer reference = err recursion
  resolve (suc fuel) consumer reference = resolve_step (resolve fuel) consumer reference
