-- ===== src/Flow/References.antt =====
-- neorc_core/flows/_references.py: what a reference resolves to, for a consumer at a given place in
-- a run. `none` is a value that is not available yet.
pub mod Resolve
use neorc.Prelude.{
  ℕ, zero, suc, ◌+◌, ◌-◌, String, ◌==◌, nat_eq, string_eq, list_eq, option_eq, Bool, true, false,
  ◌&&◌, ◌||◌, not, Option, none, some, List, [], ◌∷◌, ◌++◌, map, length, take, ltb, if◌then◌else◌,
}
use neorc.Prelude.Dict
use neorc.Prelude.Dict.{Dict}
use neorc.Errors.{
  Result, ok, err, value_error, key_error, index_error, assertion, recursion, resolution, ◌>>=◌,
  ◌>>◌,
}
use neorc.Json.{JsonValue, Items, null, bool, int, pos, arr, list_of, items_of}
use neorc.Flow.Definition.{
  Namespace, Reference, names_step, Step, task, sub_flow, loop, fan_out, step_name, Container,
  FlowDefinition,
}
use neorc.Flow.Walk.{enclosing, shared_names}
use neorc.Flow.RunState.{
  Scope, Address, Outcome, running, succeeded, failed, StepResult, RunState, state_get, last,
}

pub data Level : Type 0 where
  iterations_so_far iterations branches : Level

-- The level of one container around the target, by whether the consumer is inside it too.
level_of : Bool → Container → Option Level
level_of inside (loop _ _ _ _) = some (if inside then iterations_so_far else iterations)
level_of inside _ = if inside then none else some branches

-- The loop over the depths: a container is shared while its depth is below `shared`.
mark_levels : ℕ → List Container → List (Container × Option Level)
unfolding level_of
mark_levels shared [] = []
mark_levels zero (c ∷ cs) = (c, level_of false c) ∷ mark_levels zero cs
mark_levels (suc shared) (c ∷ cs) = (c, level_of true c) ∷ mark_levels shared cs

unfoldable pub levels : List Container → List Container → List (Container × Option Level)
unfolding mark_levels shared_names
levels around target_around =
    mark_levels (shared_names (map step_name around) (map step_name target_around)) target_around

list_levels : List (Container × Option Level) → List Level
list_levels [] = []
list_levels ((c, none) ∷ rest) = list_levels rest
list_levels ((c, some level) ∷ rest) = level ∷ list_levels rest

unfoldable pub shape : FlowDefinition → Option String → Reference → Result (List Level)
unfolding list_levels levels
shape definition consumer reference =
    if names_step reference.namespace
    then (do
      around ← elim consumer [ none ↦ ok [] | some name ↦ enclosing definition name ]
      target_around ← enclosing definition reference.name
      ok (list_levels (levels around target_around)))
    else ok []

unfoldable pub is_true : JsonValue → Bool
is_true (bool b) = b
is_true _ = false

unfoldable pub succeeded_value : Option StepResult → Option JsonValue
succeeded_value none = none
succeeded_value (some r) = elim r.outcome [
  | running ↦ none
  | succeeded ↦ some r.value
  | failed ↦ none
]

-- `dict(scope)`
dict_of : Scope → Dict String ℕ → Dict String ℕ
dict_of [] d = d
dict_of ((name, n) ∷ rest) d = dict_of rest (Dict.set name n d)

abbrev pub inner : Scope → Container → ℕ → Scope
inner scope container number = scope ++ (step_name container, number) ∷ []

unfoldable pub finished_iterations : RunState → String → String → Scope → Option ℕ
unfolding is_true succeeded_value
finished_iterations state name exit_condition scope =
    let final = last state scope name in
    if final == 0
    then none
    else elim (succeeded_value
        (state_get state (record { step = exit_condition; scope = scope ++ (name, final) ∷ [] }))) [
          | none ↦ none
          | some value ↦ if is_true value then some final else none
        ]

-- Asks for the value of a reference at a consumer: the recursive call of `resolve`.
abbrev pub Resolver : Type 0
Resolver = Option Address → Reference → Result (Option JsonValue)

as_list : Option JsonValue → Result (Option (List JsonValue))
as_list none = ok none
as_list (some (arr items)) = ok (some (list_of items))
as_list (some _) = err resolution

unfoldable pub over_items :
    Resolver → String → Option Reference → Scope → Result (Option (List JsonValue))
unfolding as_list
over_items again name none scope = err assertion
over_items again name (some over) scope = do
  resolved ← again (some (record { step = name; scope = scope })) over
  as_list resolved

list_width : Option (List JsonValue) → Option ℕ
list_width none = none
list_width (some items) = some (length items)

unfoldable pub fan_out_width : Resolver → Container → Scope → Result (Option ℕ)
unfolding over_items list_width
fan_out_width again (fan_out name (some n) none _) scope = ok (some n)
fan_out_width again (fan_out name none none _) scope = err assertion
fan_out_width again (fan_out name _ (some over) _) scope = do
  items ← over_items again name (some over) scope
  ok (list_width items)
fan_out_width again _ scope = err assertion

or_key_error {ℓ} : {A : Type ℓ} → Option A → Result A
or_key_error none = err key_error
or_key_error (some a) = ok a

-- The loop that gathers one value for each number, and stops at one that is not available.
gather : (ℕ → Result (Option JsonValue)) → ℕ → ℕ → Result (Option (List JsonValue))
gather item zero number = ok (some [])
gather item (suc left) number = do
  value ← item number
  rest ← elim value [ none ↦ ok none | some _ ↦ gather item left (number + 1) ]
  ok (elim value [ none ↦ none | some v ↦ elim rest [ none ↦ none | some vs ↦ some (v ∷ vs) ] ])

module _ (state : RunState) (again : Resolver) (target : String)
    (consumer_scope : Dict String ℕ) where
  on_path : Scope → Bool
  on_path [] = true
  on_path ((name, n) ∷ rest) = (Dict.get name consumer_scope == some n) && on_path rest

  -- A branch that a fan-out over a list never had raises.
  ensure_branch : Container → Scope → ℕ → Result (Unit {0})
  unfolding fan_out_width
  ensure_branch (fan_out name range (some over) steps) scope number = do
    width ← fan_out_width again (fan_out name range (some over) steps) scope
    elim width [ none ↦ ok tt | some w ↦ if ltb w number then err resolution else ok tt ]
  ensure_branch _ scope number = ok tt

  finished_count : Container → Scope → Result (Option ℕ)
  unfolding finished_iterations fan_out_width
  finished_count (loop name m exit_condition s) scope =
      ok (finished_iterations state name exit_condition scope)
  finished_count c scope = fan_out_width again c scope

  level_count : Level → Container → Scope → Result (Option ℕ)
  unfolding on_path or_key_error finished_count
  level_count iterations_so_far c scope =
      if on_path scope
      then (do n ← or_key_error (Dict.get (step_name c) consumer_scope); ok (some n))
      else finished_count c scope
  level_count _ c scope = finished_count c scope

  as_array : Option (List JsonValue) → Option JsonValue
  as_array none = none
  as_array (some values) = some (arr (items_of values))

  unfoldable pub collect : List (Container × Option Level) → Scope → Result (Option JsonValue)
  unfolding ensure_branch level_count or_key_error gather as_array
  collect [] scope =
      ok (succeeded_value (state_get state (record { step = target; scope = scope })))
  collect ((c, none) ∷ rest) scope = do
    number ← or_key_error (Dict.get (step_name c) consumer_scope)
    ensure_branch c scope number
    collect rest (inner scope c number)
  collect ((c, some level) ∷ rest) scope = do
    count ← level_count level c scope
    values ← elim count [
      | none ↦ ok none
      | some n ↦ gather (λ number. collect rest (inner scope c number)) n 1
    ]
    ok (as_array values)
