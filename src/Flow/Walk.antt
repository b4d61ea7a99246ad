-- ===== src/Flow/Walk.antt =====
-- neorc_core/flows/_definition.py: the methods of `FlowDefinition` that find steps, what encloses
-- them and what they wait on.
use neorc.Prelude.{
  ℕ, zero, suc, String, ◌==◌, string_eq, Bool, false, ◌||◌, Option, none, some, List, [], ◌∷◌, ◌++◌,
  map, if◌then◌else◌,
}
use neorc.Prelude.Dict
use neorc.Prelude.Dict.{Dict}
use neorc.Errors.{Result, ok, err, key_error}
use neorc.Flow.Definition.{
  Reference, names_step, TaskStep, Step, Steps, task, sub_flow, loop, fan_out, nil, cons, step_name,
  Container, FlowDefinition,
}

unfoldable mutual
  -- Every step at any depth with the containers around it, outermost first.
  pub walk : Steps → List Container → List (Step × List Container)
  walk nil enclosing = []
  walk (cons s rest) enclosing = walk_step s enclosing ++ walk rest enclosing

  pub walk_step : Step → List Container → List (Step × List Container)
  walk_step (task t) enclosing = (task t, enclosing) ∷ []
  walk_step (sub_flow t) enclosing = (sub_flow t, enclosing) ∷ []
  walk_step (loop n m e steps) enclosing =
      (loop n m e steps, enclosing) ∷ walk steps (enclosing ++ loop n m e steps ∷ [])
  walk_step (fan_out n r o steps) enclosing =
      (fan_out n r o steps, enclosing) ∷ walk steps (enclosing ++ fan_out n r o steps ∷ [])

-- `{step.name: (step, enclosing) for step, enclosing in self.walk()}`
unfoldable pub index_of :
    List (Step × List Container)
    → Dict String (Step × List Container)
    → Dict String (Step × List Container)
index_of [] d = d
index_of ((s, around) ∷ rest) d = index_of rest (Dict.set (step_name s) (s, around) d)

unfoldable pub index : FlowDefinition → Dict String (Step × List Container)
unfolding index_of
index definition = index_of (walk definition.steps []) []

-- `self._index[name][0]` and `self._index[name][1]`
unfoldable pub step : FlowDefinition → String → Result Step
step definition name = elim (Dict.get name (index definition)) [
  | none ↦ err key_error
  | some (s, around) ↦ ok s
]

unfoldable pub enclosing : FlowDefinition → String → Result (List Container)
enclosing definition name = elim (Dict.get name (index definition)) [
  | none ↦ err key_error
  | some (s, around) ↦ ok around
]

unfoldable pub tasks_of : List (Step × List Container) → List TaskStep
tasks_of [] = []
tasks_of ((task t, around) ∷ rest) = t ∷ tasks_of rest
tasks_of ((_, around) ∷ rest) = tasks_of rest

unfoldable pub tasks : FlowDefinition → List TaskStep
unfolding tasks_of walk
tasks definition = tasks_of (walk definition.steps [])

unfoldable pub step_references : Step → List Reference
step_references (task t) = Dict.values t.params
step_references (sub_flow s) = Dict.values s.params
step_references (loop _ _ _ _) = []
step_references (fan_out _ _ none _) = []
step_references (fan_out _ _ (some over) _) = over ∷ []

-- How many names two chains share from the start: the `while` loop that counts `shared`.
unfoldable pub shared_names : List String → List String → ℕ
shared_names (a ∷ xs) (b ∷ ys) = let rest = shared_names xs ys in if a == b then suc rest else 0
shared_names (a ∷ xs) [] = 0
shared_names [] ys = 0

unfoldable pub get_elem? : List String → ℕ → Option String
get_elem? [] i = none
get_elem? (x ∷ xs) zero = some x
get_elem? (x ∷ xs) (suc i) = get_elem? xs i

-- A set of names, as a list without repetitions.
unfoldable pub contains : List String → String → Bool
contains [] x = false
contains (y ∷ ys) x = (y == x) || contains ys x

unfoldable pub add : List String → String → List String
unfolding contains
add names x = if contains names x then names else names ++ x ∷ []

-- `edges.setdefault(a, set()).add(b)`
add_edge : String → String → Dict String (List String) → Dict String (List String)
unfolding add
add_edge a b edges = Dict.set a (add (elim (Dict.get a edges) [ none ↦ [] | some s ↦ s ]) b) edges

chain : List Container → String → List String
chain around name = map step_name around ++ name ∷ []

module _ (known : Dict String (Step × List Container)) where
  -- The body of the inner loop: one reference of a consumer. The two lookups of `none` are chains
  -- that end where the other goes on: the step itself, or containment.
  add_reference : List String → Reference → Dict String (List String) → Dict String (List String)
  unfolding chain shared_names get_elem? add_edge
  add_reference consumer r edges =
      if names_step r.namespace
      then elim (Dict.get r.name known) [
        | none ↦ edges
        | some (target, around) ↦
            let shared = shared_names consumer (chain around r.name) in
            elim (get_elem? consumer shared) [
              | none ↦ edges
              | some waiting ↦ elim (get_elem? (chain around r.name) shared) [
                | none ↦ edges
                | some awaited ↦ add_edge waiting awaited edges
              ]
            ]
      ]
      else edges

  add_references :
      List String → List Reference → Dict String (List String) → Dict String (List String)
  unfolding add_reference
  add_references consumer [] edges = edges
  add_references consumer (r ∷ rs) edges =
      add_references consumer rs (add_reference consumer r edges)

  add_consumers :
      List (Step × List Container) → Dict String (List String) → Dict String (List String)
  unfolding add_references chain step_references
  add_consumers [] edges = edges
  add_consumers ((s, around) ∷ rest) edges =
      add_consumers rest (add_references (chain around (step_name s)) (step_references s) edges)

unfoldable pub dependencies : FlowDefinition → Dict String (List String)
unfolding add_consumers index walk
dependencies definition = add_consumers (index definition) (walk definition.steps []) []

unfoldable pub waits_on : FlowDefinition → String → List String
unfolding dependencies
waits_on definition name = elim (Dict.get name (dependencies definition)) [
  | none ↦ []
  | some names ↦ names
]
