-- ===== src/Flow/Validation/Flows.antt =====
-- neorc_core/flows/_validation.py: `check_flow` on one flow and `check_flow_set` on flows deployed
-- together, and `validate_flow_set` of _loader.py.
use neorc.Prelude.{
  String, string_eq, option_eq, Option, none, some, List, [], ◌∷◌, ◌++◌, map, keep, not,
}
use neorc.Prelude.Dict
use neorc.Prelude.Dict.{Dict}
use neorc.Errors.{Result, ok, err, flow_definition, ◌>>=◌}
use neorc.Flow.Definition.{SubFlowStep, Step, sub_flow, step_name, Container, FlowDefinition}
use neorc.Flow.Walk.{walk, waits_on, contains, add}
use neorc.Flow.Validation.{
  Problem, step_cycle, flow_twice, unknown_flow, missing_input, extra_input, flow_cycle,
  check_steps, check_output, scope_name,
}
use neorc.Flow.Validation.Cycles.{Edges, cycles, sorted}

-- `graphs.setdefault(scope, {})[step.name] = set(waits_on)`
add_graph :
    Option String → String → List String → Dict (Option String) Edges → Dict (Option String) Edges
add_graph scope name names graphs =
    Dict.set scope
      (Dict.set name names (elim (Dict.get scope graphs) [ none ↦ [] | some edges ↦ edges ])) graphs

add_waiting :
    Option String → String → List String → Dict (Option String) Edges → Dict (Option String) Edges
unfolding add_graph
add_waiting scope name [] graphs = graphs
add_waiting scope name (w ∷ ws) graphs = add_graph scope name (w ∷ ws) graphs

-- The steps of each scope that wait on others. The whole flow is `none`.
step_graphs :
    FlowDefinition
    → List (Step × List Container)
    → Dict (Option String) Edges
    → Dict (Option String) Edges
unfolding add_waiting scope_name waits_on
step_graphs definition [] graphs = graphs
step_graphs definition ((s, around) ∷ rest) graphs =
    step_graphs definition rest
      (add_waiting (scope_name around) (step_name s) (waits_on definition (step_name s)) graphs)

graph_cycles : Dict (Option String) Edges → Result (List Problem)
unfolding cycles
graph_cycles [] = ok []
graph_cycles ((scope, edges) ∷ rest) = do
  here ← cycles edges
  later ← graph_cycles rest
  ok (map (step_cycle scope) here ++ later)

check_cycles : FlowDefinition → Result (List Problem)
unfolding step_graphs graph_cycles walk
check_cycles definition = graph_cycles (step_graphs definition (walk definition.steps []) [])

unfoldable pub check_flow : FlowDefinition → Result (List Problem)
unfolding check_cycles walk check_steps check_output
check_flow definition = do
  cyclic ← check_cycles definition
  ok (
      check_steps definition (walk definition.steps [])
      ++ (elim definition.output [ none ↦ [] | some output ↦ check_output definition output ]
          ++ cyclic))

-- `by_name`, and the names that are defined more than once.
by_name : List FlowDefinition → Dict String FlowDefinition → Dict String FlowDefinition
by_name [] d = d
by_name (f ∷ fs) d = by_name fs (Dict.set f.name f d)

repeated : List FlowDefinition → Dict String FlowDefinition → List Problem
repeated [] d = []
repeated (f ∷ fs) d =
    elim (Dict.get f.name d) [ none ↦ [] | some _ ↦ flow_twice f.name ∷ [] ]
    ++ repeated fs (Dict.set f.name f d)

-- The names of `xs` that are not in `ys`, in order.
missing : List String → List String → List String
unfolding contains
missing xs ys = sorted (keep (λ x. not (contains ys x)) xs)

given : SubFlowStep → List String
unfolding add
given s = adding (Dict.keys s.params) (Dict.keys s.fixed_params)
  where
    adding : List String → List String → List String
    adding xs [] = xs
    adding xs (y ∷ ys) = adding (add xs y) ys

module _ (flows : Dict String FlowDefinition) where
  check_call : String → SubFlowStep → List Problem
  unfolding missing given
  check_call caller s = elim (Dict.get s.flow flows) [
    | none ↦ unknown_flow caller s.flow ∷ []
    | some called ↦
        map (missing_input s.name) (missing (Dict.keys called.inputs) (given s))
        ++ map (extra_input s.name) (missing (given s) (Dict.keys called.inputs))
  ]

  check_calls : String → List (Step × List Container) → List Problem
  unfolding check_call
  check_calls caller [] = []
  check_calls caller ((sub_flow s, around) ∷ rest) = check_call caller s ++ check_calls caller rest
  check_calls caller ((_, around) ∷ rest) = check_calls caller rest

  -- The set of known flows that a flow calls.
  called_by : List (Step × List Container) → List String → List String
  unfolding add
  called_by [] names = names
  called_by ((sub_flow s, around) ∷ rest) names =
      called_by rest
        (elim (Dict.get s.flow flows) [ none ↦ names | some called ↦ add names called.name ])
  called_by ((_, around) ∷ rest) names = called_by rest names

  check_each : List FlowDefinition → List Problem
  unfolding check_calls walk
  check_each [] = []
  check_each (f ∷ fs) = check_calls f.name (walk f.steps []) ++ check_each fs

  call_graph : List FlowDefinition → Edges
  unfolding called_by walk
  call_graph [] = []
  call_graph (f ∷ fs) = (f.name, called_by (walk f.steps []) []) ∷ call_graph fs

unfoldable pub check_flow_set : List FlowDefinition → Result (List Problem)
unfolding by_name repeated check_each call_graph cycles
check_flow_set definitions = do
  let flows = by_name definitions []
  calls ← cycles (call_graph flows (Dict.values flows))
  ok (repeated definitions [] ++ (check_each flows (Dict.values flows) ++ map flow_cycle calls))

unfoldable pub validate_flow_set : List FlowDefinition → Result (Unit {0})
unfolding check_flow_set
validate_flow_set definitions = do
  problems ← check_flow_set definitions
  elim problems [ [] ↦ ok tt | _ ∷ _ ↦ err flow_definition ]
