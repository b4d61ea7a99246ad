-- ===== src/Flow/Validation.antt =====
-- neorc_core/flows/_validation.py: the checks a flow must pass beyond its shape. A problem is a
-- value that says which of the code's messages it is, and about what.
pub mod Cycles
pub mod Flows
use neorc.Prelude.{
  String, ◌==◌, string_eq, Bool, true, false, ◌||◌, not, Option, none, some, List, [], ◌∷◌, ◌++◌,
  map, keep, if◌then◌else◌,
}
use neorc.Prelude.Dict
use neorc.Prelude.Dict.{Dict}
use neorc.Errors.{Result, ok, err, ◌>>=◌, flow_definition}
use neorc.Flow.Definition.{
  Namespace, Reference, names_step, TaskStep, SubFlowStep, Step, Steps, task, sub_flow, loop,
  fan_out, nil, cons, step_name, Container, FlowDefinition,
}
use neorc.Flow.Walk.{walk, step, enclosing, step_references, waits_on, contains, add}
use neorc.Flow.Validation.Cycles.{Edges, cycles, sorted}

pub data Problem : Type 0 where
  both_params : String → String → Problem
  exit_not_task : String → String → Problem
  exit_not_in_loop : String → String → Problem
  no_input : String → String → Problem
  self_reference : String → Problem
  feeds_itself : String → Reference → Problem
  no_step : String → String → Problem
  not_a_task : String → String → Problem
  not_a_sub_flow : String → String → Problem
  metadata_of_non_task : String → Problem
  unknown_metadata : String → Reference → Problem
  needs_fan_out : String → Reference → Problem
  needs_list : String → Reference → Problem
  needs_loop : String → Reference → Problem
  output_not_step : Reference → Problem
  step_cycle : Option String → List String → Problem
  flow_twice : String → Problem
  unknown_flow : String → String → Problem
  missing_input : String → String → Problem
  extra_input : String → String → Problem
  flow_cycle : List String → Problem

-- The first step of the body that has the exit condition's name decides.
check_exit : String → String → Steps → List Problem
check_exit name exit_condition nil = exit_not_in_loop name exit_condition ∷ []
check_exit name exit_condition (cons s rest) =
    let others = check_exit name exit_condition rest in
    if step_name s == exit_condition
    then elim s [ task _ ↦ [] | _ ↦ exit_not_task name exit_condition ∷ [] ]
    else others

check_exit_condition : Step → List Problem
unfolding check_exit
check_exit_condition (loop name _ exit_condition steps) = check_exit name exit_condition steps
check_exit_condition _ = []

is_fan_out : Container → Bool
is_fan_out (fan_out _ _ _ _) = true
is_fan_out _ = false

is_loop : Container → Bool
is_loop (loop _ _ _ _) = true
is_loop _ = false

-- Whether the innermost of the fan-outs is over a list.
last_over : List Container → Bool
last_over [] = false
last_over (fan_out _ _ (some _) _ ∷ []) = true
last_over (_ ∷ []) = false
last_over (_ ∷ c ∷ cs) = last_over (c ∷ cs)

any : (Container → Bool) → List Container → Bool
any test [] = false
any test (c ∷ cs) = test c || any test cs

metadata_names : List String
metadata_names = "task_id" ∷ "attempts" ∷ "flow_run_id" ∷ "loop_count" ∷ "index" ∷ "item" ∷ []

check_metadata : Step → List Container → Reference → List Problem
unfolding metadata_names any is_fan_out is_loop last_over contains
check_metadata (task t) around reference =
    let name = reference.name in
    if not (contains metadata_names name)
    then unknown_metadata t.name reference ∷ []
    else if (name == "index")
    then (if any is_fan_out around then [] else needs_fan_out t.name reference ∷ [])
    else if name == "item"
    then (if last_over (keep is_fan_out around) then [] else needs_list t.name reference ∷ [])
    else if name == "loop_count"
    then (if any is_loop around then [] else needs_loop t.name reference ∷ [])
    else []
check_metadata consumer around reference = metadata_of_non_task (step_name consumer) ∷ []

is_task : Step → Bool
is_task (task _) = true
is_task _ = false

is_sub_flow : Step → Bool
is_sub_flow (sub_flow _) = true
is_sub_flow _ = false

check_target_step : String → Reference → Step → List Problem
unfolding is_task is_sub_flow
check_target_step at reference target = elim reference.namespace [
  | Namespace.tasks ↦ if is_task target then [] else not_a_task at reference.name ∷ []
  | Namespace.flows ↦ if is_sub_flow target then [] else not_a_sub_flow at reference.name ∷ []
  | _ ↦ []
]

check_target : FlowDefinition → String → Reference → List Problem
unfolding check_target_step step
check_target definition at reference = elim (step definition reference.name) [
  | err _ ↦ no_step at reference.name ∷ []
  | ok target ↦ check_target_step at reference target
]

around_names : FlowDefinition → String → List String
unfolding enclosing
around_names definition name = elim (enclosing definition name) [
  | err _ ↦ []
  | ok around ↦ map step_name around
]

-- Behind the check of the target: a step of the flow.
check_step_reference : FlowDefinition → Step → Reference → List Problem
unfolding check_target around_names is_fan_out contains
check_step_reference definition consumer reference =
    let at = step_name consumer in
    elim (check_target definition at reference) [
      | problem ∷ more ↦ problem ∷ more
      | [] ↦
          if reference.name == at
          then self_reference at ∷ []
          else if is_fan_out consumer
          then (if contains (around_names definition reference.name) at
              then feeds_itself at reference ∷ []
              else [])
          else []
    ]

check_reference : FlowDefinition → Step → List Container → Reference → List Problem
unfolding check_step_reference check_metadata
check_reference definition consumer around reference = elim reference.namespace [
  | Namespace.inputs ↦ elim (Dict.get reference.name definition.inputs) [
    | none ↦ no_input (step_name consumer) reference.name ∷ []
    | some _ ↦ []
  ]
  | Namespace.metadata ↦ check_metadata consumer around reference
  | _ ↦ check_step_reference definition consumer reference
]

both : List String → List String → List String
unfolding contains
both xs ys = sorted (keep (contains ys) xs)

check_params : Step → List Problem
unfolding both
check_params (task t) =
    map (both_params t.name) (both (Dict.keys t.params) (Dict.keys t.fixed_params))
check_params (sub_flow s) =
    map (both_params s.name) (both (Dict.keys s.params) (Dict.keys s.fixed_params))
check_params _ = []

check_references : FlowDefinition → Step → List Container → List Reference → List Problem
unfolding check_reference
check_references definition consumer around [] = []
check_references definition consumer around (r ∷ rs) =
    check_reference definition consumer around r ++ check_references definition consumer around rs

unfoldable pub check_steps : FlowDefinition → List (Step × List Container) → List Problem
unfolding check_params check_exit_condition check_references step_references
check_steps definition [] = []
check_steps definition ((s, around) ∷ rest) =
    check_params s
    ++ (check_exit_condition s
        ++ (check_references definition s around (step_references s)
            ++ check_steps definition rest))

unfoldable pub check_output : FlowDefinition → Reference → List Problem
unfolding check_target
check_output definition output =
    if names_step output.namespace
    then check_target definition "output" output
    else output_not_step output ∷ []

unfoldable pub scope_name : List Container → Option String
scope_name [] = none
scope_name (c ∷ []) = some (step_name c)
scope_name (_ ∷ c ∷ cs) = scope_name (c ∷ cs)
