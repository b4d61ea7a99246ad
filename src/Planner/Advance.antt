-- ===== src/Planner/Advance.antt =====
-- neorc_core/_planner.py: how the planner moves the steps of a scope forward.
use neorc.Prelude.{
  ℕ, ◌+◌, ◌==◌, nat_eq, string_eq, String, Bool, true, false, Option, none, some, List, [], ◌∷◌,
  ◌++◌, leb, if◌then◌else◌,
}
use neorc.Prelude.Dict
use neorc.Prelude.Dict.{Dict}
use neorc.Errors.{key_error}
use neorc.Json.{JsonValue, bool}
use neorc.Flow.Definition.{
  Reference, Step, Steps, task, sub_flow, loop, fan_out, nil, cons, step_name, FlowDefinition,
}
use neorc.Flow.Walk.{waits_on}
use neorc.Flow.RunState.{Scope, Address, address_eq, RunState, state_get, last}
use neorc.Flow.References.Resolve.{resolve}
use neorc.Planner.Actions.{
  Action, publish_task, start_sub_run, max_cycles_reached, exit_not_boolean, Planned, done,
  run_failed, raised, ◌>>=◌, lift, each_index, filled_in_later,
}
use neorc.Planner.Finished.{exit_value, width, finished, body_finished}

abbrev pub is_false : JsonValue → Bool
is_false (bool false) = true
is_false _ = false

module _ (fuel : ℕ) (definition : FlowDefinition) (state : RunState) where
  -- `{step.name: self.finished(step, scope) for step in steps}`
  unfoldable pub finished_map : Steps → Scope → Dict String Bool → Planned (Dict String Bool)
  unfolding finished
  finished_map nil scope d = done d
  finished_map (cons s rest) scope d = do
    b ← finished fuel definition state s scope
    finished_map rest scope (Dict.set (step_name s) b d)

  unfoldable pub look_up : Dict String Bool → String → Planned Bool
  look_up known name = elim (Dict.get name known) [ none ↦ raised key_error | some b ↦ done b ]

  unfoldable pub all_known : Dict String Bool → List String → Planned Bool
  unfolding look_up
  all_known known [] = done true
  all_known known (name ∷ names) = do
    b ← look_up known name
    elim b [ true ↦ all_known known names | false ↦ done false ]

  -- The body of the loop in `scope`: `advance` is what advancing the step does.
  unfoldable pub visit : Dict String Bool → String → Planned (List Action) → Planned (List Action)
  unfolding look_up all_known waits_on
  visit known name advance = do
    b ← look_up known name
    elim b [
      | true ↦ done []
      | false ↦ (do
        ready ← all_known known (waits_on definition name)
        elim ready [ true ↦ advance | false ↦ done [] ])
    ]

  -- Whether every input resolves.
  unfoldable pub inputs_ready : Address → List Reference → Planned Bool
  unfolding filled_in_later
  inputs_ready address [] = done true
  inputs_ready address (r ∷ rs) = if filled_in_later r then inputs_ready address rs else do
    value ← lift (resolve definition state fuel (some address) r)
    elim value [ none ↦ done false | some _ ↦ inputs_ready address rs ]

  unfoldable pub start : Action → Address → List Reference → Planned (List Action)
  unfolding inputs_ready
  start action address references = elim (state_get state address) [
    | some _ ↦ done []
    | none ↦ (do ready ← inputs_ready address references; done (if ready then action ∷ [] else []))
  ]

  -- An iteration has finished: what follows it.
  unfoldable pub next_iteration :
      (Scope → Planned (List Action)) → String → ℕ → String → Scope → ℕ → Planned (List Action)
  unfolding exit_value
  next_iteration enter name max_cycles exit_condition scope final = do
    value ← exit_value state exit_condition (scope ++ (name, final) ∷ [])
    if is_false value
        then (if leb max_cycles final
            then run_failed (max_cycles_reached name max_cycles)
            else enter (scope ++ (name, final + 1) ∷ []))
        else run_failed (
            exit_not_boolean (record { step = exit_condition; scope = scope ++ (name, final) ∷ [] })
              value)

  -- `advance_loop`: `enter` is `scope` and `body` is `body_finished`, both of the loop's steps.
  unfoldable pub advance_loop :
      (Scope → Planned (List Action))
      → (Scope → Planned Bool)
      → String
      → ℕ
      → String
      → Scope
      → Planned (List Action)
  unfolding next_iteration
  advance_loop enter body name max_cycles exit_condition scope =
      let final = last state scope name in
      if final == 0 then enter (scope ++ (name, 1) ∷ []) else do
        all_done ← body (scope ++ (name, final) ∷ [])
        elim all_done [
          | true ↦ next_iteration enter name max_cycles exit_condition scope final
          | false ↦ enter (scope ++ (name, final) ∷ [])
        ]

  -- The fan-out's part of `advance`; `(width or 0)`.
  unfoldable pub advance_branches :
      (Scope → Planned (List Action)) → String → Scope → Option ℕ → Planned (List Action)
  unfolding each_index
  advance_branches enter name scope none = done []
  advance_branches enter name scope (some n) =
      each_index (λ index. enter (scope ++ (name, index) ∷ [])) n 1

  unfoldable mutual
    unfolding start advance_loop advance_branches finished_map visit finished

    pub advance : Step → Scope → Planned (List Action)
    advance (task t) scope =
        let address : Address = record { step = t.name; scope = scope } in
        start (publish_task address t) address (Dict.values t.params)
    advance (sub_flow s) scope =
        let address : Address = record { step = s.name; scope = scope } in
        start (start_sub_run address s) address (Dict.values s.params)
    advance (loop name max_cycles exit_condition steps) scope =
        advance_loop (λ it. finished_map steps it [] >>= λ known. advance_steps known steps it)
          (body_finished fuel definition state steps) name max_cycles exit_condition scope
    advance (fan_out name range over steps) scope = do
      n ← width fuel definition state (fan_out name range over steps) scope
      advance_branches (λ it. finished_map steps it [] >>= λ known. advance_steps known steps it)
          name scope n

    -- The loop of `scope` over its steps, `known` saying which have finished.
    pub advance_steps : Dict String Bool → Steps → Scope → Planned (List Action)
    advance_steps known nil scope = done []
    advance_steps known (cons s rest) scope = do
      here ← visit known (step_name s) (advance s scope)
      later ← advance_steps known rest scope
      done (here ++ later)

  -- `scope` of the planner.
  unfoldable pub scope_actions : Steps → Scope → Planned (List Action)
  unfolding finished_map advance_steps
  scope_actions steps scope =
      finished_map steps scope [] >>= λ known. advance_steps known steps scope
