-- ===== src/Planner/Finished.antt =====
-- neorc_core/_planner.py: which step instances, and everything inside them, have succeeded. `fuel`
-- bounds how deep `resolve` follows fan-outs over lists.
use neorc.Prelude.{
  ℕ, ◌==◌, nat_eq, String, Bool, true, false, Option, none, some, [], ◌∷◌, ◌++◌, if◌then◌else◌,
}
use neorc.Errors.{assertion}
use neorc.Json.{JsonValue}
use neorc.Flow.Definition.{Step, Steps, task, sub_flow, loop, fan_out, nil, cons, FlowDefinition}
use neorc.Flow.RunState.{Scope, RunState, state_get, last}
use neorc.Flow.References.{is_true, succeeded_value, fan_out_width}
use neorc.Flow.References.Resolve.{resolve}
use neorc.Planner.Actions.{Planned, done, raised, ◌>>=◌, lift, all_indexes}

unfoldable pub exit_value : RunState → String → Scope → Planned JsonValue
exit_value state exit_condition iteration =
    elim (succeeded_value (state_get state (record { step = exit_condition; scope = iteration }))) [
      | none ↦ raised assertion
      | some value ↦ done value
    ]

abbrev pub is_succeeded : RunState → String → Scope → Bool
is_succeeded state name scope =
    elim (succeeded_value (state_get state (record { step = name; scope = scope }))) [
      | none ↦ false
      | some _ ↦ true
    ]

module _ (fuel : ℕ) (definition : FlowDefinition) (state : RunState) where
  abbrev pub width : Step → Scope → Planned (Option ℕ)
  width step scope = lift (fan_out_width (resolve definition state fuel) step scope)

  -- The loop's part of `finished`, given whether the body of an iteration has finished.
  unfoldable pub loop_finished : (Scope → Planned Bool) → String → String → Scope → Planned Bool
  unfolding exit_value
  loop_finished body name exit_condition scope =
      let final = last state scope name in
      if final == 0 then done false else do
        all_done ← body (scope ++ (name, final) ∷ [])
        elim all_done [
          | true ↦ (do
            value ← exit_value state exit_condition (scope ++ (name, final) ∷ [])
            done (is_true value))
          | false ↦ done false
        ]

  -- The fan-out's part of `finished`.
  unfoldable pub branches_finished :
      (Scope → Planned Bool) → String → Scope → Option ℕ → Planned Bool
  unfolding all_indexes
  branches_finished body name scope none = done false
  branches_finished body name scope (some n) =
      all_indexes (λ index. body (scope ++ (name, index) ∷ [])) n 1

  unfoldable mutual
    unfolding loop_finished branches_finished

    pub finished : Step → Scope → Planned Bool
    finished (task t) scope = done (is_succeeded state t.name scope)
    finished (sub_flow s) scope = done (is_succeeded state s.name scope)
    finished (loop name m exit_condition steps) scope =
        loop_finished (body_finished steps) name exit_condition scope
    finished (fan_out name range over steps) scope = do
      n ← width (fan_out name range over steps) scope
      branches_finished (body_finished steps) name scope n

    -- `all(self.finished(step, scope) for step in steps)`
    pub body_finished : Steps → Scope → Planned Bool
    body_finished nil scope = done true
    body_finished (cons s rest) scope = do
      b ← finished s scope
      elim b [ true ↦ body_finished rest scope | false ↦ done false ]
