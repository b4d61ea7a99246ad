-- ===== src/Planner/Enabled.antt =====
-- When a task may be published, or a sub-flow started: a description that does not follow the
-- planner's walk. An action is enabled in a scope by a step of the scope that waits on nothing
-- unfinished, itself or through the containers that lead to it.
use neorc.Prelude.{
  ℕ, ◌+◌, ◌≤◌, String, ◌≡◌, ◌≢◌, ◌⊎◌, true, false, none, some, List, All, [], ◌∷◌, ◌++◌, Option,
}
use neorc.Prelude.Dict
use neorc.Errors.{ok}
use neorc.Json.{JsonValue, bool}
use neorc.Flow.Definition.{
  Reference, TaskStep, SubFlowStep, Step, Steps, task, sub_flow, loop, fan_out, nil, cons,
  step_name, FlowDefinition,
}
use neorc.Flow.Walk.{waits_on}
use neorc.Flow.RunState.{Scope, Address, address_eq, RunState, state_get, last}
use neorc.Flow.References.Resolve.{resolve}
use neorc.Planner.Actions.{Action, publish_task, start_sub_run, done, filled_in_later}
use neorc.Planner.Finished.{exit_value, width, finished, body_finished}

abbrev pub Member : Step → Steps → Type 0
Member s nil = ⊥
Member s (cons x rest) = (x ≡ s) ⊎ Member s rest

module _ (fuel : ℕ) (definition : FlowDefinition) (state : RunState) where
  -- Every input that the run's state holds is available.
  abbrev pub IsAvailable : Address → List Reference → Type 0
  IsAvailable address = All (λ r.
      (filled_in_later r ≡ true)
      ⊎ ((v : JsonValue) × (resolve definition state fuel (some address) r ≡ ok (some v))))

  -- Every step that the named one waits on stands in the same scope, and has finished there.
  abbrev pub IsWaited : Steps → Scope → String → Type 0
  IsWaited steps scope name =
      All
        (λ awaited.
          (s : Step) × Member s steps
          × (step_name s ≡ awaited)
          × (finished fuel definition state s scope ≡ done true))
        (waits_on definition name)

  -- The iterations that a loop may run: the first, the one under way, or, once that has finished
  -- and its exit task has said no, the next one while there are cycles left.
  pub data MayRun (name : String) (max_cycles : ℕ) (exit_condition : String) (steps : Steps)
      (scope : Scope) (n : ℕ) : Type 0 where
    first : last state scope name ≡ 0 → n ≡ 1 → MayRun name max_cycles exit_condition steps scope n
    current :
        last state scope name ≡ n
        → n ≢ 0
        → body_finished fuel definition state steps (scope ++ (name, n) ∷ []) ≡ done false
        → MayRun name max_cycles exit_condition steps scope n
    following :
        (before : ℕ)
        → last state scope name ≡ before
        → n ≡ before + 1
        → n ≤ max_cycles
        → body_finished fuel definition state steps (scope ++ (name, before) ∷ []) ≡ done true
        → exit_value state exit_condition (scope ++ (name, before) ∷ []) ≡ done (bool false)
        → MayRun name max_cycles exit_condition steps scope n

  pub data Enabled : Steps → Scope → Action → Type 0 where
    publishes :
        {steps : Steps} {scope : Scope} {a : Action} (t : TaskStep) (address : Address)
        → Member (task t) steps
        → IsWaited steps scope t.name
        → address ≡ record { step = t.name; scope = scope }
        → state_get state address ≡ none
        → IsAvailable address (Dict.values t.params)
        → a ≡ publish_task address t
        → Enabled steps scope a
    starts :
        {steps : Steps} {scope : Scope} {a : Action} (s : SubFlowStep) (address : Address)
        → Member (sub_flow s) steps
        → IsWaited steps scope s.name
        → address ≡ record { step = s.name; scope = scope }
        → state_get state address ≡ none
        → IsAvailable address (Dict.values s.params)
        → a ≡ start_sub_run address s
        → Enabled steps scope a
    in_loop :
        {steps : Steps} {scope : Scope} {a : Action} (name : String) (max_cycles : ℕ)
        (exit_condition : String) (body : Steps) (n : ℕ)
        → Member (loop name max_cycles exit_condition body) steps
        → IsWaited steps scope name
        → MayRun name max_cycles exit_condition body scope n
        → Enabled body (scope ++ (name, n) ∷ []) a
        → Enabled steps scope a
    in_fan_out :
        {steps : Steps} {scope : Scope} {a : Action} (name : String) (range : Option ℕ)
        (over : Option Reference) (body : Steps) (n w : ℕ)
        → Member (fan_out name range over body) steps
        → IsWaited steps scope name
        → width fuel definition state (fan_out name range over body) scope ≡ done (some w)
        → 1 ≤ n
        → n ≤ w
        → Enabled body (scope ++ (name, n) ∷ []) a
        → Enabled steps scope a
