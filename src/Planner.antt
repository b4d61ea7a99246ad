-- ===== src/Planner.antt =====
-- neorc_core/_planner.py: what happens next for a run, from its definition and its state.
pub mod Actions
pub mod Finished
pub mod Advance
pub mod Enabled
pub mod Soundness
pub mod Decisions
pub mod Completeness
use neorc.Prelude.{ℕ, Bool, true, false, Option, none, some, [], ◌∷◌, List, if◌then◌else◌}
use neorc.Prelude.Dict.{Dict}
use neorc.Errors.{Error, Result, ok, err, resolution}
use neorc.Flow.Definition.{FlowDefinition}
use neorc.Flow.RunState.{Address, address_lt, failed, StepResult, RunState}
use neorc.Planner.Actions.{
  Action, succeed_run, fail_run, step_failed, unresolved, Planned, done, run_failed, raised, ◌>>=◌,
}
use neorc.Planner.Finished.{finished, body_finished}
use neorc.Planner.Advance.{scope_actions}

-- The first of the failed addresses, in their order.
lesser : Option Address → Address → StepResult → Option Address
unfolding address_lt
lesser least a r = elim r.outcome [
  | failed ↦ elim least [ none ↦ some a | some b ↦ some (if address_lt a b then a else b) ]
  | _ ↦ least
]

first_failed : Option Address → Dict Address StepResult → Option Address
unfolding lesser
first_failed least [] = least
first_failed least ((a, r) ∷ rest) = first_failed (lesser least a r) rest

-- `isinstance(error, ResolutionError)`
abbrev is_resolution : Error → Bool
is_resolution resolution = true
is_resolution _ = false

catch : Planned (List Action) → Result (List Action)
catch (done actions) = ok actions
catch (run_failed reason) = ok (fail_run reason ∷ [])
catch (raised e) = if is_resolution e then ok (fail_run unresolved ∷ []) else err e

module _ (fuel : ℕ) (definition : FlowDefinition) (state : RunState) where
  -- The part of `plan` inside its `try`.
  plan_steps : Planned (List Action)
  unfolding finished scope_actions
  plan_steps = do
    all_done ← body_finished fuel definition state definition.steps []
    elim all_done [
      | true ↦ done (succeed_run definition.output ∷ [])
      | false ↦ scope_actions fuel definition state definition.steps []
    ]

  unfoldable pub plan : Result (List Action)
  unfolding first_failed plan_steps catch
  plan = elim (first_failed none state.steps) [
    | some address ↦ ok (fail_run (step_failed address) ∷ [])
    | none ↦ catch plan_steps
  ]
