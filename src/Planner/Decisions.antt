-- ===== src/Planner/Decisions.antt =====
-- What `Planner.plan` returns, on each of its ways out.
use neorc.Prelude.{
  ℕ, ◌≡◌, ◌⊎◌, refl, inl, inr, true, false, Bool, Bool-cases, Option, none, some, List, All, In, [],
  ◌∷◌, arith, subst, sym, ap, ◌∙◌,
}
use neorc.Prelude.Dict.{Dict}
use mathlib.Core.Option.{some-injective}
use neorc.Errors.{ok, ok-injective}
use neorc.Flow.Definition.{FlowDefinition}
use neorc.Flow.RunState.{
  Address, Outcome, running, succeeded, failed, StepResult, RunState, address_lt,
}
use neorc.Planner.{is_resolution, lesser, first_failed, catch, plan_steps, plan}
use neorc.Planner.Actions.{
  Action, succeed_run, fail_run, Reason, step_failed, Planned, done, run_failed, raised,
  >>=-eq-done, done-injective,
}
use neorc.Planner.Finished.{body_finished}
use neorc.Planner.Advance.{scope_actions}
use neorc.Planner.Enabled.{Enabled}
use neorc.Planner.Soundness.{scope_actions-Enabled}

-- Some step of the state has failed at the address.
abbrev pub IsFailedAt : Dict Address StepResult → Address → Type 0
IsFailedAt steps a = (r : StepResult) × In (a, r) steps × (r.outcome ≡ failed)

abbrev pub HasNoFailed : Dict Address StepResult → Type 0
HasNoFailed = All (λ (a, r). (r.outcome ≡ failed) → ⊥)

-- An address keeps the least one so far, or is itself failed.
lesser-cases :
    (least : Option Address) (a : Address) (r : StepResult) (rest : Dict Address StepResult)
    → ((lesser least a r ≡ least) × ((r.outcome ≡ failed) → ⊥))
      ⊎ ((b : Address) × (lesser least a r ≡ some b)
          × ((least ≡ some b) ⊎ IsFailedAt ((a, r) ∷ rest) b))
unfolding lesser
lesser-cases least a r rest = go r.outcome refl least
  where
    go :
        (o : Outcome)
        → r.outcome ≡ o
        → (l : Option Address)
        → ((lesser l a r ≡ l) × ((r.outcome ≡ failed) → ⊥))
          ⊎ ((b : Address) × (lesser l a r ≡ some b)
              × ((l ≡ some b) ⊎ IsFailedAt ((a, r) ∷ rest) b))
    go running p l = inl (rw p refl, ground arith)
    go succeeded p l = inl (rw p refl, ground arith)
    go failed p none = inr (a, rw p refl, inr (r, inl refl, p))
    go failed p (some b) = elim (Bool-cases (address_lt a b)) [
      | inl lt ↦ inr (a, rw (p, lt) refl, inr (r, inl refl, p))
      | inr ge ↦ inr (b, rw (p, ge) refl, inl refl)
    ]

-- The least failed address so far stays, or a failed one of the rest is found.
first_failed-cases :
    (least : Option Address) (steps : Dict Address StepResult)
    → ((first_failed least steps ≡ none) × (least ≡ none) × HasNoFailed steps)
      ⊎ ((a : Address) × (first_failed least steps ≡ some a)
          × ((least ≡ some a) ⊎ IsFailedAt steps a))
unfolding first_failed
first_failed-cases none [] = inl (refl, refl, tt)
first_failed-cases (some a) [] = inr (a, refl, inl refl)
first_failed-cases least ((a, r) ∷ rest) = elim (first_failed-cases (lesser least a r) rest) [
  | inl (e, l, clear) ↦ elim (lesser-cases least a r rest) [
    | inl (q, n) ↦ inl (e, sym q ∙ l, (n, clear))
    | inr (b, q, _) ↦ absurd (ground arith)
  ]
  | inr (b, e, inr (x, i, f)) ↦ inr (b, e, inr (x, inr i, f))
  | inr (b, e, inl l) ↦ elim (lesser-cases least a r rest) [
    | inl (q, n) ↦ inr (b, e, inl (sym q ∙ l))
    | inr (c, q, h) ↦ inr (
      b,
      e,
      subst (λ x. (least ≡ some x) ⊎ IsFailedAt ((a, r) ∷ rest) x) (some-injective _ _ (sym q ∙ l))
          h,
    )
  ]
]

module _ (fuel : ℕ) (definition : FlowDefinition) (state : RunState) where
  -- What a plan may be.
  pub data Decision (actions : List Action) : Type 0 where
    step_has_failed :
        (a : Address)
        → IsFailedAt state.steps a
        → actions ≡ fail_run (step_failed a) ∷ []
        → Decision actions
    has_finished :
        HasNoFailed state.steps
        → body_finished fuel definition state definition.steps [] ≡ done true
        → actions ≡ succeed_run definition.output ∷ []
        → Decision actions
    cannot_continue :
        HasNoFailed state.steps → (r : Reason) → actions ≡ fail_run r ∷ [] → Decision actions
    continues :
        HasNoFailed state.steps
        → body_finished fuel definition state definition.steps [] ≡ done false
        → All (Enabled fuel definition state definition.steps []) actions
        → Decision actions

  plan_steps-Decision :
      (actions : List Action)
      → HasNoFailed state.steps
      → plan_steps fuel definition state ≡ done actions
      → Decision actions
  unfolding plan_steps
  plan_steps-Decision actions clear e =
      let (b, f, r) = >>=-eq-done (body_finished fuel definition state definition.steps []) _ e in
      go b f r
    where
      go :
          (b : Bool)
          → body_finished fuel definition state definition.steps [] ≡ done b
          → elim b as (λ _. Planned (List Action)) [
            | true ↦ done (succeed_run definition.output ∷ [])
            | false ↦ scope_actions fuel definition state definition.steps []
          ]
            ≡ done actions
          → Decision actions
      go true f r = has_finished clear f (sym (done-injective r))
      go false f r =
          continues clear f
            (scope_actions-Enabled fuel definition state definition.steps [] actions r)

  caught-Decision :
      (m : Planned (List Action)) (actions : List Action)
      → HasNoFailed state.steps
      → (m ≡ done actions → Decision actions)
      → catch m ≡ ok actions
      → Decision actions
  unfolding catch
  caught-Decision (done xs) actions clear h e = h (ap done (ok-injective e))
  caught-Decision (run_failed r) actions clear h e = cannot_continue clear r (sym (ok-injective e))
  caught-Decision (raised x) actions clear h e = elim (Bool-cases (is_resolution x)) [
    | inl yes_it ↦ cannot_continue clear _ (sym (ok-injective (rw yes_it at e)))
    | inr no_it ↦ absurd (ground arith)
  ]

  -- A plan is one of four: it fails the run for a step of the state that has failed; where none has
  -- failed, it succeeds the run with the flow's output, every step of the flow having finished; or it
  -- fails the run for another reason; or it publishes tasks and starts sub-flows each of which is
  -- enabled: its step is not started yet, waits on no unfinished step, has every input available,
  -- and stands in an iteration or a branch that may run.
  pub plan-Decision :
      (actions : List Action) → plan fuel definition state ≡ ok actions → Decision actions
  unfolding plan
  plan-Decision actions e = elim (first_failed-cases none state.steps) [
    | inr (a, p, inr f) ↦ step_has_failed a f (sym (ok-injective (rw (p, plan) at e)))
    | inr (a, p, inl q) ↦ absurd (ground arith)
    | inl (p, _, clear) ↦
        caught-Decision (plan_steps fuel definition state) actions clear
          (plan_steps-Decision actions clear) (rw (p, plan) at e)
  ]
