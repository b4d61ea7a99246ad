-- ===== src/Planner/Completeness.antt =====
-- A task of a scope that is ready is planned, where no two steps of the scope share a name.
use neorc.Prelude.{
  ℕ, String, string_eq, nat_eq, ◌≡◌, ◌≢◌, refl, sym, ◌∙◌, ap, subst, inl, inr, Bool, Bool-cases,
  true, false, none, some, List, All, In, [], ◌∷◌, ◌++◌,
}
use neorc.Prelude.Dict
use neorc.Prelude.Dict.{Dict}
use neorc.Prelude.Dict.Keyed.{get-set_self, get-set_ne}
use neorc.Flow.Definition.{
  Reference, TaskStep, Step, Steps, task, nil, cons, step_name, FlowDefinition,
}
use neorc.Flow.Walk.{waits_on}
use neorc.Flow.References.{succeeded_value}
use neorc.Flow.RunState.{Scope, Address, address_eq, RunState, state_get}
use neorc.Planner.Actions.{
  Action, publish_task, Planned, done, >>=-eq-done, done-injective, filled_in_later,
}
use neorc.Planner.Finished.{finished, is_succeeded}
use neorc.Planner.Advance.{
  finished_map, look_up, all_known, visit, inputs_ready, start, advance, advance_steps,
  scope_actions,
}
use neorc.Planner.Enabled.{Member, IsAvailable, IsWaited}

-- No step has the name.
abbrev pub IsApart : String → Steps → Type 0
IsApart name nil = Unit
IsApart name (cons s rest) = (step_name s ≢ name) × IsApart name rest

-- No two steps have one name.
abbrev pub AreDistinct : Steps → Type 0
AreDistinct nil = Unit
AreDistinct (cons s rest) = IsApart (step_name s) rest × AreDistinct rest

In-left : (a : Action) (here later : List Action) → In a here → In a (here ++ later)
In-left a [] later p = elim p [ ]
In-left a (x ∷ here) later (inl p) = inl p
In-left a (x ∷ here) later (inr p) = inr (In-left a here later p)

In-right : (a : Action) (here later : List Action) → In a later → In a (here ++ later)
In-right a [] later p = p
In-right a (x ∷ here) later p = inr (In-right a here later p)

module _ (fuel : ℕ) (definition : FlowDefinition) (state : RunState) where
  finished_map-keeps :
      (rest : Steps) (scope : Scope) (acc known : Dict String Bool) (name : String)
      → IsApart name rest
      → finished_map fuel definition state rest scope acc ≡ done known
      → Dict.get name known ≡ Dict.get name acc
  unfolding finished_map
  finished_map-keeps nil scope acc known name apart e = ap (Dict.get name) (sym (done-injective e))
  finished_map-keeps (cons s rest) scope acc known name apart e =
      let (b, f, r) = >>=-eq-done (finished fuel definition state s scope) _ e in
      finished_map-keeps rest scope (Dict.set (step_name s) b acc) known name apart.1 r
      ∙ get-set_ne b acc apart.0

  -- The table holds what `finished` says of each step.
  finished_map-get :
      (rest : Steps) (scope : Scope) (acc known : Dict String Bool) (s : Step)
      → AreDistinct rest
      → Member s rest
      → finished_map fuel definition state rest scope acc ≡ done known
      → (b : Bool) × (finished fuel definition state s scope ≡ done b)
        × (Dict.get (step_name s) known ≡ some b)
  unfolding finished_map
  finished_map-get nil scope acc known s distinct m e = elim m [ ]
  finished_map-get (cons x rest) scope acc known s distinct (inl p) e =
      let (b, f, r) = >>=-eq-done (finished fuel definition state x scope) _ e in
      subst
        (λ y.
          (c : Bool) × (finished fuel definition state y scope ≡ done c)
          × (Dict.get (step_name y) known ≡ some c))
        p
        (
          b,
          f,
          finished_map-keeps rest scope (Dict.set (step_name x) b acc) known (step_name x)
                distinct.0 r
              ∙ get-set_self (step_name x) b acc,
        )
  finished_map-get (cons x rest) scope acc known s distinct (inr m) e =
      let (b, f, r) = >>=-eq-done (finished fuel definition state x scope) _ e in
      finished_map-get rest scope (Dict.set (step_name x) b acc) known s distinct.1 m r

  inputs_ready-available :
      (address : Address) (rs : List Reference)
      → IsAvailable fuel definition state address rs
      → inputs_ready fuel definition state address rs ≡ done true
  unfolding inputs_ready
  inputs_ready-available address [] h = refl
  inputs_ready-available address (r ∷ rs) (inl filled, rest) =
      rw filled (inputs_ready-available address rs rest)
  inputs_ready-available address (r ∷ rs) (inr (v, found), rest) =
      elim (Bool-cases (filled_in_later r)) [
        | inl filled ↦ rw filled (inputs_ready-available address rs rest)
        | inr asked ↦ rw (asked, found) (inputs_ready-available address rs rest)
      ]

  start-ready :
      (action : Action) (address : Address) (rs : List Reference)
      → state_get state address ≡ none
      → IsAvailable fuel definition state address rs
      → start fuel definition state action address rs ≡ done (action ∷ [])
  unfolding start
  start-ready action address rs unstarted available =
      rw (unstarted, start, inputs_ready-available address rs available)

  module _ (all : Steps) (scope : Scope) (known : Dict String Bool) (distinct : AreDistinct all)
      (table : finished_map fuel definition state all scope [] ≡ done known) where
    look_up-finished :
        (s : Step) (b : Bool)
        → Member s all
        → finished fuel definition state s scope ≡ done b
        → look_up fuel definition state known (step_name s) ≡ done b
    unfolding look_up
    look_up-finished s b m f =
        let (c, g, found) = finished_map-get all scope [] known s distinct m table in
        rw (found, look_up, done-injective (sym g ∙ f))

    all_known-waited :
        (names : List String)
        → All
            (λ awaited.
              (s : Step) × Member s all
              × (step_name s ≡ awaited)
              × (finished fuel definition state s scope ≡ done true))
            names
        → all_known fuel definition state known names ≡ done true
    unfolding all_known
    all_known-waited [] h = refl
    all_known-waited (name ∷ names) ((s, m, named, f), rest) =
        let found : look_up fuel definition state known name ≡ done true =
          subst (λ n. look_up fuel definition state known n ≡ done true) named
            (look_up-finished s true m f) in
        rw found (all_known-waited names rest)

    visit-ready :
        (s : Step) (act : Planned (List Action))
        → Member s all
        → finished fuel definition state s scope ≡ done false
        → IsWaited fuel definition state all scope (step_name s)
        → visit fuel definition state known (step_name s) act ≡ act
    unfolding visit
    visit-ready s act m f waited =
        rw (
          look_up-finished s false m f,
          all_known-waited (waits_on definition (step_name s)) waited,
        )

    -- What a visit of the scope plans is in the scope's plan.
    advance_steps-visit :
        (rest : Steps) (acts : List Action) (s : Step) (a : Action)
        → Member s rest
        → advance_steps fuel definition state known rest scope ≡ done acts
        → visit fuel definition state known (step_name s) (advance fuel definition state s scope)
          ≡ done (a ∷ [])
        → In a acts
    unfolding advance_steps
    advance_steps-visit nil acts s a m e v = elim m [ ]
    advance_steps-visit (cons x rest) acts s a (inl p) e v =
        let (xs, w, r) =
          >>=-eq-done
            (visit fuel definition state known (step_name x)
              (advance fuel definition state x scope))
            _ e in
        let (ys, l, r') = >>=-eq-done (advance_steps fuel definition state known rest scope) _ r in
        let same : xs ≡ a ∷ [] = done-injective (
          sym w
          ∙ subst
              (λ y.
                visit fuel definition state known (step_name y)
                  (advance fuel definition state y scope)
                ≡ done (a ∷ []))
              (sym p) v) in
        subst (In a) (done-injective r') (In-left a xs ys (subst (In a) (sym same) (inl refl)))
    advance_steps-visit (cons x rest) acts s a (inr m) e v =
        let (xs, w, r) =
          >>=-eq-done
            (visit fuel definition state known (step_name x)
              (advance fuel definition state x scope))
            _ e in
        let (ys, l, r') = >>=-eq-done (advance_steps fuel definition state known rest scope) _ r in
        subst (In a) (done-injective r') (In-right a xs ys (advance_steps-visit rest ys s a m l v))

  unstarted-unfinished :
      (t : TaskStep) (scope : Scope)
      → state_get state (record { step = t.name; scope = scope }) ≡ none
      → finished fuel definition state (task t) scope ≡ done false
  unfolding finished succeeded_value
  unstarted-unfinished t scope unstarted = rw (unstarted, is_succeeded, succeeded_value)

  advance-ready :
      (t : TaskStep) (scope : Scope)
      → state_get state (record { step = t.name; scope = scope }) ≡ none
      → IsAvailable fuel definition state
          (record { step = t.name; scope = scope })
          (Dict.values t.params)
      → advance fuel definition state (task t) scope
        ≡ done (publish_task (record { step = t.name; scope = scope }) t ∷ [])
  unfolding advance
  advance-ready t scope unstarted available =
      start-ready (publish_task (record { step = t.name; scope = scope }) t)
        (record { step = t.name; scope = scope }) (Dict.values t.params) unstarted available

  -- No task that is ready is forgotten: where planning a scope returns, and no two of its steps share
  -- a name, every task of it that is not started, that waits on finished steps only and whose inputs
  -- are available is published by the plan.
  pub scope_actions_complete :
      (steps : Steps) (scope : Scope) (acts : List Action) (t : TaskStep)
      → AreDistinct steps
      → scope_actions fuel definition state steps scope ≡ done acts
      → Member (task t) steps
      → IsWaited fuel definition state steps scope t.name
      → state_get state (record { step = t.name; scope = scope }) ≡ none
      → IsAvailable fuel definition state
          (record { step = t.name; scope = scope })
          (Dict.values t.params)
      → In (publish_task (record { step = t.name; scope = scope }) t) acts
  unfolding scope_actions
  scope_actions_complete steps scope acts t distinct e member waited unstarted available =
      let (known, table, r) = >>=-eq-done (finished_map fuel definition state steps scope []) _ e in
      advance_steps-visit steps scope known distinct table steps acts (task t)
        (publish_task (record { step = t.name; scope = scope }) t) member r
        (visit-ready steps scope known distinct table (task t)
            (advance fuel definition state (task t) scope) member
            (unstarted-unfinished t scope unstarted) waited
          ∙ advance-ready t scope unstarted available)
