-- ===== src/Planner/Soundness.antt =====
-- What the planner's walk plans is enabled.
mod Parts
use neorc.Prelude.{
  ℕ, zero, suc, ◌+◌, ◌≤◌, ◌<◌, String, string_eq, nat_eq, ◌==◌, ==_iff, ◌≡◌, ◌≢◌, ◌⊎◌, refl, sym,
  ◌∙◌, subst, inl, inr, Bool, true, false, none, some, List, All, [], ◌∷◌, ◌++◌, Option,
  Option-cases, Bool-cases, arith, leb, if◌then◌else◌,
}
use neorc.Prelude.Dict
use neorc.Prelude.Dict.{Dict}
use neorc.Prelude.Dict.Keyed.{get-set_cases}
use neorc.Errors.{Result, ok, err}
use neorc.Json.{JsonValue, null, bool, int, float, str, arr, obj}
use neorc.Flow.Definition.{
  Reference, TaskStep, SubFlowStep, Step, Steps, task, sub_flow, loop, fan_out, nil, cons,
  step_name, FlowDefinition,
}
use neorc.Flow.Walk.{waits_on}
use neorc.Flow.RunState.{Scope, Address, address_eq, RunState, state_get, last}
use neorc.Flow.References.Resolve.{resolve}
use neorc.Planner.Actions.{
  Action, publish_task, start_sub_run, Planned, done, run_failed, raised, ◌>>=◌, >>=-eq-done,
  done-injective, lift, each_index, filled_in_later, max_cycles_reached, exit_not_boolean,
}
use neorc.Planner.Finished.{exit_value, width, finished, body_finished}
use neorc.Planner.Advance.{
  finished_map, look_up, all_known, visit, inputs_ready, start, next_iteration, advance_loop,
  advance_branches, advance, advance_steps, is_false, scope_actions,
}
use neorc.Planner.Enabled.{
  Member, IsAvailable, IsWaited, MayRun, first, current, following, Enabled, publishes, starts,
  in_loop, in_fan_out,
}
use neorc.Planner.Soundness.Parts.{
  All-append, All-map, each_index-All, finished_map-IsJustified, IsJustified, visit-cases,
  start-cases,
}

module _ (fuel : ℕ) (definition : FlowDefinition) (state : RunState) where
  abbrev Plans : Steps → Scope → Planned (List Action) → Type 0
  Plans steps scope m =
      (acts : List Action) → m ≡ done acts → All (Enabled fuel definition state steps scope) acts

  module _ (name : String) (max_cycles : ℕ) (exit_condition : String) (body : Steps) (all : Steps)
      (scope : Scope) (enter : Scope → Planned (List Action))
      (member : Member (loop name max_cycles exit_condition body) all)
      (waited : IsWaited fuel definition state all scope name)
      (planned : (it : Scope) → Plans body it (enter it)) where
    enter_loop :
        (n : ℕ)
        → MayRun fuel definition state name max_cycles exit_condition body scope n
        → Plans all scope (enter (scope ++ (name, n) ∷ []))
    enter_loop n may acts e =
        All-map (λ a. in_loop name max_cycles exit_condition body n member waited may) acts
          (planned (scope ++ (name, n) ∷ []) acts e)

    next_iteration-Plans :
        (final : ℕ)
        → last state scope name ≡ final
        → body_finished fuel definition state body (scope ++ (name, final) ∷ []) ≡ done true
        → Plans all scope
            (next_iteration fuel definition state enter name max_cycles exit_condition scope final)
    unfolding next_iteration
    next_iteration-Plans final l b acts e =
        let (v, x, r) =
          >>=-eq-done (exit_value state exit_condition (scope ++ (name, final) ∷ [])) _ e in
        go v x r
      where
        go :
            (v : JsonValue)
            → exit_value state exit_condition (scope ++ (name, final) ∷ []) ≡ done v
            → (if is_false v
                then (if leb max_cycles final
                    then run_failed (max_cycles_reached name max_cycles)
                    else enter (scope ++ (name, final + 1) ∷ []))
                else run_failed (
                    exit_not_boolean
                      (record { step = exit_condition; scope = scope ++ (name, final) ∷ [] })
                      v))
              ≡ done acts
            → All (Enabled fuel definition state all scope) acts
        go (bool false) x r = elim (Bool-cases (leb max_cycles final)) [
          | inl full ↦ absurd (ground arith)
          | inr room ↦
              enter_loop (final + 1) (following final l refl (ground arith) b x) acts (rw room at r)
        ]
        go (bool true) x r = absurd (ground arith)
        go null x r = absurd (ground arith)
        go (int n) x r = absurd (ground arith)
        go (float n) x r = absurd (ground arith)
        go (str t) x r = absurd (ground arith)
        go (arr t) x r = absurd (ground arith)
        go (obj t) x r = absurd (ground arith)

    advance_loop-Plans : Plans all scope (
        advance_loop fuel definition state enter
          (body_finished fuel definition state body)
          name
          max_cycles
          exit_condition
          scope)
    unfolding advance_loop
    advance_loop-Plans acts e = elim (Bool-cases (last state scope name == 0)) [
      | inl none_yet ↦
          enter_loop 1 (first ((==_iff (last state scope name) 0).0 none_yet) refl) acts
            (rw (none_yet, advance_loop) at e)
      | inr some_yet ↦
          let (b, f, r) =
            >>=-eq-done
              (body_finished fuel definition state body
                (scope ++ (name, last state scope name) ∷ []))
              _ (rw (some_yet, advance_loop) at e) in
          go b f r (λ p. ground (arith, ==_iff (last state scope name) 0))
    ]
      where
        go :
            (b : Bool)
            → body_finished fuel definition state body (scope ++ (name, last state scope name) ∷ [])
              ≡ done b
            → elim b as (λ _. Planned (List Action)) [
              | true ↦
                  next_iteration fuel definition state enter name max_cycles exit_condition scope
                    (last state scope name)
              | false ↦ enter (scope ++ (name, last state scope name) ∷ [])
            ]
              ≡ done acts
            → last state scope name ≢ 0
            → All (Enabled fuel definition state all scope) acts
        go true f r n = next_iteration-Plans (last state scope name) refl f acts r
        go false f r n = enter_loop (last state scope name) (current refl n f) acts r

  module _ (name : String) (range : Option ℕ) (over : Option Reference) (body : Steps) (all : Steps)
      (scope : Scope) (enter : Scope → Planned (List Action))
      (member : Member (fan_out name range over body) all)
      (waited : IsWaited fuel definition state all scope name)
      (planned : (it : Scope) → Plans body it (enter it)) where
    advance_branches-Plans :
        (n : Option ℕ)
        → width fuel definition state (fan_out name range over body) scope ≡ done n
        → Plans all scope (advance_branches fuel definition state enter name scope n)
    unfolding advance_branches
    advance_branches-Plans none w acts e = subst (All _) (done-injective e) tt
    advance_branches-Plans (some n) w acts e =
        All-map
          (λ a (i, lo, hi, p).
            in_fan_out name range over body i n member waited w lo (omega arith) p)
          acts
          (each_index-All
            {P = λ i a. Enabled fuel definition state body (scope ++ (name, i) ∷ []) a}
            (λ index. enter (scope ++ (name, index) ∷ [])) n 1 acts
            (λ i xs lo hi. planned (scope ++ (name, i) ∷ []) xs) e)

  -- The table of finished steps is justified when the walk begins.
  table-Plans :
      (steps : Steps) (it : Scope)
      → ((known : Dict String Bool)
          → IsJustified fuel definition state steps it known
          → Plans steps it (advance_steps fuel definition state known steps it))
      → Plans steps it (
          finished_map fuel definition state steps it [] >>= λ known.
          advance_steps fuel definition state known steps it)
  unfolding Dict.get
  table-Plans steps it h acts e =
      let (known, k, r) = >>=-eq-done (finished_map fuel definition state steps it []) _ e in
      h known
        (finished_map-IsJustified fuel definition state steps steps it [] known (λ s m. m)
          (λ name b g. absurd (ground arith)) k)
        acts r

  mutual
    unfolding advance advance_steps

    advance-Plans :
        (s : Step) (all : Steps) (scope : Scope)
        → Member s all
        → IsWaited fuel definition state all scope (step_name s)
        → Plans all scope (advance fuel definition state s scope)
    advance-Plans (task t) all scope member waited acts e =
        let address : Address = record { step = t.name; scope = scope } in
        elim (start-cases fuel definition state (publish_task address t) address
          (Dict.values t.params) acts e) [
            | inl p ↦ rw p tt
            | inr (p, unstarted, available) ↦
                rw p (publishes t address member waited refl unstarted available refl, tt)
          ]
    advance-Plans (sub_flow s) all scope member waited acts e =
        let address : Address = record { step = s.name; scope = scope } in
        elim (start-cases fuel definition state (start_sub_run address s) address
          (Dict.values s.params) acts e) [
            | inl p ↦ rw p tt
            | inr (p, unstarted, available) ↦
                rw p (starts s address member waited refl unstarted available refl, tt)
          ]
    advance-Plans (loop name max_cycles exit_condition steps) all scope member waited acts e =
        advance_loop-Plans name max_cycles exit_condition steps all scope
          (λ it. finished_map fuel definition state steps it [] >>= λ known.
            advance_steps fuel definition state known steps it)
          member waited
          (λ it.
            table-Plans steps it (λ known j. advance_steps-Plans known steps it steps j (λ x m. m)))
          acts e
    advance-Plans (fan_out name range over steps) all scope member waited acts e =
        let (n, w, r) =
          >>=-eq-done (width fuel definition state (fan_out name range over steps) scope) _ e in
        advance_branches-Plans name range over steps all scope
          (λ it. finished_map fuel definition state steps it [] >>= λ known.
            advance_steps fuel definition state known steps it)
          member waited
          (λ it.
            table-Plans steps it (λ known j. advance_steps-Plans known steps it steps j (λ x m. m)))
          n w acts r

    advance_steps-Plans :
        (known : Dict String Bool) (rest : Steps) (scope : Scope) (all : Steps)
        → IsJustified fuel definition state all scope known
        → ((s : Step) → Member s rest → Member s all)
        → Plans all scope (advance_steps fuel definition state known rest scope)
    advance_steps-Plans known nil scope all j within acts e = subst (All _) (done-injective e) tt
    advance_steps-Plans known (cons s rest) scope all j within acts e =
        let (xs, v, r) =
          >>=-eq-done
            (visit fuel definition state known (step_name s)
              (advance fuel definition state s scope))
            _ e in
        let (ys, l, r') = >>=-eq-done (advance_steps fuel definition state known rest scope) _ r in
        subst (All _) (done-injective r') (
          All-append _ xs ys
            (elim (visit-cases fuel definition state known all scope (step_name s)
              (advance fuel definition state s scope) xs j v) [
                | inl p ↦ rw p tt
                | inr (waited, p) ↦ advance-Plans s all scope (within s (inl refl)) waited xs p
              ])
            (advance_steps-Plans known rest scope all j (λ x m. within x (inr m)) ys l))

  pub scope_actions-Enabled :
      (steps : Steps) (scope : Scope) (acts : List Action)
      → scope_actions fuel definition state steps scope ≡ done acts
      → All (Enabled fuel definition state steps scope) acts
  unfolding scope_actions
  scope_actions-Enabled steps scope =
      table-Plans steps scope (λ known j. advance_steps-Plans known steps scope steps j (λ x m. m))
