-- ===== src/Planner/Soundness/Parts.antt =====
-- The parts of the planner's walk: what the table of finished steps says, and what a visit and a
-- start add to the plan.
use neorc.Prelude.{
  ℕ, zero, suc, ◌+◌, ◌≤◌, ◌<◌, String, string_eq, nat_eq, ◌≡◌, ◌⊎◌, refl, sym, subst, inl, inr,
  Bool, true, false, none, some, List, All, [], ◌∷◌, ◌++◌, Option, Option-cases, Bool-cases, arith,
}
use neorc.Prelude.Dict
use neorc.Prelude.Dict.{Dict}
use neorc.Prelude.Dict.Keyed.{get-set_cases}
use neorc.Errors.{Result, ok, err}
use neorc.Json.{JsonValue}
use neorc.Flow.Definition.{Reference, Step, Steps, nil, cons, step_name, FlowDefinition}
use neorc.Flow.Walk.{waits_on}
use neorc.Flow.RunState.{Scope, Address, address_eq, RunState, state_get}
use neorc.Flow.References.Resolve.{resolve}
use neorc.Planner.Actions.{
  Action, Planned, done, ◌>>=◌, >>=-eq-done, done-injective, lift, each_index, filled_in_later,
}
use neorc.Planner.Finished.{finished}
use neorc.Planner.Advance.{finished_map, look_up, all_known, visit, inputs_ready, start}
use neorc.Planner.Enabled.{Member, IsAvailable, IsWaited}

pub All-append :
    (P : Action → Type 0) (here later : List Action)
    → All P here
    → All P later
    → All P (here ++ later)
All-append P [] later before after = after
All-append P (action ∷ here) later before after = (before.0, All-append P here later before.1 after)

pub All-map :
    {P Q : Action → Type 0} (f : (a : Action) → P a → Q a) (xs : List Action) → All P xs → All Q xs
All-map f [] h = tt
All-map f (x ∷ xs) h = (f x h.0, All-map f xs h.1)

-- Each index from `first` on, `left` of them.
pub each_index-All :
    {P : ℕ → Action → Type 0} (act : ℕ → Planned (List Action)) (left from : ℕ) (acts : List Action)
    → ((n : ℕ) (xs : List Action) → from ≤ n → n < from + left → act n ≡ done xs → All (P n) xs)
    → each_index act left from ≡ done acts
    → All (λ a. (n : ℕ) × (from ≤ n) × (n < from + left) × P n a) acts
unfolding each_index
each_index-All act zero from acts h e = subst (All _) (done-injective e) tt
each_index-All {P} act (suc left) from acts h e =
    let (xs, e₁, r) = >>=-eq-done (act from) _ e in
    let (ys, e₂, r') = >>=-eq-done (each_index act left (from + 1)) _ r in
    subst (All _) (done-injective r') (
      All-append _ xs ys
        (All-map (λ a p. (from, omega arith, omega arith, p)) xs
          (h from xs (omega arith) (omega arith) e₁))
        (All-map (λ a (n, lo, hi, p). (n, omega arith, omega arith, p)) ys
          (each_index-All {P = P} act left (from + 1) ys
            (λ n zs lo hi. h n zs (omega arith) (omega arith)) e₂)))

module _ (fuel : ℕ) (definition : FlowDefinition) (state : RunState) where
  -- Every entry of the table of finished steps is the answer of `finished` for a step of the scope.
  abbrev pub IsJustified : Steps → Scope → Dict String Bool → Type 0
  IsJustified steps scope known =
      (name : String) (b : Bool)
      → Dict.get name known ≡ some b
      → (s : Step) × Member s steps
        × (step_name s ≡ name)
        × (finished fuel definition state s scope ≡ done b)

  pub finished_map-IsJustified :
      (all rest : Steps) (scope : Scope) (acc known : Dict String Bool)
      → ((s : Step) → Member s rest → Member s all)
      → IsJustified all scope acc
      → finished_map fuel definition state rest scope acc ≡ done known
      → IsJustified all scope known
  unfolding finished_map
  finished_map-IsJustified all nil scope acc known within j e =
      subst (IsJustified all scope) (done-injective e) j
  finished_map-IsJustified all (cons s rest) scope acc known within j e =
      let (b, f, r) = >>=-eq-done (finished fuel definition state s scope) _ e in
      finished_map-IsJustified all rest scope (Dict.set (step_name s) b acc) known
        (λ x m. within x (inr m))
        (λ name c h. elim (get-set_cases (step_name s) name b c acc h) [
          | inl (p, q) ↦ (s, within s (inl refl), p, rw (← q) f)
          | inr (p, q) ↦ j name c q
        ])
        r

  look_up-get :
      (known : Dict String Bool) (name : String) (b : Bool)
      → look_up fuel definition state known name ≡ done b
      → Dict.get name known ≡ some b
  unfolding look_up
  look_up-get known name b h = ground arith

  all_known-All :
      (known : Dict String Bool) (steps : Steps) (scope : Scope) (names : List String)
      → IsJustified steps scope known
      → all_known fuel definition state known names ≡ done true
      → All
          (λ awaited.
            (s : Step) × Member s steps
            × (step_name s ≡ awaited)
            × (finished fuel definition state s scope ≡ done true))
          names
  unfolding all_known look_up
  all_known-All known steps scope [] j e = tt
  all_known-All known steps scope (n ∷ ns) j e =
      let (b, f, r) = >>=-eq-done (look_up fuel definition state known n) _ e in
      go b (look_up-get known n b f) r (all_known-All known steps scope ns j)
    where
      go :
          (b : Bool)
          → Dict.get n known ≡ some b
          → elim b as (λ _. Planned Bool) [
            | true ↦ all_known fuel definition state known ns
            | false ↦ done false
          ]
            ≡ done true
          → (all_known fuel definition state known ns ≡ done true
              → All
                  (λ awaited.
                    (s : Step) × Member s steps
                    × (step_name s ≡ awaited)
                    × (finished fuel definition state s scope ≡ done true))
                  ns)
          → All
              (λ awaited.
                (s : Step) × Member s steps
                × (step_name s ≡ awaited)
                × (finished fuel definition state s scope ≡ done true))
              (n ∷ ns)
      go true p r ih = (j n true p, ih r)
      go false p r ih = absurd (ground arith)

  -- What a visit plans was planned by advancing a step that waits on nothing unfinished.
  pub visit-cases :
      (known : Dict String Bool) (steps : Steps) (scope : Scope) (name : String)
      (act : Planned (List Action)) (acts : List Action)
      → IsJustified steps scope known
      → visit fuel definition state known name act ≡ done acts
      → (acts ≡ []) ⊎ (IsWaited fuel definition state steps scope name × (act ≡ done acts))
  unfolding visit
  visit-cases known steps scope name act acts j e =
      let (b, f, r) = >>=-eq-done (look_up fuel definition state known name) _ e in go b r
    where
      after :
          (ready : Bool)
          → all_known fuel definition state known (waits_on definition name) ≡ done ready
          → elim ready as (λ _. Planned (List Action)) [ true ↦ act | false ↦ done [] ] ≡ done acts
          → (acts ≡ []) ⊎ (IsWaited fuel definition state steps scope name × (act ≡ done acts))
      after true k r = inr (all_known-All known steps scope (waits_on definition name) j k, r)
      after false k r = inl (sym (done-injective r))

      go :
          (b : Bool)
          → elim b as (λ _. Planned (List Action)) [
            | true ↦ done []
            | false ↦ all_known fuel definition state known (waits_on definition name) >>= λ ready.
                elim ready as (λ _. Planned (List Action)) [ true ↦ act | false ↦ done [] ]
          ]
            ≡ done acts
          → (acts ≡ []) ⊎ (IsWaited fuel definition state steps scope name × (act ≡ done acts))
      go true r = inl (sym (done-injective r))
      go false r =
          let (ready, k, r') =
            >>=-eq-done (all_known fuel definition state known (waits_on definition name)) _ r in
          after ready k r'

  inputs_ready-IsAvailable :
      (address : Address) (rs : List Reference)
      → inputs_ready fuel definition state address rs ≡ done true
      → IsAvailable fuel definition state address rs
  unfolding inputs_ready
  inputs_ready-IsAvailable address [] e = tt
  inputs_ready-IsAvailable address (r ∷ rs) e = elim (Bool-cases (filled_in_later r)) [
    | inl filled ↦ (inl filled, inputs_ready-IsAvailable address rs (rw filled at e))
    | inr asked ↦
        go (resolve definition state fuel (some address) r) refl (rw asked at e)
          (inputs_ready-IsAvailable address rs)
  ]
    where
      go :
          (v : Result (Option JsonValue))
          → resolve definition state fuel (some address) r ≡ v
          → (lift v >>= λ value. elim value as (λ _. Planned Bool) [
            | none ↦ done false
            | some _ ↦ inputs_ready fuel definition state address rs
          ])
            ≡ done true
          → (inputs_ready fuel definition state address rs ≡ done true
              → IsAvailable fuel definition state address rs)
          → IsAvailable fuel definition state address (r ∷ rs)
      go (ok none) p q ih = absurd (ground arith)
      go (ok (some v)) p q ih = (inr (v, p), ih q)
      go (err x) p q ih = absurd (ground arith)

  -- A start adds at most its own action, for a step not started yet whose inputs are available.
  pub start-cases :
      (action : Action) (address : Address) (rs : List Reference) (acts : List Action)
      → start fuel definition state action address rs ≡ done acts
      → (acts ≡ [])
        ⊎ ((acts ≡ action ∷ [])
            × (state_get state address ≡ none)
            × IsAvailable fuel definition state address rs)
  unfolding start
  start-cases action address rs acts e = elim (Option-cases (state_get state address)) [
    | inr (r, there) ↦ inl (sym (done-injective (rw (there, start) at e)))
    | inl unstarted ↦
        let (ready, p, r) =
          >>=-eq-done (inputs_ready fuel definition state address rs) _
            (rw (unstarted, start) at e) in
        elim (Bool-cases ready) [
          | inl yes_ready ↦ inr (
            sym (done-injective (rw yes_ready at r)),
            unstarted,
            inputs_ready-IsAvailable address rs (rw yes_ready at p),
          )
          | inr not_ready ↦ inl (sym (done-injective (rw not_ready at r)))
        ]
  ]
