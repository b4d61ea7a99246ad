-- ===== src/Manager/Checks/Fitting.antt =====
-- Which inputs a flow accepts.
use mathlib.Core.Logic.{◌↔◌}
use neorc.Prelude.{
  String, string_eq, ◌≡◌, ◌⊎◌, refl, subst, inl, inr, Bool, true, none, some, List, In, [], ◌∷◌,
  ◌++◌, Bool-cases, Option-cases, arith, ℕ,
}
use neorc.Prelude.Dict
use neorc.Prelude.Dict.{Dict}
use neorc.Errors.{Result, ok, err, invalid_value}
use neorc.Json.{Text, JsonValue, ℤ}
use neorc.Flow.Definition.{InputType, FlowDefinition}
use neorc.Manager.Checks
use neorc.Manager.Checks.{InputProblem, is_datetime, is_ok, is_of_type, check_inputs}
use neorc.Values.{Value, Datetime, Written, decode, max_value_depth}

module _ (w : Written) where
  -- The JSON value stands for a value of the type.
  pub IsA : InputType → JsonValue → Type 0
  IsA InputType.string value = (t : Text) × (value ≡ JsonValue.str t)
  IsA InputType.boolean value = (b : Bool) × (value ≡ JsonValue.bool b)
  IsA InputType.number value =
      ((n : ℤ) × (value ≡ JsonValue.int n)) ⊎ ((bits : ℕ) × (value ≡ JsonValue.float bits))
  IsA InputType.datetime value =
      (d : Datetime) × (decode w value max_value_depth ≡ ok (Value.datetime d))

  -- Every declared input is given, and every given one is declared, is of its type and is a value.
  pub IsAccepted : FlowDefinition → Dict String JsonValue → Type 0
  IsAccepted definition inputs =
      ((name : String)
        → In name (Dict.keys definition.inputs)
        → (value : JsonValue) × (Dict.get name inputs ≡ some value))
      × ((name : String) (value : JsonValue)
          → In (name, value) inputs
          → (type : InputType) × (v : Value) × (Dict.get name definition.inputs ≡ some type)
            × IsA type value
            × (decode w value max_value_depth ≡ ok v))

  is_ok-ok : (r : Result Value) → is_ok r ≡ true → (v : Value) × (r ≡ ok v)
  is_ok-ok (ok v) h = (v, refl)
  is_ok-ok (err e) h = absurd (ground arith)

  is_datetime-ok :
      (r : Result Value) → is_datetime r ≡ true → (d : Datetime) × (r ≡ ok (Value.datetime d))
  is_datetime-ok (ok (Value.datetime d)) h = (d, refl)
  is_datetime-ok _ h = absurd (ground arith)

  is_of_type-IsA :
      (value : JsonValue) (type : InputType) → is_of_type w value type ≡ true → IsA type value
  unfolding is_of_type IsA
  is_of_type-IsA (JsonValue.str t) InputType.string h = (t, refl)
  is_of_type-IsA (JsonValue.bool b) InputType.boolean h = (b, refl)
  is_of_type-IsA (JsonValue.int n) InputType.number h = inl (n, refl)
  is_of_type-IsA (JsonValue.float x) InputType.number h = inr (x, refl)
  is_of_type-IsA value InputType.datetime h = is_datetime-ok (decode w value max_value_depth) h
  is_of_type-IsA _ _ h = absurd (ground arith)

  append-empty : (ps qs : List InputProblem) → ps ++ qs ≡ [] → (ps ≡ []) × (qs ≡ [])
  append-empty [] qs h = (refl, h)
  append-empty (p ∷ ps) qs h = absurd (ground arith)

  missing_inputs-given :
      (names : List String) (inputs : Dict String JsonValue) (name : String)
      → Checks.missing_inputs w names inputs ≡ []
      → In name names
      → (value : JsonValue) × (Dict.get name inputs ≡ some value)
  unfolding Checks.missing_inputs
  missing_inputs-given [] inputs name h found = absurd found
  missing_inputs-given (first ∷ names) inputs name h found =
      let (here, later) =
        append-empty
          (elim (Dict.get first inputs) [ none ↦ Checks.missing first ∷ [] | some v ↦ [] ])
          (Checks.missing_inputs w names inputs) h in
      elim found [
        | inl same ↦ elim (Option-cases (Dict.get first inputs)) [
          | inr given ↦
              subst (λ n. (value : JsonValue) × (Dict.get n inputs ≡ some value)) same given
          | inl absent ↦ absurd (ground arith)
        ]
        | inr more ↦ missing_inputs-given names inputs name later more
      ]

  problem_of-fits :
      (declared : Dict String InputType) (name : String) (value : JsonValue)
      → Checks.problem_of w declared name value ≡ []
      → (type : InputType) × (v : Value) × (Dict.get name declared ≡ some type)
        × IsA type value
        × (decode w value max_value_depth ≡ ok v)
  unfolding Checks.problem_of
  problem_of-fits declared name value h = elim (Option-cases (Dict.get name declared)) [
    | inl undeclared ↦ absurd (ground arith)
    | inr (type, known) ↦ elim (Bool-cases (is_of_type w value type)) [
      | inr another ↦ absurd (ground arith)
      | inl typed ↦ elim (Bool-cases (is_ok (decode w value max_value_depth))) [
        | inr broken ↦ absurd (ground arith)
        | inl fine ↦
            let (v, decoded) = is_ok-ok (decode w value max_value_depth) fine in
            (type, v, known, is_of_type-IsA value type typed, decoded)
      ]
    ]
  ]

  given_problems-fit :
      (declared : Dict String InputType) (inputs : Dict String JsonValue) (name : String)
      (value : JsonValue)
      → Checks.given_problems w declared inputs ≡ []
      → In (name, value) inputs
      → (type : InputType) × (v : Value) × (Dict.get name declared ≡ some type)
        × IsA type value
        × (decode w value max_value_depth ≡ ok v)
  unfolding Checks.given_problems
  given_problems-fit declared [] name value h found = absurd found
  given_problems-fit declared ((given, json) ∷ rest) name value h found =
      let (here, later) = append-empty _ _ h in
      elim found [
        | inl same ↦
            subst
              (λ p.
                (type : InputType) × (v : Value) × (Dict.get p.0 declared ≡ some type)
                × IsA type p.1
                × (decode w p.1 max_value_depth ≡ ok v))
              same (problem_of-fits declared given json here)
        | inr more ↦ given_problems-fit declared rest name value later more
      ]

  no_problems :
      (problems : List InputProblem)
      → ◌≡◌ {A = Result (Unit {0})}
          (elim problems [ [] ↦ ok tt | problem ∷ more ↦ err invalid_value ])
          (ok tt)
      → problems ≡ []
  no_problems [] h = refl
  no_problems (problem ∷ more) h = absurd (ground arith)

  pub check_inputs-IsAccepted :
      (definition : FlowDefinition) (inputs : Dict String JsonValue)
      → check_inputs w definition inputs ≡ ok tt
      → IsAccepted definition inputs
  unfolding check_inputs IsAccepted
  check_inputs-IsAccepted definition inputs h =
      let (all_given, all_fit) = append-empty _ _ (no_problems _ h) in
      (
        λ name declared.
            missing_inputs-given (Dict.keys definition.inputs) inputs name all_given declared,
        λ name value given. given_problems-fit definition.inputs inputs name value all_fit given,
      )

  IsA-is_of_type :
      (value : JsonValue) (type : InputType) → IsA type value → is_of_type w value type ≡ true
  unfolding is_of_type IsA
  IsA-is_of_type value InputType.string (t, e) = rw e refl
  IsA-is_of_type value InputType.boolean (b, e) = rw e refl
  IsA-is_of_type value InputType.number (inl (n, e)) = rw e refl
  IsA-is_of_type value InputType.number (inr (x, e)) = rw e refl
  IsA-is_of_type value InputType.datetime (d, e) = rw e refl

  given-missing_inputs :
      (names : List String) (inputs : Dict String JsonValue)
      → ((name : String)
          → In name names
          → (value : JsonValue) × (Dict.get name inputs ≡ some value))
      → Checks.missing_inputs w names inputs ≡ []
  unfolding Checks.missing_inputs
  given-missing_inputs [] inputs h = refl
  given-missing_inputs (name ∷ names) inputs h =
      let (value, here) = h name (inl refl) in
      rw here (given-missing_inputs names inputs (λ other found. h other (inr found)))

  fit-given_problems :
      (declared : Dict String InputType) (inputs : Dict String JsonValue)
      → ((name : String) (value : JsonValue)
          → In (name, value) inputs
          → (type : InputType) × (v : Value) × (Dict.get name declared ≡ some type)
            × IsA type value
            × (decode w value max_value_depth ≡ ok v))
      → Checks.given_problems w declared inputs ≡ []
  unfolding Checks.given_problems Checks.problem_of
  fit-given_problems declared [] h = refl
  fit-given_problems declared ((name, value) ∷ rest) h =
      let (type, v, known, typed, decoded) = h name value (inl refl) in
      let none_here : Checks.problem_of w declared name value ≡ [] =
        rw (known, IsA-is_of_type value type typed, decoded, Checks.problem_of) refl in
      rw (none_here, Checks.given_problems)
        (fit-given_problems declared rest (λ n j found. h n j (inr found)))

  -- The inputs pass the check of a start exactly when every declared input is given, and every given
  -- one is declared, is of its declared type and decodes to a value.
  pub check_inputs_iff :
      (definition : FlowDefinition) (inputs : Dict String JsonValue)
      → (check_inputs w definition inputs ≡ ok tt) ↔ IsAccepted definition inputs
  unfolding check_inputs IsAccepted
  check_inputs_iff definition inputs = (
    check_inputs-IsAccepted definition inputs,
    λ (all_given, all_fit).
        rw
          (
            given-missing_inputs (Dict.keys definition.inputs) inputs all_given,
            fit-given_problems definition.inputs inputs all_fit,
            check_inputs,
          )
          refl,
  )
