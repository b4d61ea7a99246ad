-- ===== src/Manager/Checks.antt =====
-- neorc_core/_manager.py: the functions below the class, and the checks of its arguments.
pub mod Fitting
use neorc.Prelude.{
  ℕ, String, ◌*◌, ◌==◌, string_eq, nat_eq, list_eq, Bool, true, false, ◌&&◌, ◌||◌, not, Option,
  none, some, List, [], ◌∷◌, ◌++◌, map, ltb, leb, if◌then◌else◌,
}
use neorc.Prelude.Dict
use neorc.Prelude.Dict.{Dict}
use neorc.Errors.{Result, ok, err, invalid_value, run_state, ◌>>=◌, ◌>>◌}
use neorc.Json.{Text, JsonValue, Fields, str, obj, end, field, int, pos}
use neorc.Values.{Value, Written, decode, encode, max_value_depth, ensure_fits}
use neorc.Flow.Definition.{
  InputType, Namespace, Reference, TaskStep, SubFlowStep, Step, task, sub_flow, step_name,
  FlowDefinition, is_name, is_queue_name, codes,
}
use neorc.Flow.Walk.{step, enclosing}
use neorc.Flow.RunState.{Scope, Address, RunState}
use neorc.Flow.References.Resolve.{resolve}
use neorc.Runs.{Run}
use neorc.Task.{TaskId}

-- What the manager calls of Python's own libraries: `json.dumps` of `dumps_json`, and `str` of an id;
-- and the messages that it stores.
pub record Services : Type 0 where
  pub written : Written
  pub dumps_json : JsonValue → Text
  pub id_text : ℕ → Text
  pub invalid_result : JsonValue → Text

-- `_queue`
unfoldable pub check_queue : String → Result (Unit {0})
unfolding is_queue_name
check_queue name = if is_queue_name name then ok tt else err invalid_value

-- `_lookup`
unfoldable pub check_lookup : String → Result (Unit {0})
unfolding is_name
check_lookup name = if is_name name then ok tt else err invalid_value

abbrev pub max_lease_seconds : ℕ
max_lease_seconds = 24 * 60 * 60

unfoldable pub check_lease_seconds : ℕ → Result (Unit {0})
check_lease_seconds lease =
    if ltb 0 lease && leb lease max_lease_seconds then ok tt else err invalid_value

abbrev pub max_payload_bytes : ℕ
max_payload_bytes = 1024 * 1024

pub data InputProblem : Type 0 where
  missing extra wrong_type not_a_value : String → InputProblem

-- Whether decoding gave a datetime.
abbrev pub is_datetime : Result Value → Bool
is_datetime (ok (Value.datetime d)) = true
is_datetime _ = false

abbrev pub is_ok {ℓ} : {A : Type ℓ} → Result A → Bool
is_ok (ok a) = true
is_ok (err e) = false

module _ (w : Written) where
  -- `_is_of_type`
  unfoldable pub is_of_type : JsonValue → InputType → Bool
  is_of_type value InputType.string = elim value [ JsonValue.str t ↦ true | _ ↦ false ]
  is_of_type value InputType.boolean = elim value [ JsonValue.bool b ↦ true | _ ↦ false ]
  is_of_type value InputType.number = elim value [
    | JsonValue.int n ↦ true
    | JsonValue.float x ↦ true
    | _ ↦ false
  ]
  is_of_type value InputType.datetime = is_datetime (decode w value max_value_depth)

  missing_inputs : List String → Dict String JsonValue → List InputProblem
  missing_inputs [] inputs = []
  missing_inputs (name ∷ names) inputs =
      elim (Dict.get name inputs) [ none ↦ missing name ∷ [] | some v ↦ [] ]
      ++ missing_inputs names inputs

  -- One turn of the loop over the given inputs.
  problem_of : Dict String InputType → String → JsonValue → List InputProblem
  unfolding is_of_type
  problem_of declared name value = elim (Dict.get name declared) [
    | none ↦ extra name ∷ []
    | some type ↦
        if not (is_of_type value type)
        then wrong_type name ∷ []
        else if is_ok (decode w value max_value_depth)
        then []
        else not_a_value name ∷ []
  ]

  given_problems : Dict String InputType → Dict String JsonValue → List InputProblem
  unfolding problem_of
  given_problems declared [] = []
  given_problems declared ((name, value) ∷ rest) =
      problem_of declared name value ++ given_problems declared rest

  unfoldable pub check_inputs : FlowDefinition → Dict String JsonValue → Result (Unit {0})
  unfolding missing_inputs given_problems
  check_inputs definition inputs =
      elim (missing_inputs (Dict.keys definition.inputs) inputs
        ++ given_problems definition.inputs inputs) [
          | [] ↦ ok tt
          | problem ∷ problems ↦ err invalid_value
        ]

as_task : Result Step → Result TaskStep
as_task (ok (task t)) = ok t
as_task _ = err invalid_value

as_sub_flow : Result Step → Result SubFlowStep
as_sub_flow (ok (sub_flow s)) = ok s
as_sub_flow _ = err invalid_value

any_below_one : Scope → Bool
any_below_one [] = false
any_below_one ((name, number) ∷ rest) = ltb number 1 || any_below_one rest

-- The part of `_step_at` behind the look-up of the step.
check_place : FlowDefinition → Address → Result (Unit {0})
unfolding enclosing any_below_one
check_place definition address = do
  around ← enclosing definition address.step
  if Dict.keys address.scope == map step_name around
      then (if any_below_one address.scope then err invalid_value else ok tt)
      else err invalid_value

-- `_step_at`, for each of the two kinds.
unfoldable pub task_at : FlowDefinition → Address → Result TaskStep
unfolding step as_task check_place
task_at definition address = do
  t ← as_task (step definition address.step)
  check_place definition address
  ok t

unfoldable pub sub_flow_at : FlowDefinition → Address → Result SubFlowStep
unfolding step as_sub_flow check_place
sub_flow_at definition address = do
  s ← as_sub_flow (step definition address.step)
  check_place definition address
  ok s

-- `{**base, **more}`
unfoldable pub merge : Dict String JsonValue → Dict String JsonValue → Dict String JsonValue
merge base [] = base
merge base ((name, value) ∷ more) = merge (Dict.set name value base) more

-- A dictionary as a JSON object.
unfoldable pub fields_of : Dict String JsonValue → Fields
fields_of [] = end
fields_of ((name, value) ∷ rest) = field (codes name) value (fields_of rest)

module _ (services : Services) (fuel : ℕ) where
  module _ (run : Run) (definition : FlowDefinition) (state : RunState) (address : Address)
      (task_id : TaskId) where
    -- The value that a parameter is filled in with; `none` for the worker's to fill in.
    unfoldable pub fill : Reference → Result (Option JsonValue)
    unfolding resolve
    fill reference =
        let asked : Result (Option JsonValue) =
          resolve definition state fuel (some address) reference >>= λ resolved. elim resolved [
            | none ↦ err run_state
            | some value ↦ ok (some value)
          ] in
        elim reference.namespace [
          | Namespace.metadata ↦
              if reference.name == "attempts"
              then ok none
              else if reference.name == "task_id"
              then ok (some (str (services.id_text task_id)))
              else if reference.name == "flow_run_id"
              then ok (some (str (services.id_text run.id)))
              else asked
          | _ ↦ asked
        ]

    -- `_filled_in`
    unfoldable pub filled_in :
        Dict String Reference → Dict String JsonValue → Result (Dict String JsonValue)
    unfolding fill
    filled_in [] values = ok values
    filled_in ((name, reference) ∷ rest) values = do
      filled ← fill reference
      filled_in rest (elim filled [ none ↦ values | some value ↦ Dict.set name value values ])

  -- `_inputs`: the stand-in for the id of a task that is not stored yet is 0.
  unfoldable pub inputs_of :
      Run
      → FlowDefinition
      → RunState
      → Dict String Reference
      → Dict String JsonValue
      → Address
      → Result (Dict String JsonValue)
  unfolding filled_in merge
  inputs_of run definition state params fixed_params address = do
    filled ← filled_in run definition state address 0 params []
    ok (merge fixed_params filled)

-- `_encoded_delivery`
unfoldable pub encoded_delivery : Services → Dict String JsonValue → Text
unfolding fields_of
encoded_delivery services inputs = services.dumps_json (
    obj (
      field (codes "task_id") (str (services.id_text 0)) (
        field (codes "attempts") (int (pos 1))
          (field (codes "inputs") (obj (fields_of inputs)) end))))

-- The check of a result that a worker reports.
unfoldable pub checked_result : Services → JsonValue → Result JsonValue
unfolding decode encode ensure_fits
checked_result services result = do
  value ← decode services.written result max_value_depth
  encoded ← encode services.written value
  fits ← ensure_fits (services.dumps_json encoded) max_payload_bytes
  ok encoded
