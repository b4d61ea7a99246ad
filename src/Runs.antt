-- ===== src/Runs.antt =====
-- neorc_core/_runs.py: flow versions, runs, their tasks and events, and the rules every store
-- applies. An id is a number, and so is a time.
pub mod Uploads
use neorc.Prelude.{
  ℕ, suc, ◌+◌, ◌-◌, ◌*◌, String, ◌==◌, nat_eq, ◌&&◌, Bool, Option, none, some, List, [], ◌∷◌, ◌++◌,
  map, ltb, leb, if◌then◌else◌, zero,
}
use Prim.Native.Nat.{◌/◌, ◌%◌}
use neorc.Prelude.Dict
use neorc.Prelude.Dict.{Dict}
use neorc.Errors.{Result, ok, err, run_state, assertion, ◌>>=◌}
use neorc.Json.{JsonValue, null, Text}
use neorc.Flow.Definition.{Reference, Version, FlowDefinition, codes}
use neorc.Flow.RunState.{Scope, Address, address_eq, Outcome, StepResult, RunState}
use neorc.Task.{TaskId, TaskStatus}

abbrev pub RunId : Type 0
RunId = ℕ

abbrev pub Time : Type 0
Time = ℕ

pub data RunStatus : Type 0 where
  active succeeded failed cancelled : RunStatus

abbrev pub is_active : RunStatus → Bool
is_active RunStatus.active = Bool.true
is_active _ = Bool.false

pub record StoredFlow : Type 0 where
  pub definition : FlowDefinition
  pub content : JsonValue

pub record Run : Type 0 where
  pub id : RunId
  pub flow : String
  pub version : Version
  pub inputs : Dict String JsonValue
  pub status : RunStatus
  pub root_id : RunId
  pub parent_id : Option RunId
  pub parent_address : Option Address
  pub output : JsonValue
  pub reason : Option Text
  pub created_at : Option Time
  pub finished_at : Option Time

pub record Task : Type 0 where
  pub id : TaskId
  pub run_id : RunId
  pub address : Address
  pub queue : String
  pub handler : String
  pub params : Dict String Reference
  pub fixed_params : Dict String JsonValue
  pub status : TaskStatus
  pub attempts : ℕ
  pub lease_expires_at : Option Time
  pub result : JsonValue
  pub error : Option Text
  pub created_at : Option Time
  pub started_at : Option Time
  pub finished_at : Option Time

pub data EventKind : Type 0 where
  run_started task_finished run_finished : EventKind

pub record Event : Type 0 where
  pub sequence : ℕ
  pub run_id : RunId
  pub kind : EventKind

-- What the rules call of Python's own libraries: `json.dumps` with sorted keys, and `uuid.uuid5`.
pub record Libraries : Type 0 where
  pub dumps_sorted : JsonValue → Text
  pub uuid5 : RunId → Text → RunId

unfoldable pub digits : ℕ → ℕ → Text
digits zero n = []
digits (suc fuel) n =
    let more = digits fuel (n / 10) in (if ltb n 10 then [] else more) ++ (n % 10 + b'0') ∷ []

-- `str(n)`: a number has no more digits than its value and one.
unfoldable pub decimal : ℕ → Text
unfolding digits
decimal n = digits (suc n) n

-- `str(address)`, as in `rounds[2].picking[3].pick_word`
unfoldable pub address_text : Address → Text
unfolding decimal
address_text a = prefix a.scope ++ codes a.step
  where
    prefix : Scope → Text
    prefix [] = []
    prefix ((name, n) ∷ rest) =
        (codes name ++ b'[' ∷ []) ++ (decimal n ++ (b']' ∷ b'.' ∷ []) ++ prefix rest)

unfoldable pub sub_run_id_for : Libraries → RunId → Address → RunId
unfolding address_text
sub_run_id_for libraries parent_id address =
    libraries.uuid5 parent_id (codes "run:" ++ address_text address)

is_surrogate : ℕ → Bool
is_surrogate c = leb 0xd800 c && leb c 0xdfff

-- NUL and lone surrogates become U+FFFD.
unfoldable pub storable_text : Text → Text
unfolding is_surrogate
storable_text text =
    map (λ c. if is_surrogate c then 0xfffd else c) (map (λ c. if c == 0 then 0xfffd else c) text)

unfoldable pub ensure_active : Run → Result (Unit {0})
ensure_active run = if is_active run.status then ok tt else err run_state

abbrev task_outcome : TaskStatus → JsonValue → StepResult
task_outcome TaskStatus.succeeded value = record { outcome = Outcome.succeeded; value = value }
task_outcome TaskStatus.failed value = record { outcome = Outcome.failed; value = null }
task_outcome _ value = record { outcome = Outcome.running; value = null }

abbrev run_outcome : RunStatus → JsonValue → StepResult
run_outcome RunStatus.succeeded value = record { outcome = Outcome.succeeded; value = value }
run_outcome RunStatus.active value = record { outcome = Outcome.running; value = null }
run_outcome _ value = record { outcome = Outcome.failed; value = null }

unfoldable pub task_steps : List Task → Dict Address StepResult → Dict Address StepResult
task_steps [] steps = steps
task_steps (t ∷ ts) steps =
    task_steps ts (Dict.set t.address (task_outcome t.status t.result) steps)

unfoldable pub sub_run_steps : List Run → Dict Address StepResult → Result (Dict Address StepResult)
sub_run_steps [] steps = ok steps
sub_run_steps (r ∷ rs) steps = elim r.parent_address [
  | none ↦ err assertion
  | some address ↦ sub_run_steps rs (Dict.set address (run_outcome r.status r.output) steps)
]

unfoldable pub run_state_of : Run → List Task → List Run → Result RunState
unfolding task_steps sub_run_steps
run_state_of run tasks sub_runs = do
  steps ← sub_run_steps sub_runs (task_steps tasks [])
  ok (record { inputs = run.inputs; steps = steps })
