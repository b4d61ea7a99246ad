-- ===== src/Store/Runs.antt =====
-- neorc_core/local/_memory_store.py: starting runs, finishing them and reading them. A random id
-- (`uuid.uuid4()`) and the clock are arguments.
use mathlib.Core.List.{reverse}
use neorc.Prelude.{
  ℕ, String, string_eq, nat_eq, option_eq, ◌==◌, ◌&&◌, ◌||◌, not, Bool, true, false, Option, none,
  some, List, [], ◌∷◌, keep, take, drop, length, if◌then◌else◌,
}
use neorc.Prelude.Dict
use neorc.Prelude.Dict.{Dict}
use neorc.Errors.{ok, err, value_error, flow_version}
use neorc.Json.{JsonValue, null, Text}
use neorc.Flow.Definition.{Version, version_eq}
use neorc.Flow.RunState.{Address, RunState}
use neorc.Runs.{
  RunId, Time, Run, RunStatus, active, succeeded, failed, cancelled, Task, Event, run_started,
  run_finished, Libraries, sub_run_id_for, ensure_active, run_state_of,
}
use neorc.Store.{Op, ◌>>=◌, ◌>>◌, pure, lift, gets, run_of, put_run, append, flow_of, finish_tree}

-- Whether two statuses are the same one.
abbrev same_status : RunStatus → RunStatus → Bool
same_status active active = true
same_status succeeded succeeded = true
same_status failed failed = true
same_status cancelled cancelled = true
same_status _ _ = false

-- `started[: [run.id for run in started].index(before)]`
until : RunId → List Run → List Run
until before [] = []
until before (run ∷ rest) =
    let later = until before rest in if run.id == before then [] else run ∷ later

wanted : Option String → Option RunStatus → Bool → Run → Bool
wanted flow status root_only run =
    elim flow [ none ↦ true | some f ↦ run.flow == f ]
    && elim status [ none ↦ true | some st ↦ same_status run.status st ]
    && (not root_only || (run.parent_id == none))

unfoldable pub list_runs :
    Option String → Option RunStatus → Bool → Option RunId → ℕ → Op (List Run)
unfolding wanted until run_of
list_runs flow status root_only none limit =
    gets (λ s. take limit (keep (wanted flow status root_only) (reverse (Dict.values s.runs))))
list_runs flow status root_only (some before) limit = do
  known ← run_of before
  gets (λ s.
      take limit
        (keep (wanted flow status root_only) (reverse (until before (Dict.values s.runs)))))

unfoldable pub run_tasks : RunId → Op (List Task)
unfolding run_of
run_tasks run_id = do
  run ← run_of run_id
  gets (λ s. keep (λ t. t.run_id == run_id) (Dict.values s.tasks))

unfoldable pub sub_runs : RunId → Op (List Run)
unfolding run_of
sub_runs run_id = do
  run ← run_of run_id
  gets (λ s. keep (λ r. r.parent_id == some run_id) (Dict.values s.runs))

-- The end of `start_run`: a run that is not there yet.
unfoldable pub add_run :
    RunId
    → RunId
    → String
    → Version
    → Dict String JsonValue
    → Option RunId
    → Option Address
    → Time
    → Op Run
unfolding append
add_run run_id root_id flow version inputs parent_id parent_address now =
    let run : Run = record {
      id = run_id;
      flow = flow;
      version = version;
      inputs = inputs;
      status = active;
      root_id = root_id;
      parent_id = parent_id;
      parent_address = parent_address;
      output = null;
      reason = none;
      created_at = some now;
      finished_at = none;
    } in
    do put_run run; append run_id run_started; pure run

unfoldable pub start_sub_run :
    Libraries → String → Version → Dict String JsonValue → RunId → Address → Time → Op Run
unfolding run_of ensure_active add_run
start_sub_run libraries flow version inputs parent_id address now = do
  parent ← run_of parent_id
  lift (ensure_active parent)
  existing ← gets (λ s. Dict.get (sub_run_id_for libraries parent_id address) s.runs)
  elim existing [
    | some run ↦ pure run
    | none ↦
        add_run (sub_run_id_for libraries parent_id address) parent.root_id flow version inputs
          (some parent_id) (some address) now
  ]

-- The two of `parent` are given together or not at all: the code raises `ValueError` otherwise.
unfoldable pub start_run :
    Libraries
    → String
    → Version
    → Dict String JsonValue
    → Option RunId
    → Option Address
    → RunId
    → Time
    → Op Run
unfolding flow_of version_eq add_run start_sub_run
start_run libraries flow version inputs none (some address) fresh now = lift (err value_error)
start_run libraries flow version inputs (some parent_id) none fresh now = lift (err value_error)
start_run libraries flow version inputs none none fresh now = do
  latest ← flow_of flow none
  if version_eq version latest.definition.version
      then add_run fresh fresh flow version inputs none none now
      else lift (err flow_version)
start_run libraries flow version inputs (some parent_id) (some address) fresh now = do
  latest ← flow_of flow none
  if version_eq version latest.definition.version
      then start_sub_run libraries flow version inputs parent_id address now
      else lift (err flow_version)

unfoldable pub get_run : RunId → Op Run
unfolding run_of
get_run = run_of

unfoldable pub run_state : RunId → Op RunState
unfolding run_of run_state_of
run_state run_id = do
  run ← run_of run_id
  tasks ← gets (λ s. keep (λ t. t.run_id == run_id) (Dict.values s.tasks))
  subs ← gets (λ s. keep (λ r. r.parent_id == some run_id) (Dict.values s.runs))
  lift (run_state_of run tasks subs)

unfoldable pub succeed_run : RunId → JsonValue → Time → Op Run
unfolding run_of ensure_active append
succeed_run run_id output now = do
  run ← run_of run_id
  lift (ensure_active run)
  let finished = record run { status = succeeded; output = output; finished_at = some now }
  put_run finished
  append run_id run_finished
  pure finished

abbrev pub finish_run_tree : RunStatus → RunId → Text → Time → Op (Unit {0})
finish_run_tree status run_id reason now = do
  run ← run_of run_id
  (λ s. (ok tt, finish_tree run.root_id status reason now s))

unfoldable pub fail_run_tree : RunId → Text → Time → Op (Unit {0})
unfolding run_of finish_tree
fail_run_tree = finish_run_tree failed

unfoldable pub cancel_run_tree : RunId → Text → Time → Op (Unit {0})
unfolding run_of finish_tree
cancel_run_tree = finish_run_tree cancelled

unfoldable pub events_after : ℕ → ℕ → Op (List Event)
events_after sequence limit = gets (λ s. take limit (drop sequence s.events))

unfoldable pub last_sequence : Op ℕ
last_sequence = gets (λ s. length s.events)
