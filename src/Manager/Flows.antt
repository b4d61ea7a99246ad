-- ===== src/Manager/Flows.antt =====
-- neorc_core/_manager.py: flows and runs, as people ask for them, and the start of a run.
use neorc.Prelude.{
  ℕ, zero, suc, String, nat_eq, Bool, true, false, Option, none, some, List, ltb, if◌then◌else◌,
}
use neorc.Prelude.Dict.{Dict}
use neorc.Errors.{Error, Result, ok, err, flow_version, invalid_value}
use neorc.Json.{JsonValue, Text}
use neorc.Flow.Definition.{Version}
use neorc.Flow.RunState.{Address, RunState}
use neorc.Runs.{RunId, Time, StoredFlow, Run, RunStatus, is_active, Task}
use neorc.Store.Port.{Port}
use neorc.Manager.Calls.{Op, ◌>>=◌, ◌>>◌, lift, raise, meanwhile}
use neorc.Manager.Checks.{Services, check_lookup, check_inputs}

abbrev pub is_flow_version : Error → Bool
is_flow_version flow_version = true
is_flow_version _ = false

-- What follows a start: a version that was replaced is tried again.
abbrev pub retry : {S : Type 0} → Op S Run → Result Run → Op S Run
retry again (ok run) s = (ok run, s)
retry again (err e) s = if is_flow_version e then again s else (err e, s)

module _ (p : Port) (services : Services) where
  unfoldable pub get_flow : String → Option Version → Op p.State StoredFlow
  unfolding check_lookup
  get_flow name version = lift (check_lookup name) >> p.get_flow name version

  unfoldable pub latest_flows : Op p.State (List StoredFlow)
  latest_flows = p.latest_flows

  unfoldable pub flow_versions : String → Op p.State (List StoredFlow)
  unfolding check_lookup
  flow_versions name = lift (check_lookup name) >> p.flow_versions name

  unfoldable pub list_runs :
      Option String → Option RunStatus → Bool → Option RunId → ℕ → Op p.State (List Run)
  unfolding check_lookup
  list_runs flow status root_only before limit = do
    checked ← lift (elim flow [ none ↦ ok tt | some name ↦ check_lookup name ])
    bounded ← lift (if ltb limit 1 then err invalid_value else ok tt)
    p.list_runs flow status root_only before limit

  unfoldable pub run_tasks : RunId → Op p.State (List Task)
  run_tasks = p.run_tasks

  unfoldable pub sub_runs : RunId → Op p.State (List Run)
  sub_runs = p.sub_runs

  unfoldable pub get_run : RunId → Op p.State Run
  get_run = p.get_run

  unfoldable pub run_state : RunId → Op p.State RunState
  run_state = p.run_state

  unfoldable pub get_task : ℕ → Op p.State Task
  get_task = p.get_task

  unfoldable pub cancel_run : RunId → Text → Time → Op p.State (Unit {0})
  cancel_run run_id reason now = do
    run ← p.get_run run_id
    if is_active run.status then p.cancel_run_tree run_id reason now else raise Error.run_state

  module _ (flow : String) (inputs : Dict String JsonValue) (parent : Option RunId)
      (parent_address : Option Address) (fresh : RunId) (now : Time)
      (others : ℕ → p.State → p.State) where
    -- One attempt: `others` is what happens between reading the latest version and starting the run,
    -- and `again` what follows when the version was replaced meanwhile.
    unfoldable pub attempt : ℕ → Op p.State Run → Op p.State Run
    unfolding check_inputs
    attempt left again = do
      stored ← p.get_flow flow none
      checked ← lift (check_inputs services.written stored.definition inputs)
      changed ← meanwhile (others left)
      (λ s.
          let (r, s') =
            p.start_run flow stored.definition.version inputs parent parent_address fresh now s in
          retry again r s')

    -- `left` attempts may follow this one.
    unfoldable pub attempts : ℕ → Op p.State Run
    unfolding attempt
    attempts zero = attempt zero (raise flow_version)
    attempts (suc left) = attempt (suc left) (attempts left)

    -- `_start_latest`: three attempts.
    unfoldable pub start_latest : Op p.State Run
    unfolding attempts
    start_latest = attempts 2

  unfoldable pub start_run :
      String → Dict String JsonValue → RunId → Time → (ℕ → p.State → p.State) → Op p.State Run
  unfolding check_lookup start_latest
  start_run flow inputs fresh now others =
      lift (check_lookup flow) >> start_latest flow inputs none none fresh now others
