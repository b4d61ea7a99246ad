-- ===== src/Scheduler.antt =====
-- neorc_core/_scheduler.py: the scheduler, over a client of the manager.
pub mod Managed
pub mod Carried
pub mod Advancing
pub mod Turns
pub mod Collecting
pub mod Events
pub mod Position
pub mod Outages
use neorc.Prelude.{
  ℕ, zero, suc, ◌||◌, String, ◌==◌, nat_eq, string_eq, pair_eq, Bool, true, false, not, Option,
  none, some, List, [], ◌∷◌, ◌++◌, if◌then◌else◌,
}
use neorc.Prelude.Dict
use neorc.Prelude.Dict.{Dict}
use neorc.Errors.{
  Error, Result, ok, err, task_not_found, task_state, invalid_value, payload_too_large,
  flow_definition, resolution, flow_not_found, flow_version, run_not_found, manager_unavailable,
  authentication, permission_denied, sign_in_refused, cross_site_request, unsupported_media_type,
}
use neorc.Json.{Text}
use neorc.Flow.Definition.{Version, Reference, FlowDefinition}
use neorc.Flow.RunState.{Address, RunState}
use neorc.Planner.{plan}
use neorc.Planner.Actions.{Action, publish_task, start_sub_run, succeed_run, fail_run, Reason}
use neorc.Runs.Uploads.{version_key}
use neorc.Runs.{RunId, Run, Event, EventKind, is_active}
use neorc.Manager.Calls.{Op, ◌>>=◌, ◌>>◌, pure, lift, raise}

-- neorc_core/ports/_clients.py: what the scheduler calls of a manager's client.
pub record ManagerClient : Type 1 where
  pub State : Type 0
  pub get_flow : String → Version → Op State FlowDefinition
  pub get_run : RunId → Op State Run
  pub run_state : RunId → Op State RunState
  pub wait_for_events : ℕ → Op State (List Event)
  pub publish_task : RunId → Address → Op State (Unit {0})
  pub start_sub_run : RunId → Address → Op State (Unit {0})
  pub succeed_run : RunId → Option Reference → Op State (Unit {0})
  pub fail_run : RunId → Text → Op State (Unit {0})

-- `isinstance(error, AccessError)`
abbrev pub is_access_error : Error → Bool
is_access_error authentication = true
is_access_error permission_denied = true
is_access_error _ = false

-- `isinstance(error, (ManagerUnavailableError, AccessError))`
abbrev pub is_passed_on : Error → Bool
is_passed_on manager_unavailable = true
is_passed_on authentication = true
is_passed_on permission_denied = true
is_passed_on _ = false

-- `isinstance(error, NeorcError)`
abbrev pub is_neorc_error : Error → Bool
is_neorc_error task_not_found = true
is_neorc_error task_state = true
is_neorc_error invalid_value = true
is_neorc_error payload_too_large = true
is_neorc_error flow_definition = true
is_neorc_error resolution = true
is_neorc_error flow_not_found = true
is_neorc_error flow_version = true
is_neorc_error run_not_found = true
is_neorc_error Error.run_state = true
is_neorc_error manager_unavailable = true
is_neorc_error authentication = true
is_neorc_error permission_denied = true
is_neorc_error sign_in_refused = true
is_neorc_error cross_site_request = true
is_neorc_error unsupported_media_type = true
is_neorc_error _ = false

-- The texts of the reasons.
pub record Texts : Type 0 where
  pub planned : Reason → Text
  pub rejection : Action → Error → Text

abbrev pub has_id : RunId → List RunId → Bool
has_id id [] = false
has_id id (other ∷ rest) = (other == id) || has_id id rest

-- The ids that are not in the list yet are put behind it, each once.
unfoldable pub add_new : List RunId → List RunId → List RunId
add_new ids [] = ids
add_new ids (id ∷ more) =
    if has_id id ids then add_new ids more else add_new (ids ++ (id ∷ [])) more

abbrev is_run_finished : EventKind → Bool
is_run_finished EventKind.run_finished = true
is_run_finished _ = false

-- `events[-1].sequence`, and the one before where there are no events.
abbrev pub last_of : ℕ → List Event → ℕ
last_of before [] = before
last_of before (event ∷ rest) = last_of event.sequence rest

module _ (c : ManagerClient) (texts : Texts) (fuel : ℕ) where
  -- What the scheduler keeps, and the state of what it calls.
  pub record Scheduler : Type 0 where
    pub client : c.State
    pub after : ℕ
    pub definitions : Dict (String × Version) FlowDefinition

  abbrev pub Do : Type 0 → Type 0
  Do A = Op Scheduler A

  -- A call of the client.
  abbrev pub ask : {A : Type 0} → Op c.State A → Do A
  ask call s = let (r, kept) = call s.client in (r, record s { client = kept })

  abbrev keep_definition : String × Version → FlowDefinition → Do (Unit {0})
  keep_definition key definition s =
      (ok tt, record s { definitions = Dict.set key definition s.definitions })

  fetch : Run → Do FlowDefinition
  fetch run = do
    definition ← ask (c.get_flow run.flow run.version)
    keep_definition (run.flow, run.version) definition
    pure definition

  -- `_definition`
  unfoldable pub definition_of : Run → Do FlowDefinition
  unfolding fetch
  definition_of run s = elim (Dict.get (run.flow, run.version) s.definitions) [
    | none ↦ fetch run s
    | some definition ↦ (ok definition, s)
  ]

  -- `_apply`
  unfoldable pub apply : Run → Action → Do (Unit {0})
  apply run (publish_task address step) = ask (c.publish_task run.id address)
  apply run (start_sub_run address step) = ask (c.start_sub_run run.id address)
  apply run (succeed_run output) = ask (c.succeed_run run.id output)
  apply run (fail_run reason) = ask (c.fail_run run.id (texts.planned reason))

  -- `_rejected`
  unfoldable pub rejected : Run → Action → Error → Do (Unit {0})
  rejected run action e = do
    current ← ask (c.get_run run.id)
    if is_active current.status then ask (c.fail_run run.id (texts.rejection action e)) else pure tt

  -- What follows an action: the rest of them, the end of the run, or what was raised.
  unfoldable pub applied : Run → Action → Do (Unit {0}) → Result (Unit {0}) → Do (Unit {0})
  unfolding rejected
  applied run action rest (ok done) = rest
  applied run action rest (err e) =
      if is_passed_on e
      then raise e
      else if is_neorc_error e
      then rejected run action e
      else raise e

  -- The loop over the actions.
  unfoldable pub apply_all : Run → List Action → Do (Unit {0})
  unfolding apply applied
  apply_all run [] s = (ok tt, s)
  apply_all run (action ∷ actions) s =
      let (r, s') = apply run action s in applied run action (apply_all run actions) r s'

  unfoldable pub advance_active : Run → Do (Unit {0})
  unfolding definition_of apply_all
  advance_active run = do
    definition ← definition_of run
    state ← ask (c.run_state run.id)
    actions ← lift (plan fuel definition state)
    apply_all run actions

  unfoldable pub advance : RunId → Do (Unit {0})
  unfolding advance_active
  advance run_id = do
    run ← ask (c.get_run run_id)
    if is_active run.status then advance_active run else pure tt

  -- `_runs_to_advance`
  unfoldable pub runs_to_advance : Event → Do (List RunId)
  runs_to_advance event =
      if is_run_finished event.kind
      then ask (c.get_run event.run_id)
        >>= (λ run. pure (elim run.parent_id [ none ↦ [] | some parent ↦ parent ∷ [] ]))
      else pure (event.run_id ∷ [])

  -- The loop over the events: the runs that they concern, each once.
  unfoldable pub runs_of : List RunId → List Event → Do (List RunId)
  unfolding runs_to_advance add_new
  runs_of runs [] = pure runs
  runs_of runs (event ∷ events) = do
    more ← runs_to_advance event
    runs_of (add_new runs more) events

  unfoldable pub advance_all : List RunId → Do (Unit {0})
  unfolding advance
  advance_all [] = pure tt
  advance_all (run_id ∷ run_ids) = advance run_id >> advance_all run_ids

  abbrev move_on : List Event → Do (Unit {0})
  move_on events s = (ok tt, record s { after = last_of s.after events })

  unfoldable pub run_once : Do (List Event)
  unfolding runs_of advance_all
  run_once s =
      (do
        events ← ask (c.wait_for_events s.after)
        runs ← runs_of [] events
        advance_all runs
        move_on events
        pure events)
        s

  -- What follows a turn: the rest of them, unless it raised what ends the loop.
  unfoldable pub turned : Do (Unit {0}) → Result (List Event) → Do (Unit {0})
  turned rest (ok events) = rest
  turned rest (err e) =
      if is_access_error e then raise e else if is_neorc_error e then rest else raise e

  -- `run`, stopped after a number of turns.
  unfoldable pub run : ℕ → Do (Unit {0})
  unfolding run_once turned
  run zero s = (ok tt, s)
  run (suc turns) s = let (r, s') = run_once s in turned (run turns) r s'
