-- ===== src/Worker.antt =====
-- neorc_core/_worker.py: the execution of a task that a worker was given, over the client of its
-- queue. The handlers are an argument: what one gives for its arguments, or the text of what it
-- raises. So is what befalls the heartbeats while the handler works.
pub mod Kept
pub mod Managed
pub mod Recorded
use neorc.Prelude.{
  ℕ, zero, suc, ◌*◌, String, ◌==◌, nat_eq, string_eq, list_eq, Bool, true, false, ◌&&◌, Option,
  none, some, List, [], ◌∷◌, take, if◌then◌else◌,
}
use neorc.Prelude.Dict.{Dict}
use neorc.Errors.{Error, Result, ok, err, ◌>>=◌}
use neorc.Errors
use neorc.Json.{Text, JsonValue, obj, pos}
use neorc.Flow.Definition.{Reference, Namespace, codes}
use neorc.Runs.{Time, storable_text}
use neorc.Scheduler.{is_access_error}
use neorc.Store.Tasks.{Report, success, failure}
use neorc.Task.{TaskId}
use neorc.Values.{Value, Entries, Key, text, dict, int, stop, entry, decode, encode, ensure_fits}
use neorc.Manager.Calls.{Op, continue, pure, raise}
use neorc.Manager.Checks.{Services, fields_of, max_payload_bytes}
use neorc.Manager.Working.{TaskDelivery}

-- neorc_core/ports/_clients.py: what a worker calls while it executes a task.
pub record QueueClient : Type 1 where
  pub State : Type 0
  pub claim_task : TaskId → Op State (Unit {0})
  pub extend_lease : TaskId → Op State Time
  pub report_finished : TaskId → Report → Op State (Unit {0})

abbrev pub max_error_length : ℕ
max_error_length = 64 * 1024

abbrev pub max_json_depth : ℕ
max_json_depth = 200

-- `isinstance(error, RunStateError)`
abbrev pub is_run_state : Error → Bool
is_run_state Error.run_state = true
is_run_state _ = false

-- What a handler comes to.
pub data Called : Type 0 where
  returned : Value → Called
  raised : Text → Called

-- The handlers by name, with what is wrong where there is none, and the texts of exceptions.
pub record Handlers : Type 0 where
  pub resolve : String → Option (Entries → Called)
  pub unresolved : String → Text
  pub exception : Error → Text
  pub invalid_result : Error → Text

abbrev is_named : Text → Key → Bool
is_named name (text other) = other == name
is_named name _ = false

-- `arguments[name] = value`
unfoldable pub set_argument : Text → Value → Entries → Entries
set_argument name value stop = entry (text name) value stop
set_argument name value (entry key old rest) =
    let later = set_argument name value rest in
    if is_named name key then entry key value rest else entry key old later

abbrev is_metadata : Namespace → Bool
is_metadata Namespace.metadata = true
is_metadata _ = false

-- The loop that fills in the number of attempts.
unfoldable pub with_attempts : ℕ → Dict String Reference → Entries → Entries
unfolding set_argument
with_attempts attempts [] arguments = arguments
with_attempts attempts ((name, reference) ∷ rest) arguments = with_attempts attempts rest (
    if is_metadata reference.namespace && (reference.name == "attempts")
    then set_argument (codes name) (int (pos attempts)) arguments
    else arguments)

module _ (services : Services) (handlers : Handlers) where
  -- The decoded arguments, to the handler.
  called_with : TaskDelivery → (Entries → Called) → Result Value → Called
  unfolding with_attempts
  called_with delivery function (ok (dict arguments)) =
      function (with_attempts delivery.task.attempts delivery.task.params arguments)
  called_with delivery function (ok _) = raised (handlers.exception Errors.value_error)
  called_with delivery function (err e) = raised (handlers.exception e)

  -- The first part of `_call`: the handler's value, or why the task failed.
  unfoldable pub called : TaskDelivery → Called
  unfolding called_with fields_of
  called delivery = elim (handlers.resolve delivery.task.handler) [
    | none ↦ raised (handlers.unresolved delivery.task.handler)
    | some function ↦
        called_with delivery function
          (decode services.written (obj (fields_of delivery.inputs)) max_json_depth)
  ]

  -- The check of a handler's value.
  unfoldable pub encoded : Value → Result JsonValue
  encoded value = do
    result ← encode services.written value
    fits ← ensure_fits (services.dumps_json result) max_payload_bytes
    ok result

  -- What is reported of the check: the message is cut short.
  unfoldable pub report_checked : Result JsonValue → Report
  unfolding storable_text
  report_checked (ok result) = success result
  report_checked (err e) =
      failure (take max_error_length (storable_text (handlers.invalid_result e)))

  -- The rest of `_call`, and what is reported.
  unfoldable pub report_of : Called → Report
  unfolding encoded storable_text report_checked
  report_of (raised why) = failure (take max_error_length (storable_text why))
  report_of (returned value) = report_checked (encoded value)

  module _ (c : QueueClient) where
    -- What follows a heartbeat: one that is refused ends the work.
    unfoldable pub beaten : Op c.State (Unit {0}) → Result Time → Op c.State (Unit {0})
    beaten rest (ok expires) = rest
    beaten rest (err e) = if is_access_error e then raise e else rest

    -- The heartbeats while the handler works.
    unfoldable pub beat : ℕ → TaskId → Op c.State (Unit {0})
    unfolding beaten
    beat zero task_id s = (ok tt, s)
    beat (suc beats) task_id s =
        let (r, s') = c.extend_lease task_id s in beaten (beat beats task_id) r s'

    -- The work and the report on it.
    unfoldable pub work : ℕ → TaskDelivery → Op c.State (Unit {0})
    unfolding beat called report_of
    work beats delivery s =
        let (r, s') = beat beats delivery.task.id s in
        continue r (λ done. c.report_finished delivery.task.id (report_of (called delivery))) s'

    -- What follows the claim: a task of a run that is no longer active is dropped.
    unfoldable pub claimed : ℕ → TaskDelivery → Result (Unit {0}) → Op c.State (Unit {0})
    unfolding work
    claimed beats delivery (ok done) = work beats delivery
    claimed beats delivery (err e) = if is_run_state e then pure tt else raise e

    unfoldable pub execute : ℕ → TaskDelivery → Op c.State (Unit {0})
    unfolding claimed
    execute beats delivery s =
        let (r, s') = c.claim_task delivery.task.id s in claimed beats delivery r s'
