-- ===== src/Manager/Asked.antt =====
-- What the manager asks of runs, tasks and leases before a call does anything.
pub mod Calls
use neorc.Prelude.{
  ℕ, String, nat_eq, string_eq, ◌==◌, ==_iff, ◌≡◌, ◌⊎◌, ◌≤◌, ◌<◌, refl, ◌∙◌, ap, subst, inl, inr,
  Bool, true, false, Option, none, some, Bool-cases, Option-cases, arith,
}
use neorc.Prelude.Dict
use neorc.Errors.{Result, ok, err}
use neorc.Flow.Definition.{Reference, FlowDefinition, is_queue_name, is_name}
use neorc.Flow.RunState.{Address, RunState}
use neorc.Runs.{RunId, Time, Run, RunStatus, is_active, Task, Libraries, ensure_active}
use neorc.Store.{Store}
use neorc.Store
use neorc.Store.Port.{memory}
use neorc.Store.Runs
use neorc.Store.Tasks
use neorc.Store.Flows
use neorc.Json.{Text, JsonValue}
use neorc.Errors.{ok-injective}
use neorc.Prelude.{List}
use neorc.Prelude.Dict.{Dict}
use neorc.Manager.Working.{Turn, TaskDelivery, recorded}
use neorc.Manager.Reading.{get_flow-Reads, run_state-Reads}
use neorc.Store.Tasks.{Report, success, failure, final_status}
use neorc.Task.{TaskId, TaskStatus, allowed, is_leased}
use neorc.Manager.Calls.{Op, ◌>>=◌, ◌>>◌, lift}
use neorc.Manager.Checks.{
  Services, check_lookup, check_queue, check_lease_seconds, max_lease_seconds,
}
use neorc.Manager.Flows.{cancel_run, start_run}
use neorc.Manager.Scheduling.{
  fail_run, succeed_run, publish_task, start_sub_run, context, output_value,
}
use neorc.Manager.Working.{receive_task, claim_task, extend_lease, report_finished, ensure_on_queue}
use neorc.Manager.Reading.{
  read-returns, get_run-Reads, context-Reads, output_value-Reads, ensure_on_queue-Reads,
}
use neorc.Manager.Serving.{
  Call, starts, cancels, fails, succeeds, publishes, starts_sub_run, receives, claims, extends,
  reports, serve, answer,
}

-- The run is in the store, and has not ended.
pub IsActive : RunId → Store → Type 0
IsActive id s = (run : Run) × (Dict.get id s.runs ≡ some run) × (run.status ≡ RunStatus.active)

-- The task is on the queue that a token is bound to, where it is bound to one.
abbrev pub IsOn : Option String → Task → Type 0
IsOn none t = Unit
IsOn (some queue) t = t.queue ≡ queue

-- The task has been handed out, and has not ended.
pub IsHandedOut : Task → Type 0
IsHandedOut t = (t.status ≡ TaskStatus.received) ⊎ (t.status ≡ TaskStatus.running)

pub IsLease : ℕ → Type 0
IsLease lease = (0 < lease) × (lease ≤ max_lease_seconds)

-- The task is in the store, on the queue, and handed out.
pub IsHeld : TaskId → Option String → Store → Type 0
IsHeld id queue s = (t : Task) × (Dict.get id s.tasks ≡ some t) × IsOn queue t × IsHandedOut t

pub is_active-active : (status : RunStatus) → is_active status ≡ true → status ≡ RunStatus.active
is_active-active RunStatus.active h = refl
is_active-active _ h = absurd (ground arith)

pub ensure_active-IsActive :
    (run : Run) (checked : Unit {0})
    → ensure_active run ≡ ok checked
    → run.status ≡ RunStatus.active
unfolding ensure_active
ensure_active-IsActive run checked h = elim (Bool-cases (is_active run.status)) [
  | inl going ↦ is_active-active run.status going
  | inr over ↦ absurd (ground arith)
]

abbrev is_received : TaskStatus → Bool
is_received TaskStatus.received = true
is_received _ = false

pub allowed-out :
    (status target : TaskStatus)
    → is_received target ≡ false
    → allowed status target ≡ true
    → (status ≡ TaskStatus.received) ⊎ (status ≡ TaskStatus.running)
unfolding allowed
allowed-out TaskStatus.received target k h = inl refl
allowed-out TaskStatus.running target k h = inr refl
allowed-out TaskStatus.pending TaskStatus.received k h = absurd (ground arith)
allowed-out _ _ k h = absurd (ground arith)

pub is_leased-out :
    (status : TaskStatus)
    → is_leased status ≡ true
    → (status ≡ TaskStatus.received) ⊎ (status ≡ TaskStatus.running)
is_leased-out TaskStatus.received h = inl refl
is_leased-out TaskStatus.running h = inr refl
is_leased-out _ h = absurd (ground arith)

pub final_status-is_received : (report : Report) → is_received (final_status report) ≡ false
final_status-is_received (success value) = refl
final_status-is_received (failure text) = refl

pub check_lease_seconds-IsLease :
    (lease : ℕ) (checked : Unit {0}) → check_lease_seconds lease ≡ ok checked → IsLease lease
unfolding check_lease_seconds IsLease
check_lease_seconds-IsLease lease checked h = (ground arith, ground arith)

pub get_run-known :
    (id : RunId) (s : Store) (run : Run)
    → (Runs.get_run id s).0 ≡ ok run
    → Dict.get id s.runs ≡ some run
unfolding Runs.get_run Store.run_of
get_run-known id s run h = ground arith

pub get_task-known :
    (id : TaskId) (s : Store) (t : Task)
    → (Tasks.get_task id s).0 ≡ ok t
    → Dict.get id s.tasks ≡ some t
unfolding Tasks.get_task Store.task_of
get_task-known id s t h = ground arith
