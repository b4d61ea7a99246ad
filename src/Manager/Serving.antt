-- ===== src/Manager/Serving.antt =====
-- Every call of the manager that may write, over the in-memory store.
use neorc.Prelude.{
  ℕ, String, nat_eq, string_eq, ◌≡◌, refl, Bool, true, false, Option, none, List, arith,
}
use neorc.Prelude.Dict
use neorc.Prelude.Dict.{Dict}
use neorc.Errors.{Error, Result, ok, err}
use neorc.Json.{JsonValue, Text}
use neorc.Flow.Definition.{Reference}
use neorc.Flow.RunState.{Address}
use neorc.Runs.{RunId, Time, Libraries}
use neorc.Store.{Store}
use neorc.Store.Port.{memory}
use neorc.Store.Requests.{Later}
use neorc.Store.Tasks.{Report}
use neorc.Task.{TaskId}
use neorc.Manager.Checks.{Services}
use neorc.Manager.Flows.{cancel_run, start_run}
use neorc.Manager.Scheduling.{fail_run, succeed_run, publish_task, start_sub_run}
use neorc.Manager.Working.{Turn, receive_task, claim_task, extend_lease, report_finished}
use neorc.Manager.Starting.{IsHarmless}
use neorc.Manager.Waiting.{AreRequests, receive_task-Later}
use neorc.Manager.Requests.{
  fail_run-Later, start_run-Later, cancel_run-Later, succeed_run-Later, publish_task-Later,
  start_sub_run-Later, claim_task-Later, extend_lease-Later, report_finished-Later,
}

-- A call with the random id and what others do while it waits, where it draws or waits.
pub data Call : Type 0 where
  starts :
      (flow : String) (inputs : Dict String JsonValue) (fresh : RunId) (others : ℕ → Store → Store)
      → Call
  cancels : (run_id : RunId) (reason : Text) → Call
  fails : (run_id : RunId) (reason : Text) → Call
  succeeds : (run_id : RunId) (output : Option Reference) → Call
  publishes : (run_id : RunId) (address : Address) (fresh : TaskId) → Call
  starts_sub_run :
      (parent : RunId) (address : Address) (fresh : RunId) (others : ℕ → Store → Store) → Call
  receives : (queue : String) (lease : ℕ) (turns : List (Turn Store)) → Call
  claims : (task_id : TaskId) (queue : Option String) (why : Text) → Call
  extends : (task_id : TaskId) (lease : ℕ) (queue : Option String) → Call
  reports : (task_id : TaskId) (report : Report) (queue : Option String) → Call

-- Whether a call returns or raises, and the store that it leaves.
abbrev pub answer : {A : Type 0} → Result A × Store → Result (Unit {0}) × Store
answer (ok a, s) = (ok tt, s)
answer (err e, s) = (err e, s)

unfoldable pub serve : Libraries → Services → ℕ → Call → Time → Store → Result (Unit {0}) × Store
unfolding start_run cancel_run fail_run succeed_run publish_task start_sub_run receive_task
    claim_task extend_lease report_finished
serve l services fuel (starts flow inputs fresh others) now s =
    answer (start_run (memory l) services flow inputs fresh now others s)
serve l services fuel (cancels run_id reason) now s =
    answer (cancel_run (memory l) services run_id reason now s)
serve l services fuel (fails run_id reason) now s =
    answer (fail_run (memory l) services fuel run_id reason now s)
serve l services fuel (succeeds run_id output) now s =
    answer (succeed_run (memory l) services fuel run_id output now s)
serve l services fuel (publishes run_id a fresh) now s =
    answer (publish_task (memory l) services fuel run_id a fresh now s)
serve l services fuel (starts_sub_run parent a fresh others) now s =
    answer (start_sub_run (memory l) services fuel parent a fresh now others s)
serve l services fuel (receives queue lease turns) now s =
    answer (receive_task (memory l) services fuel queue lease turns s)
serve l services fuel (claims task_id queue why) now s =
    answer (claim_task (memory l) services fuel task_id queue why now s)
serve l services fuel (extends task_id lease queue) now s =
    answer (extend_lease (memory l) services fuel task_id lease queue now s)
serve l services fuel (reports task_id report queue) now s =
    answer (report_finished (memory l) services fuel task_id report queue now s)

-- The random id is new, and others only make requests.
abbrev pub IsReady : Libraries → Call → Store → Type 0
IsReady l (starts flow inputs fresh others) s =
    (Dict.get fresh s.runs ≡ none) × IsHarmless l fresh others
IsReady l (publishes run_id a fresh) s = Dict.get fresh s.tasks ≡ none
IsReady l (starts_sub_run parent a fresh others) s =
    (Dict.get fresh s.runs ≡ none) × IsHarmless l fresh others
IsReady l (receives queue lease turns) s = AreRequests l turns
IsReady l _ s = Unit

-- The calls that do one thing to the store: a claim in an ended run fails the task before it raises,
-- and the rest wait for others.
abbrev pub is_atomic : Call → Bool
is_atomic (starts _ _ _ _) = false
is_atomic (starts_sub_run _ _ _ _) = false
is_atomic (receives _ _ _) = false
is_atomic (claims _ _ _) = false
is_atomic _ = true

module _ (l : Libraries) {A : Type 0} where
  answered : (s : Store) (r : Result A × Store) → Later l s r.1 → Later l s (answer r).1
  answered s (ok a, t) h = h
  answered s (err e, t) h = h

  pub answer-raises :
      (s : Store) (r : Result A × Store)
      → ((e : Error) → r.0 ≡ err e → r.1 ≡ s)
      → (e : Error) → (answer r).0 ≡ err e
      → (answer r).1 ≡ s
  answer-raises s (ok a, t) h e p = absurd (ground arith)
  answer-raises s (err x, t) h e p = h x refl

module _ (l : Libraries) (services : Services) (fuel : ℕ) where
  -- Every call of the manager, its random id new and others making only requests meanwhile, leaves a
  -- store that requests to the store reach, whether the call returns or raises.
  pub serve-Later :
      (call : Call) (now : Time) (s : Store)
      → IsReady l call s
      → Later l s (serve l services fuel call now s).1
  unfolding serve
  serve-Later (starts flow inputs fresh others) now s (absent, harmless) =
      answered l s _
        (start_run-Later l services fuel flow inputs fresh now others s absent harmless)
  serve-Later (cancels run_id reason) now s ready =
      answered l s _ (cancel_run-Later l services fuel run_id reason now s)
  serve-Later (fails run_id reason) now s ready =
      answered l s _ (fail_run-Later l services fuel run_id reason now s)
  serve-Later (succeeds run_id output) now s ready =
      answered l s _ (succeed_run-Later l services fuel run_id output now s)
  serve-Later (publishes run_id a fresh) now s absent =
      answered l s _ (publish_task-Later l services fuel run_id a fresh now s absent)
  serve-Later (starts_sub_run parent a fresh others) now s (absent, harmless) =
      answered l s _
        (start_sub_run-Later l services fuel parent a fresh now others s absent harmless)
  serve-Later (receives queue lease turns) now s ready =
      answered l s _ (receive_task-Later l services fuel queue lease turns s ready)
  serve-Later (claims task_id queue why) now s ready =
      answered l s _ (claim_task-Later l services fuel task_id queue why now s)
  serve-Later (extends task_id lease queue) now s ready =
      answered l s _ (extend_lease-Later l services fuel task_id lease queue now s)
  serve-Later (reports task_id report queue) now s ready =
      answered l s _ (report_finished-Later l services fuel task_id report queue now s)
