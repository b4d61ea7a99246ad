-- ===== src/Scheduler/Managed.antt =====
-- A manager as the scheduler's client, without the wire between them, while others use the store.
use neorc.Prelude.{
  ℕ, suc, String, nat_eq, string_eq, ◌≡◌, refl, sym, subst, Option, none, some, List,
}
use neorc.Prelude.Dict
use neorc.Errors.{Result}
use neorc.Json.{Text}
use neorc.Flow.Definition.{Version, Reference, FlowDefinition}
use neorc.Flow.RunState.{Address}
use neorc.Runs.{RunId, Time, Event, Libraries}
use neorc.Store.{Store}
use neorc.Store.Port.{memory}
use neorc.Store.Requests.{Later, now_itself}
use neorc.Task.{TaskId}
use neorc.Manager.Calls.{Op, continue, ◌>>=◌, pure, lift}
use neorc.Manager.Checks.{Services, check_lookup}
use neorc.Manager.Flows
use neorc.Manager.Scheduling
use neorc.Manager.Scheduling.{Wait}
use neorc.Manager.Reading.{Reads, >>=-Reads, get_run-Reads, get_flow-Reads, run_state-Reads}
use neorc.Manager.Waiting.{AreWaits, wait_for_events-Later}
use neorc.Manager.Starting.{Later-trans, IsHarmless}
use neorc.Manager.Requests.{
  continue-Later, publish_task-Later, start_sub_run-Later, succeed_run-Later, fail_run-Later,
}
use neorc.Scheduler
use neorc.Scheduler.{ManagerClient, Texts}
use neorc.Scheduler.Carried.{IsFollowed, carried}
use neorc.Scheduler.Advancing.{run-Follows}

-- What there is around one call: what others did before it and do during it, the clock, and the
-- random ids, which no run and no task has.
pub record Surroundings : Type 0 where
  pub before : Store → Store
  pub during : ℕ → Store → Store
  pub now : Time
  pub run_id : Store → RunId
  pub task_id : Store → TaskId
  pub waits : List (Wait Store)

-- The store, and how many calls there were.
abbrev pub Served : Type 0
Served = Store × ℕ

module _ (l : Libraries) (services : Services) (fuel : ℕ) (around : ℕ → Surroundings) where
  -- One call, after what others did before it.
  abbrev pub call : {A : Type 0} → (Surroundings → Op Store A) → Op Served A
  call m (s, n) = let (r, s') = m (around n) ((around n).before s) in (r, (s', suc n))

  -- The value is dropped.
  abbrev pub dropped : {A : Type 0} → Op Store A → Op Store (Unit {0})
  dropped m = m >>= (λ a. pure tt)

  abbrev getting_flow : String → Version → Surroundings → Op Store FlowDefinition
  getting_flow name version u =
      Flows.get_flow (memory l) services name (some version) >>= (λ stored. pure stored.definition)

  abbrev waiting : ℕ → Surroundings → Op Store (List Event)
  waiting from u = Scheduling.wait_for_events (memory l) services fuel from 100 u.waits

  abbrev publishing : RunId → Address → Surroundings → Op Store (Unit {0})
  publishing run_id a u s =
      dropped (Scheduling.publish_task (memory l) services fuel run_id a (u.task_id s) u.now) s

  abbrev starting : RunId → Address → Surroundings → Op Store (Unit {0})
  starting parent a u s =
      dropped
        (Scheduling.start_sub_run (memory l) services fuel parent a (u.run_id s) u.now u.during) s

  abbrev succeeding : RunId → Option Reference → Surroundings → Op Store (Unit {0})
  succeeding run_id output u =
      dropped (Scheduling.succeed_run (memory l) services fuel run_id output u.now)

  abbrev failing : RunId → Text → Surroundings → Op Store (Unit {0})
  failing run_id reason u = Scheduling.fail_run (memory l) services fuel run_id reason u.now

  abbrev pub managed : ManagerClient
  managed = record {
    State = Served;
    get_flow = λ name version. call (getting_flow name version);
    get_run = λ run_id. call (λ u. Flows.get_run (memory l) services run_id);
    run_state = λ run_id. call (λ u. Flows.run_state (memory l) services run_id);
    wait_for_events = λ from. call (waiting from);
    publish_task = λ run_id a. call (publishing run_id a);
    start_sub_run = λ run_id a. call (starting run_id a);
    succeed_run = λ run_id output. call (succeeding run_id output);
    fail_run = λ run_id reason. call (failing run_id reason);
  }

-- Others only make requests, and the random ids are new.
pub record IsPeaceful (l : Libraries) (u : Surroundings) : Type 0 where
  pub requests : (s : Store) → Later l s (u.before s)
  pub harmless : (s : Store) → IsHarmless l (u.run_id s) u.during
  pub new_run : (s : Store) → Dict.get (u.run_id s) s.runs ≡ none
  pub new_task : (s : Store) → Dict.get (u.task_id s) s.tasks ≡ none
  pub woken : AreWaits l u.waits

module _ (l : Libraries) (services : Services) (fuel : ℕ) (around : ℕ → Surroundings)
    (peaceful : (n : ℕ) → IsPeaceful l (around n)) where
  abbrev pub Leads : Served → Served → Type 0
  Leads s t = Later l s.0 t.0

  pub called :
      {A : Type 0} (m : Surroundings → Op Store A)
      → ((n : ℕ) (s : Store) → Later l s (m (around n) s).1)
      → (s : Served) → Leads s (call l services fuel around m s).1
  called m h (s, n) = Later-trans ((peaceful n).requests s) (h n ((around n).before s))

  read :
      {A : Type 0} (m : Surroundings → Op Store A)
      → ((u : Surroundings) → Reads (m u))
      → (s : Served) → Leads s (call l services fuel around m s).1
  read m h = called m (λ n s. subst (λ t. Later l s t) (sym (h (around n) s)) now_itself)

  pub drop :
      {A : Type 0} (s : Store) (r : Result A × Store)
      → Later l s r.1
      → Later l s (continue r.0 (λ a. pure tt) r.1).1
  drop s r h = continue-Later l r.0 (λ a. pure tt) s r.1 h (λ a. now_itself)

  getting_flow-Reads :
      (name : String) (version : Version) (u : Surroundings)
      → Reads (getting_flow l services fuel around name version u)
  unfolding Flows.get_flow
  getting_flow-Reads name version u =
      >>=-Reads (lift (check_lookup name) >>= (λ checked. (memory l).get_flow name (some version)))
        _
        (>>=-Reads (lift (check_lookup name)) _ (λ s. refl)
          (λ checked. get_flow-Reads name (some version)))
        (λ stored s. refl)

  pub managed-IsFollowed : IsFollowed (managed l services fuel around) Leads
  unfolding Flows.get_run Flows.run_state
  managed-IsFollowed = record {
    start = λ s. now_itself;
    join = λ s t u h h'. Later-trans h h';
    get_flow = λ name version.
        read (getting_flow l services fuel around name version) (getting_flow-Reads name version);
    get_run =
        λ run_id. read (λ u. Flows.get_run (memory l) services run_id) (λ u. get_run-Reads run_id);
    run_state = λ run_id.
        read (λ u. Flows.run_state (memory l) services run_id) (λ u. run_state-Reads l run_id);
    wait_for_events = λ from. called (waiting l services fuel around from) (λ n s.
        wait_for_events-Later l services fuel from 100 (around n).waits s (peaceful n).woken);
    publish_task = λ run_id a. called (publishing l services fuel around run_id a) (λ n s.
        drop s _ (
          publish_task-Later l services fuel run_id a ((around n).task_id s) (around n).now s
            ((peaceful n).new_task s)));
    start_sub_run = λ run_id a. called (starting l services fuel around run_id a) (λ n s. drop s _ (
        start_sub_run-Later l services fuel run_id a ((around n).run_id s) (around n).now
          (around n).during s ((peaceful n).new_run s) ((peaceful n).harmless s)));
    succeed_run = λ run_id output.
        called (succeeding l services fuel around run_id output)
          (λ n s. drop s _ (succeed_run-Later l services fuel run_id output (around n).now s));
    fail_run = λ run_id reason.
        called (failing l services fuel around run_id reason)
          (λ n s. fail_run-Later l services fuel run_id reason (around n).now s);
  }

  -- However many turns the scheduler takes over a manager, whatever others ask of the store before
  -- and during its calls, and whatever the calls return or raise: the store that it leaves is one
  -- that requests to the store reach.
  pub run-Later :
      (texts : Texts) (turns : ℕ)
      (s : Scheduler.Scheduler (managed l services fuel around) texts fuel)
      → Later l s.client.0
          (Scheduler.run (managed l services fuel around) texts fuel turns s).1.client.0
  run-Later texts turns s =
      run-Follows (managed l services fuel around) texts fuel (λ t u. Leads t.client u.client)
        (carried (managed l services fuel around) texts fuel Leads managed-IsFollowed)
        (λ events t. now_itself) turns s
