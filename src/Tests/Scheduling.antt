-- ===== src/Tests/Scheduling.antt =====
-- The scheduler over a manager with one run, and over a client that is refused.
use neorc.Prelude.{
  ℕ, suc, ◌≡◌, ◌≤◌, refl, none, some, inl, [], ◌∷◌, nat_eq, string_eq, pair_eq, if◌then◌else◌, ltb,
  arith,
}
use neorc.Prelude.Dict
use neorc.Prelude.Dict.{Dict}
use neorc.Errors.{ok, err, authentication, manager_unavailable}
use neorc.Planner.Actions.{publish_task, start_sub_run, succeed_run, fail_run}
use neorc.Scheduler.Carried.{IsFollowed}
use neorc.Scheduler.Events.{IsAdvanced, Concerns, run_once-advances}
use neorc.Scheduler.Position.{IsLeftAt, run_once-IsLeftAt}
use neorc.Runs.{Event, EventKind, Run, RunStatus}
use neorc.Store.Requests.{now_itself}
use neorc.Manager.Calls.{raise, pure}
use neorc.Scheduler
use neorc.Scheduler.{ManagerClient, Texts}
use neorc.Scheduler.Managed.{Surroundings, IsPeaceful, managed}
use neorc.Scheduler.Turns.{IsOnce, runs_of-IsOnce}
use neorc.Tests.Samples.{libraries, one_run}
use neorc.Tests.Serving.{services, new_run}

-- A number above every key.
abbrev above : {V : Type 0} → Dict ℕ V → ℕ
above [] = 0
above ((k, v) ∷ d) = let rest = above d in if ltb rest (suc k) then suc k else rest

above-absent : {V : Type 0} (n : ℕ) (d : Dict ℕ V) → above d ≤ n → Dict.get n d ≡ none
unfolding Dict.get
above-absent n [] h = refl
above-absent n ((k, v) ∷ d) h = ground (arith, above-absent n d)

abbrev pub quiet : ℕ → Surroundings
quiet n = record {
  before = λ s. s;
  during = λ m s. s;
  now = 10;
  run_id = λ s. above s.runs;
  task_id = λ s. above s.tasks;
  waits = [];
}

pub quiet-IsPeaceful : (n : ℕ) → IsPeaceful libraries (quiet n)
quiet-IsPeaceful n = record {
  requests = λ s. now_itself;
  harmless = λ s. record { requests = λ m t. now_itself; unused = λ m t h. h };
  new_run = λ s. above-absent (above s.runs) s.runs (ground arith);
  new_task = λ s. above-absent (above s.tasks) s.tasks (ground arith);
  woken = tt;
}

abbrev texts : Texts
texts = record { planned = λ r. []; rejection = λ a e. [] }

abbrev over_one_run : Scheduler.Scheduler (managed libraries services 10 quiet) texts 10
over_one_run = record { client = (one_run, 0); after = 0; definitions = [] }

abbrev same_run : ℕ → Event
same_run n = record { sequence = n; run_id = 7; kind = EventKind.task_finished }

runs_of-IsOnce_example : IsOnce (7 ∷ [])
unfolding Scheduler.runs_of
runs_of-IsOnce_example =
    runs_of-IsOnce (managed libraries services 10 quiet) texts 10 (same_run 2 ∷ same_run 3 ∷ []) []
      (7 ∷ []) over_one_run tt refl

abbrev refused : ManagerClient
refused = record {
  State = Unit {0};
  get_flow = λ name version. raise authentication;
  get_run = λ run_id. raise authentication;
  run_state = λ run_id. raise authentication;
  wait_for_events = λ from. raise authentication;
  publish_task = λ run_id a. raise authentication;
  start_sub_run = λ run_id a. raise authentication;
  succeed_run = λ run_id output. raise authentication;
  fail_run = λ run_id reason. raise authentication;
}

abbrev over_refused : Scheduler.Scheduler refused texts 10
over_refused = record { client = tt; after = 0; definitions = [] }

-- A client with one event: a run has finished, and so has the run that it is a sub-run of.
abbrev finished_run : Run
finished_run = record new_run { status = RunStatus.succeeded; parent_id = some 7 }

abbrev over : Event
over = record { sequence = 4; run_id = 9; kind = EventKind.run_finished }

abbrev calm : ManagerClient
calm = record refused {
  get_run = λ run_id. pure finished_run;
  wait_for_events = λ from. pure (over ∷ []);
}

abbrev over_calm : Scheduler.Scheduler calm texts 10
over_calm = record { client = tt; after = 0; definitions = [] }

abbrev Anything : Unit {0} → Unit {0} → Type 0
Anything s t = Unit

Anything-IsFollowed : IsFollowed calm Anything
Anything-IsFollowed = record {
  start = λ s. tt;
  join = λ s t u h h'. tt;
  get_flow = λ name version s. tt;
  get_run = λ run_id s. tt;
  run_state = λ run_id s. tt;
  wait_for_events = λ from s. tt;
  publish_task = λ run_id a s. tt;
  start_sub_run = λ run_id a s. tt;
  succeed_run = λ run_id output s. tt;
  fail_run = λ run_id reason s. tt;
}

abbrev turned : Scheduler.Scheduler calm texts 10
turned = (Scheduler.run_once calm texts 10 over_calm).1

run_once-advances_example :
    ((calm.wait_for_events 0 tt).0 ≡ ok (over ∷ []))
    × Concerns calm texts 10 Anything Anything-IsFollowed
        (λ id. IsAdvanced calm texts 10 Anything Anything-IsFollowed id over_calm turned)
        over
        over_calm
        turned
unfolding Scheduler.run_once
run_once-advances_example =
    run_once-advances calm texts 10 Anything Anything-IsFollowed (over ∷ []) over_calm turned over
      refl (inl refl)

run_once-IsLeftAt_example :
    IsLeftAt calm texts 10 0 (Scheduler.run_once calm texts 10 over_calm).0 turned.after
run_once-IsLeftAt_example = run_once-IsLeftAt calm texts 10 over_calm

-- A client that counts what is asked of it while the manager is away.
abbrev away : ManagerClient
away = record {
  State = ℕ;
  get_flow = λ name version s. (err manager_unavailable, suc s);
  get_run = λ run_id s. (ok finished_run, suc s);
  run_state = λ run_id s. (err manager_unavailable, suc s);
  wait_for_events = λ from s. (err manager_unavailable, suc s);
  publish_task = λ run_id a. raise manager_unavailable;
  start_sub_run = λ run_id a. raise manager_unavailable;
  succeed_run = λ run_id output. raise manager_unavailable;
  fail_run = λ run_id reason. raise manager_unavailable;
}

abbrev over_away : Scheduler.Scheduler away texts 10
over_away = record { client = 0; after = 0; definitions = [] }
