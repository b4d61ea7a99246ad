-- ===== src/Lib.antt =====
-- A verification library of neorc, an orchestrator of task flows: the core that decides what happens
-- to a run, python/neorc-core.
--
-- A flow definition is a tree of tasks, sub-flows, loops and fan-outs, whose steps refer to each
-- other's results. A run of a flow has a state: what its tasks and sub-flow runs came to. The planner
-- turns a definition and a state into actions: publish a task, start a sub-flow's run, end the run.
-- The store keeps flow versions, runs, tasks and events; workers receive tasks from it under leases,
-- claim them and report on them, and a scheduler follows the events and plans. Both reach the store
-- through the manager, which checks what it is asked; who may ask is decided by access: tokens of
-- workers and services, and sessions of people who sign in.
--
-- The files, with the code under python/neorc-core/src/neorc_core/ that they model:
--   Errors           _errors.py: the exceptions, and `Result` for a call that may raise
--   Json, Values     _values.py: JSON values; user values, `encode` and `decode`
--   Flow/Definition  flows/_definition.py: steps, references, versions
--   Flow/Versions    flows/_definition.py: the text of a version
--   Flow/Walk        flows/_definition.py: `walk`, `step`, `enclosing`, `waits_on`
--   Flow/RunState    flows/_run_state.py: `Address`, `RunState` and its `last`
--   Flow/References  flows/_references.py: `shape`, `fan_out_width` and the collector; `resolve` is in
--                    Flow/References/Resolve
--   Flow/Validation  flows/_validation.py: the checks of one flow; the search for cycles is in
--                    Flow/Validation/Cycles, the checks of a set of flows in Flow/Validation/Flows
--   Planner          _planner.py: `plan`; its methods are in Planner/Finished and Planner/Advance
--   Task             _task.py: statuses and `ensure_transition`
--   Runs             _runs.py: `Run`, `Task`, `Event`, `run_state_of`; uploads in Runs/Uploads
--   Store            local/_memory_store.py: the state and private methods; Store/Flows, Store/Runs
--                    and Store/Tasks hold the operations; Store/Port is ports/_store.py
--   Manager          _manager.py: its functions are in Manager/Checks, its calls in Manager/Flows,
--                    Manager/Scheduling and Manager/Working, over Store/Port
--   Scheduler        _scheduler.py, over what it calls of ports/_clients.py
--   Worker           _worker.py: the execution of one task, over what it calls of ports/_clients.py
--   Access           _access.py: roles, permissions, and who may sign in; the class Access is in
--                    Access/Signing, over Credentials/Port
--   Credentials      local/_memory_credentials.py; Credentials/Port is ports/_credentials.py
-- What is proved of them stands in Planner/Enabled, Planner/Soundness, Planner/Decisions and
-- Planner/Completeness; in Store/Changes (an abstract machine), Store/Sound (when the tables
-- agree), Store/Refines, Store/Requests, Store/Leases, Store/Trees, Store/Publishing and
-- Store/Raising; in Values/RoundTrip and Values/Sizes; in Manager/Reading, Manager/Starting,
-- Manager/Requests, Manager/Waiting, Manager/Serving, Manager/Asked, Manager/Admitted,
-- Manager/Unchanged, Manager/Queues, Manager/Reports, Manager/Checks/Fitting and Manager/Inputs; in
-- Scheduler/Carried, Scheduler/Advancing, Scheduler/Managed, Scheduler/Turns, Scheduler/Collecting,
-- Scheduler/Events, Scheduler/Position and Scheduler/Outages; in Worker/Kept, Worker/Managed and
-- Worker/Recorded; in Access/Permitted, Access/Rows,
-- Access/Issued, Access/Logins and Access/Sessions; and in Flow/Versions/RoundTrip and
-- Flow/Validation/Cycles/Ends. Tests holds concrete flows, stores and credentials.
--
-- How the model stands to the code:
--   * A method that writes is a function of the store, the clock and a random id, which gives its
--     result with the store it leaves, changed or not when it raises. The store's lock makes a method
--     one step. Ids and times are natural numbers, and a lease is a length of time.
--   * A dictionary is an association list in insertion order. A set of names is a list.
--   * A text that comes from users is a list of code points; names are strings. A float is its 64 bits.
--   * `_planner.py` raises to leave; `Planned` says whether a method returned or what it raised. Its
--     list of actions, which it appends to, is the list that a method returns.
--   * Messages of exceptions are left out; a run's reason that the planner gives is a value, and one
--     that an operation stores is an argument.
--   * `resolve` calls itself only through a fan-out over a list, or the item of one, and each such call
--     spends one unit of fuel; with none left it raises `recursion`, as Python does. Fuel of one more
--     than the longest chain of such fan-outs is meant to be enough, which is not proved here. The
--     search for cycles spends one unit for each node on its path, which holds no node twice, and is
--     given two more than there are nodes with edges, so that it never runs out; the RecursionError that CPython raises where a chain is
--     longer than its own limit is not represented.
--     `decimal` has fuel for each digit.
--   * What others do to the store while a call of the manager waits, or between its reading a flow's
--     latest version and starting a run of it, is an argument: functions from stores to stores. A wait
--     is the list of its turns, which says how each ended. A lease, a session's life and the other
--     spans are whole numbers of seconds.
--   * The manager passes its fuel on to `resolve`, and the scheduler to `plan`. The scheduler's loop,
--     which `stop` ends, is a number of turns. Scheduler/Managed and Worker/Managed join the
--     scheduler and a worker to the manager without the wire forms that stand between them.
--   * What a handler comes to, and how many heartbeats a worker sends while it works, are arguments.
--   * `json.dumps`, `uuid.uuid5`, `str.lower`, the hash of a secret, random secrets,
--     `datetime.isoformat`, `datetime.fromisoformat`, the values of decimal digits and the digit limit
--     of `str` are parameters.
--
-- Not modelled: reading flow files (flows/_loader.py, but for `validate_flow_set`) and the
-- manager's `upload_flows`, which calls it; the worker's loop and how it finds its handlers, the
-- wire formats, subscriptions and notifiers, and the local cluster; adapters for Postgres, HTTP,
-- sign-in, the command line and the browser, which are input and output.
pub mod Prelude
pub mod Errors
pub mod Json
pub mod Values
pub mod Flow
pub mod Planner
pub mod Task
pub mod Access
pub mod Runs
pub mod Store
pub mod Manager
pub mod Credentials
pub mod Scheduler
pub mod Worker
pub mod Tests
