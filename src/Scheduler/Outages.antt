-- ===== src/Scheduler/Outages.antt =====
-- What the scheduler makes of actions that the manager does not take while it is away, or refuses
-- the scheduler.
use neorc.Prelude.{ℕ, ◌≡◌, ◌⊎◌}
use neorc.Errors.{Error, Result, ok, err, manager_unavailable, authentication, permission_denied}
use neorc.Runs.{Run}
use neorc.Planner.Actions.{Action, publish_task, start_sub_run, succeed_run, fail_run}
use neorc.Manager.Calls.{Op}
use neorc.Scheduler
use neorc.Scheduler.{ManagerClient, Texts}

-- The manager cannot be reached, or does not take requests from the scheduler.
unfoldable pub IsOutage : Error → Type 0
IsOutage e = (e ≡ manager_unavailable) ⊎ ((e ≡ authentication) ⊎ (e ≡ permission_denied))

-- Where a call raises, it is an outage.
abbrev pub IsSpared : Result (Unit {0}) → Type 0
IsSpared (ok done) = Unit
IsSpared (err e) = IsOutage e

-- What an action asks of the manager.
abbrev pub request : (c : ManagerClient) → Texts → Run → Action → Op c.State (Unit {0})
request c texts run (publish_task address step) = c.publish_task run.id address
request c texts run (start_sub_run address step) = c.start_sub_run run.id address
request c texts run (succeed_run output) = c.succeed_run run.id output
request c texts run (fail_run reason) = c.fail_run run.id (texts.planned reason)

module _ (c : ManagerClient) (texts : Texts) (fuel : ℕ) (Leads : c.State → c.State → Type 0)
    (start : (s : c.State) → Leads s s)
    (join : (s t u : c.State) → Leads s t → Leads t u → Leads s u)
    (follows : (run : Run) (action : Action) (s : c.State)
      → Leads s (request c texts run action s).1)
    (spared : (run : Run) (action : Action) (s : c.State)
      → IsSpared (request c texts run action s).0) where
  abbrev State : Type 0
  State = Scheduler.Scheduler c texts fuel
