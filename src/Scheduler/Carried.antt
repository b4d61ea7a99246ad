-- ===== src/Scheduler/Carried.antt =====
-- Relations between the scheduler's states that its steps lead along.
use neorc.Prelude.{ℕ, String, nat_eq, string_eq, pair_eq, Option, ◌≡◌, refl, ◌∙◌}
use neorc.Json.{Text}
use neorc.Flow.Definition.{Version, Reference, FlowDefinition}
use neorc.Flow.RunState.{Address}
use neorc.Runs.Uploads.{version_key}
use neorc.Runs.{RunId}
use neorc.Scheduler
use neorc.Scheduler.{
  ManagerClient, Texts, is_passed_on, is_neorc_error, is_access_error, is_run_finished,
}

-- Each call of the client takes its state to one that the relation leads to.
pub record IsFollowed (c : ManagerClient) (Leads : c.State → c.State → Type 0) : Type 0 where
  pub start : (s : c.State) → Leads s s
  pub join : (s t u : c.State) → Leads s t → Leads t u → Leads s u
  pub get_flow :
      (name : String) (version : Version) (s : c.State) → Leads s (c.get_flow name version s).1
  pub get_run : (run_id : RunId) (s : c.State) → Leads s (c.get_run run_id s).1
  pub run_state : (run_id : RunId) (s : c.State) → Leads s (c.run_state run_id s).1
  pub wait_for_events : (after : ℕ) (s : c.State) → Leads s (c.wait_for_events after s).1
  pub publish_task :
      (run_id : RunId) (a : Address) (s : c.State) → Leads s (c.publish_task run_id a s).1
  pub start_sub_run :
      (run_id : RunId) (a : Address) (s : c.State) → Leads s (c.start_sub_run run_id a s).1
  pub succeed_run :
      (run_id : RunId) (output : Option Reference) (s : c.State)
      → Leads s (c.succeed_run run_id output s).1
  pub fail_run :
      (run_id : RunId) (reason : Text) (s : c.State) → Leads s (c.fail_run run_id reason s).1

-- Each step of the scheduler but the last of a turn takes its state to one that the relation leads
-- to.
pub record IsCarried (c : ManagerClient) (texts : Texts) (fuel : ℕ)
    (Leads : Scheduler.Scheduler c texts fuel → Scheduler.Scheduler c texts fuel → Type 0)
    : Type 0 where
  pub start : (s : Scheduler.Scheduler c texts fuel) → Leads s s
  pub join : (s t u : Scheduler.Scheduler c texts fuel) → Leads s t → Leads t u → Leads s u
  pub get_flow :
      (name : String) (version : Version) (s : Scheduler.Scheduler c texts fuel)
      → Leads s (Scheduler.ask c texts fuel (c.get_flow name version) s).1
  pub learn :
      (key : String × Version) (definition : FlowDefinition) (s : Scheduler.Scheduler c texts fuel)
      → Leads s (Scheduler.keep_definition c texts fuel key definition s).1
  pub get_run :
      (run_id : RunId) (s : Scheduler.Scheduler c texts fuel)
      → Leads s (Scheduler.ask c texts fuel (c.get_run run_id) s).1
  pub run_state :
      (run_id : RunId) (s : Scheduler.Scheduler c texts fuel)
      → Leads s (Scheduler.ask c texts fuel (c.run_state run_id) s).1
  pub wait_for_events :
      (from : ℕ) (s : Scheduler.Scheduler c texts fuel)
      → Leads s (Scheduler.ask c texts fuel (c.wait_for_events from) s).1
  pub publish_task :
      (run_id : RunId) (a : Address) (s : Scheduler.Scheduler c texts fuel)
      → Leads s (Scheduler.ask c texts fuel (c.publish_task run_id a) s).1
  pub start_sub_run :
      (run_id : RunId) (a : Address) (s : Scheduler.Scheduler c texts fuel)
      → Leads s (Scheduler.ask c texts fuel (c.start_sub_run run_id a) s).1
  pub succeed_run :
      (run_id : RunId) (output : Option Reference) (s : Scheduler.Scheduler c texts fuel)
      → Leads s (Scheduler.ask c texts fuel (c.succeed_run run_id output) s).1
  pub fail_run :
      (run_id : RunId) (reason : Text) (s : Scheduler.Scheduler c texts fuel)
      → Leads s (Scheduler.ask c texts fuel (c.fail_run run_id reason) s).1

-- What the client's calls do to its state is what the scheduler's steps do to it.
pub carried :
    (c : ManagerClient) (texts : Texts) (fuel : ℕ) (Leads : c.State → c.State → Type 0)
    → IsFollowed c Leads
    → IsCarried c texts fuel (λ s t. Leads s.client t.client)
carried c texts fuel Leads k = record {
  start = λ s. k.start s.client;
  join = λ s t u h h'. k.join s.client t.client u.client h h';
  get_flow = λ name version s. k.get_flow name version s.client;
  learn = λ key definition s. k.start s.client;
  get_run = λ run_id s. k.get_run run_id s.client;
  run_state = λ run_id s. k.run_state run_id s.client;
  wait_for_events = λ from s. k.wait_for_events from s.client;
  publish_task = λ run_id a s. k.publish_task run_id a s.client;
  start_sub_run = λ run_id a s. k.start_sub_run run_id a s.client;
  succeed_run = λ run_id output s. k.succeed_run run_id output s.client;
  fail_run = λ run_id reason s. k.fail_run run_id reason s.client;
}

-- The sequence that the scheduler reads on from is changed by no other step.
pub after-IsCarried :
    (c : ManagerClient) (texts : Texts) (fuel : ℕ)
    → IsCarried c texts fuel (λ s t. t.after ≡ s.after)
after-IsCarried c texts fuel = record {
  start = λ s. refl;
  join = λ s t u h h'. h' ∙ h;
  get_flow = λ name version s. refl;
  learn = λ key definition s. refl;
  get_run = λ run_id s. refl;
  run_state = λ run_id s. refl;
  wait_for_events = λ from s. refl;
  publish_task = λ run_id a s. refl;
  start_sub_run = λ run_id a s. refl;
  succeed_run = λ run_id output s. refl;
  fail_run = λ run_id reason s. refl;
}
