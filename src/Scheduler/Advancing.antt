-- ===== src/Scheduler/Advancing.antt =====
-- What the scheduler makes of the state behind its client is what the client's calls make of it.
use neorc.Prelude.{
  ℕ, zero, suc, nat_eq, string_eq, pair_eq, inl, inr, Bool, true, false, List, [], ◌∷◌,
  Option-cases, if◌then◌else◌,
}
use neorc.Prelude.Dict
use neorc.Errors.{Error, Result, ok, err}
use neorc.Planner.{plan}
use neorc.Planner.Actions.{Action, publish_task, start_sub_run, succeed_run, fail_run}
use neorc.Runs.Uploads.{version_key}
use neorc.Runs.{RunId, Run, Event, is_active}
use neorc.Manager.Calls.{Op, continue, ◌>>=◌, lift}
use neorc.Scheduler
use neorc.Scheduler.{
  ManagerClient, Texts, is_passed_on, is_neorc_error, is_access_error, is_run_finished,
}
use neorc.Scheduler.Carried.{IsCarried}

module _ (c : ManagerClient) (texts : Texts) (fuel : ℕ)
    (Leads : Scheduler.Scheduler c texts fuel → Scheduler.Scheduler c texts fuel → Type 0)
    (k : IsCarried c texts fuel Leads) where
  abbrev State : Type 0
  State = Scheduler.Scheduler c texts fuel

  -- The call takes the state to one that the relation leads to, from wherever it is.
  abbrev Follows : {A : Type 0} → Op State A → Type 0
  Follows m = (s : State) → Leads s (m s).1

  continue-Follows :
      {A B : Type 0} (r : Result A) (f : A → Op State B) (s t : State)
      → Leads s t
      → ((a : A) → Follows (f a))
      → Leads s (continue r f t).1
  continue-Follows (ok a) f s t h next = k.join s t (f a t).1 h (next a t)
  continue-Follows (err e) f s t h next = h

  >>=-Follows :
      {A B : Type 0} (m : Op State A) (f : A → Op State B)
      → Follows m
      → ((a : A) → Follows (f a))
      → Follows (m >>= f)
  >>=-Follows m f h next s = continue-Follows (m s).0 f s (m s).1 (h s) next

  when :
      {A : Type 0} (b : Bool) (m n : Op State A)
      → Follows m
      → Follows n
      → Follows (if b then m else n)
  when true m n h h' = h
  when false m n h h' = h'

  stays : {A : Type 0} (r : Result A) → Follows (lift r)
  stays r s = k.start s

  definition_of-Follows : (run : Run) → Follows (Scheduler.definition_of c texts fuel run)
  unfolding Scheduler.definition_of Scheduler.fetch
  definition_of-Follows run s =
      elim (Option-cases (Dict.get (run.flow, run.version) s.definitions)) [
        | inr (definition, known) ↦ rw (known, Scheduler.definition_of) (k.start s)
        | inl unknown ↦
            rw (unknown, Scheduler.definition_of)
              (>>=-Follows (Scheduler.ask c texts fuel (c.get_flow run.flow run.version)) _
                (λ t. k.get_flow run.flow run.version t)
                (λ definition t. k.learn (run.flow, run.version) definition t) s)
      ]

  pub apply-Follows :
      (run : Run) (action : Action) → Follows (Scheduler.apply c texts fuel run action)
  unfolding Scheduler.apply
  apply-Follows run (publish_task a step) s = k.publish_task run.id a s
  apply-Follows run (start_sub_run a step) s = k.start_sub_run run.id a s
  apply-Follows run (succeed_run output) s = k.succeed_run run.id output s
  apply-Follows run (fail_run reason) s = k.fail_run run.id (texts.planned reason) s

  rejected-Follows :
      (run : Run) (action : Action) (e : Error)
      → Follows (Scheduler.rejected c texts fuel run action e)
  unfolding Scheduler.rejected
  rejected-Follows run action e =
      >>=-Follows (Scheduler.ask c texts fuel (c.get_run run.id)) _ (λ s. k.get_run run.id s)
        (λ current.
          when (is_active current.status) _ _ (λ s. k.fail_run run.id (texts.rejection action e) s)
            (λ s. k.start s))

  applied-Follows :
      (run : Run) (action : Action) (rest : Op State (Unit {0})) (r : Result (Unit {0}))
      → Follows rest
      → Follows (Scheduler.applied c texts fuel run action rest r)
  unfolding Scheduler.applied
  applied-Follows run action rest (ok done) h = h
  applied-Follows run action rest (err e) h =
      when (is_passed_on e) _ _ (λ s. k.start s)
        (when (is_neorc_error e) _ _ (rejected-Follows run action e) (λ s. k.start s))

  apply_all-Follows :
      (run : Run) (actions : List Action) → Follows (Scheduler.apply_all c texts fuel run actions)
  unfolding Scheduler.apply_all
  apply_all-Follows run [] s = k.start s
  apply_all-Follows run (action ∷ actions) s =
      let t = (Scheduler.apply c texts fuel run action s).1 in
      k.join s t _ (apply-Follows run action s) (
        applied-Follows run action (Scheduler.apply_all c texts fuel run actions)
          (Scheduler.apply c texts fuel run action s).0 (apply_all-Follows run actions) t)

  advance_active-Follows : (run : Run) → Follows (Scheduler.advance_active c texts fuel run)
  unfolding Scheduler.advance_active
  advance_active-Follows run =
      >>=-Follows (Scheduler.definition_of c texts fuel run) _ (definition_of-Follows run)
        (λ definition.
          >>=-Follows (Scheduler.ask c texts fuel (c.run_state run.id)) _
            (λ s. k.run_state run.id s)
            (λ state.
              >>=-Follows (lift (plan fuel definition state)) _ (λ s. k.start s)
                (λ actions. apply_all-Follows run actions)))

  pub advance-Follows :
      (run_id : RunId) (s : State) → Leads s (Scheduler.advance c texts fuel run_id s).1
  unfolding Scheduler.advance
  advance-Follows run_id =
      >>=-Follows (Scheduler.ask c texts fuel (c.get_run run_id)) _ (λ s. k.get_run run_id s)
        (λ run. when (is_active run.status) _ _ (advance_active-Follows run) (λ s. k.start s))

  pub runs_to_advance-Follows :
      (event : Event) → Follows (Scheduler.runs_to_advance c texts fuel event)
  unfolding Scheduler.runs_to_advance
  runs_to_advance-Follows event =
      when (is_run_finished event.kind) _ _
        (>>=-Follows (Scheduler.ask c texts fuel (c.get_run event.run_id)) _
          (λ s. k.get_run event.run_id s) (λ run t. k.start t))
        (λ s. k.start s)

  pub runs_of-Follows :
      (runs : List RunId) (events : List Event)
      → Follows (Scheduler.runs_of c texts fuel runs events)
  unfolding Scheduler.runs_of
  runs_of-Follows runs [] = stays (ok runs)
  runs_of-Follows runs (event ∷ events) =
      >>=-Follows (Scheduler.runs_to_advance c texts fuel event) _ (runs_to_advance-Follows event)
        (λ more. runs_of-Follows (Scheduler.add_new runs more) events)

  pub advance_all-Follows :
      (run_ids : List RunId) → Follows (Scheduler.advance_all c texts fuel run_ids)
  unfolding Scheduler.advance_all
  advance_all-Follows [] = stays (ok tt)
  advance_all-Follows (run_id ∷ run_ids) =
      >>=-Follows (Scheduler.advance c texts fuel run_id) _ (advance-Follows run_id)
        (λ done. advance_all-Follows run_ids)

  module _
      (moved : (events : List Event) (s : State)
        → Leads s (Scheduler.move_on c texts fuel events s).1) where
    run_once-Follows : Follows (Scheduler.run_once c texts fuel)
    unfolding Scheduler.run_once
    run_once-Follows s =
        >>=-Follows (Scheduler.ask c texts fuel (c.wait_for_events s.after)) _
          (λ t. k.wait_for_events s.after t)
          (λ events.
            >>=-Follows (Scheduler.runs_of c texts fuel [] events) _ (runs_of-Follows [] events)
              (λ runs.
                >>=-Follows (Scheduler.advance_all c texts fuel runs) _ (advance_all-Follows runs)
                  (λ done t. moved events t)))
          s

    turned-Follows :
        (rest : Op State (Unit {0})) (r : Result (List Event))
        → Follows rest
        → Follows (Scheduler.turned c texts fuel rest r)
    unfolding Scheduler.turned
    turned-Follows rest (ok events) h = h
    turned-Follows rest (err e) h =
        when (is_access_error e) _ _ (λ s. k.start s)
          (when (is_neorc_error e) _ _ h (λ s. k.start s))

    -- However many turns the scheduler takes, and whatever its client's calls return or raise, its
    -- state moves as those steps move it.
    pub run-Follows : (turns : ℕ) (s : State) → Leads s (Scheduler.run c texts fuel turns s).1
    unfolding Scheduler.run
    run-Follows zero s = k.start s
    run-Follows (suc turns) s =
        let t = (Scheduler.run_once c texts fuel s).1 in
        k.join s t _ (run_once-Follows s) (
          turned-Follows (Scheduler.run c texts fuel turns) (Scheduler.run_once c texts fuel s).0
            (run-Follows turns) t)
