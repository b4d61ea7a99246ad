-- ===== src/Manager/Admitted.antt =====
-- What the manager's calls ask of their arguments and of the store.
use neorc.Prelude.{ℕ, nat_eq, string_eq, ◌≡◌, ap, true, some, arith}
use neorc.Prelude.Dict
use neorc.Errors.{Result, ok, err}
use neorc.Flow.Definition.{is_queue_name, is_name}
use neorc.Runs.{Time, Run, Task, Libraries}
use neorc.Store.{Store}
use neorc.Prelude.Dict.{Dict}
use neorc.Manager.Checks.{Services}
use neorc.Manager.Serving.{
  Call, starts, cancels, fails, succeeds, publishes, starts_sub_run, receives, claims, extends,
  reports, serve, answer,
}
use neorc.Manager.Asked.{IsActive, IsOn, IsHandedOut, IsLease, IsHeld}
use neorc.Manager.Asked.Calls.{
  publish_task-IsActive, start_sub_run-IsActive, succeed_run-IsActive, cancel_run-IsActive,
  fail_run-known, claim_task-admitted, extend_lease-admitted, report_finished-admitted,
  receive_task-admitted, start_run-named,
}

-- What each call asks for.
pub IsAdmitted : Call → Store → Type 0
IsAdmitted (starts flow inputs fresh others) s = is_name flow ≡ true
IsAdmitted (cancels id reason) s = IsActive id s
IsAdmitted (fails id reason) s = (run : Run) × (Dict.get id s.runs ≡ some run)
IsAdmitted (succeeds id output) s = IsActive id s
IsAdmitted (publishes id a fresh) s = IsActive id s
IsAdmitted (starts_sub_run parent a fresh others) s = IsActive parent s
IsAdmitted (receives queue lease turns) s = (is_queue_name queue ≡ true) × IsLease lease
IsAdmitted (claims id queue why) s =
    (t : Task) × (Dict.get id s.tasks ≡ some t) × IsOn queue t × IsHandedOut t × IsActive t.run_id s
IsAdmitted (extends id lease queue) s = IsLease lease × IsHeld id queue s
IsAdmitted (reports id report queue) s = IsHeld id queue s

module _ (l : Libraries) (services : Services) (fuel : ℕ) where
  -- A call whose answer is that it returned, did.
  answer-returns :
      {A : Type 0} (r : Result A × Store) (s' : Store)
      → answer r ≡ (ok tt, s')
      → (a : A) × (r ≡ (ok a, s'))
  answer-returns (ok a, t) s' h = (a, ap (λ x. (ok a, x.1)) h)
  answer-returns (err e, t) s' h = absurd (ground arith)

  -- A call of the manager that returns was made with what it asks for: a start names a flow by a name,
  -- a cancel, a success, a publishing and the start of a sub-run are of a run that is stored and
  -- active, a failure of a run that is stored; a receive names a queue by a queue's name; a receive and
  -- a heartbeat are for more than no time and at most MAX_LEASE_SECONDS; a claim, a heartbeat and a
  -- report are of a stored task, on the queue that the caller is bound to, if it is, which has been
  -- handed out and has not ended; and a claim is in an active run.
  pub serve-IsAdmitted :
      (call : Call) (now : Time) (s s' : Store)
      → serve l services fuel call now s ≡ (ok tt, s')
      → IsAdmitted call s
  unfolding serve IsAdmitted
  serve-IsAdmitted (starts flow inputs fresh others) now s s' h =
      let (run, e) = answer-returns _ s' h in
      start_run-named l services fuel flow inputs fresh now others s s' run e
  serve-IsAdmitted (cancels id reason) now s s' h =
      let (done, e) = answer-returns _ s' h in
      cancel_run-IsActive l services fuel id reason now s s' done e
  serve-IsAdmitted (fails id reason) now s s' h =
      let (done, e) = answer-returns _ s' h in
      fail_run-known l services fuel id reason now s s' done e
  serve-IsAdmitted (succeeds id output) now s s' h =
      let (run, e) = answer-returns _ s' h in
      succeed_run-IsActive l services fuel id output now s s' run e
  serve-IsAdmitted (publishes id a fresh) now s s' h =
      let (t, e) = answer-returns _ s' h in
      publish_task-IsActive l services fuel id a fresh now s s' t e
  serve-IsAdmitted (starts_sub_run parent a fresh others) now s s' h =
      let (run, e) = answer-returns _ s' h in
      start_sub_run-IsActive l services fuel parent a fresh now others s s' run e
  serve-IsAdmitted (receives queue lease turns) now s s' h =
      let (d, e) = answer-returns _ s' h in
      receive_task-admitted l services fuel queue lease turns s s' d e
  serve-IsAdmitted (claims id queue why) now s s' h =
      let (done, e) = answer-returns _ s' h in
      claim_task-admitted l services fuel id queue why now s s' done e
  serve-IsAdmitted (extends id lease queue) now s s' h =
      let (until, e) = answer-returns _ s' h in
      extend_lease-admitted l services fuel id lease queue now s s' until e
  serve-IsAdmitted (reports id report queue) now s s' h =
      let (t, e) = answer-returns _ s' h in
      report_finished-admitted l services fuel id report queue now s s' t e
