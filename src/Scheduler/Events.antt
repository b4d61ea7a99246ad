-- ===== src/Scheduler/Events.antt =====
-- What a turn of the scheduler makes of the events that it reads.
use neorc.Prelude.{
  ℕ, nat_eq, ◌≡◌, ◌≢◌, ◌⊎◌, refl, sym, ◌∙◌, ap, subst, inl, inr, none, some, List, In, [], ◌∷◌,
  Bool-cases, Option-cases,
}
use neorc.Errors.{Result, ok, ok-injective}
use neorc.Runs.{RunId, Run, Event, EventKind}
use neorc.Manager.Calls.{Op, ◌>>=◌, pure}
use neorc.Manager.Reading.{continue-returns}
use neorc.Scheduler
use neorc.Scheduler.{ManagerClient, Texts, is_run_finished, has_id, add_new, last_of}
use neorc.Scheduler.Collecting.{add_new-keeps, add_new-adds, is_run_finished-kind, other-kind}
use neorc.Scheduler.Carried.{IsFollowed, carried}
use neorc.Scheduler.Advancing.{
  runs_to_advance-Follows, runs_of-Follows, advance-Follows, advance_all-Follows,
}

module _ (c : ManagerClient) (texts : Texts) (fuel : ℕ) where
  abbrev State : Type 0
  State = Scheduler.Scheduler c texts fuel

  -- A call that returns after another, with the state in between.
  >>=-returns :
      {A B : Type 0} (m : Op State A) (f : A → Op State B) (s t : State) (b : B)
      → (m >>= f) s ≡ (ok b, t)
      → (a : A) × ((m s).0 ≡ ok a) × (f a (m s).1 ≡ (ok b, t))
  >>=-returns m f s t b h = continue-returns (m s).0 f (m s).1 t b h

  module _ (Leads : c.State → c.State → Type 0) (k : IsFollowed c Leads) where
    -- Between the two states the run was advanced, which raised nothing.
    pub IsAdvanced : RunId → State → State → Type 0
    IsAdvanced id s s' =
        (t : State) × Leads s.client t.client
        × ((Scheduler.advance c texts fuel id t).0 ≡ ok tt)
        × Leads (Scheduler.advance c texts fuel id t).1.client s'.client

    -- What is so of the run that an event concerns: its own, or where that has finished, the parent
    -- that the client gives for it between the two states, if it has one.
    pub Concerns : (RunId → Type 0) → Event → State → State → Type 0
    Concerns P event s s' =
        ((event.kind ≢ EventKind.run_finished) × P event.run_id)
        ⊎ ((u : State) × (run : Run) × (event.kind ≡ EventKind.run_finished)
            × Leads s.client u.client
            × Leads u.client s'.client
            × ((c.get_run event.run_id u.client).0 ≡ ok run)
            × ((run.parent_id ≡ none)
                ⊎ ((parent : RunId) × (run.parent_id ≡ some parent) × P parent)))

    Concerns-map :
        (P Q : RunId → Type 0) (event : Event) (r s t u : State)
        → Leads r.client s.client
        → Leads t.client u.client
        → ((id : RunId) → P id → Q id)
        → Concerns P event s t
        → Concerns Q event r u
    unfolding Concerns
    Concerns-map P Q event r s t u before since f (inl (kind, p)) = inl (kind, f event.run_id p)
    Concerns-map P Q event r s t u before since f (inr (v, run, kind, b, e, found, parent)) = inr (
      v,
      run,
      kind,
      k.join r.client s.client v.client before b,
      k.join v.client t.client u.client e since,
      found,
      elim parent [ inl orphan ↦ inl orphan | inr (id, own, p) ↦ inr (id, own, f id p) ],
    )

    runs_to_advance-Concerns :
        (event : Event) (ids : List RunId) (s t : State)
        → Scheduler.runs_to_advance c texts fuel event s ≡ (ok ids, t)
        → Concerns (λ id. In id ids) event s t
    unfolding Scheduler.runs_to_advance Concerns
    runs_to_advance-Concerns event ids s t h = elim (Bool-cases (is_run_finished event.kind)) [
      | inr other ↦
          let e : ◌≡◌ {A = Result (List RunId) × State} (ok (event.run_id ∷ []), s) (ok ids, t) =
            rw other at h in
          inl (
            other-kind event.kind other,
            subst (λ l. In event.run_id l) (ok-injective (ap (λ x. x.0) e)) (inl refl),
          )
      | inl finished ↦
          let (run, found, last) =
            >>=-returns (Scheduler.ask c texts fuel (c.get_run event.run_id))
              (λ run. pure (parents run)) s t ids (rw finished at h) in
          inr (
            s,
            run,
            is_run_finished-kind event.kind finished,
            k.start s.client,
            subst (λ u. Leads s.client u.client) (ap (λ x. x.1) last)
                (k.get_run event.run_id s.client),
            found,
            own run (ok-injective (ap (λ x. x.0) last)),
          )
    ]
      where
        parents : Run → List RunId
        parents run = elim run.parent_id [ none ↦ [] | some parent ↦ parent ∷ [] ]

        own :
            (run : Run)
            → parents run ≡ ids
            → (run.parent_id ≡ none)
              ⊎ ((parent : RunId) × (run.parent_id ≡ some parent) × In parent ids)
        own run e = elim (Option-cases run.parent_id) [
          | inl orphan ↦ inl orphan
          | inr (parent, known) ↦
              let p : parent ∷ [] ≡ ids = rw (known, parents) at e in
              inr (parent, known, subst (λ l. In parent l) p (inl refl))
        ]

    runs_of-keeps :
        (id : RunId) (runs : List RunId) (events : List Event) (ids : List RunId) (s t : State)
        → Scheduler.runs_of c texts fuel runs events s ≡ (ok ids, t)
        → In id runs
        → In id ids
    unfolding Scheduler.runs_of
    runs_of-keeps id runs [] ids s t h found =
        subst (λ l. In id l) (ok-injective (ap (λ x. x.0) h)) found
    runs_of-keeps id runs (event ∷ events) ids s t h found =
        let (more, e, h') =
          >>=-returns (Scheduler.runs_to_advance c texts fuel event) _ s t ids h in
        runs_of-keeps id (add_new runs more) events ids
          (Scheduler.runs_to_advance c texts fuel event s).1 t h' (add_new-keeps id runs more found)

    runs_of-Concerns :
        (runs : List RunId) (events : List Event) (ids : List RunId) (s t : State) (event : Event)
        → Scheduler.runs_of c texts fuel runs events s ≡ (ok ids, t)
        → In event events
        → Concerns (λ id. In id ids) event s t
    unfolding Scheduler.runs_of
    runs_of-Concerns runs [] ids s t event h found = absurd found
    runs_of-Concerns runs (first ∷ events) ids s t event h found =
        let one = Scheduler.runs_to_advance c texts fuel first in
        let (more, e, h') = >>=-returns one _ s t ids h in
        let u = (one s).1 in
        let leads = carried c texts fuel Leads k in
        let reached : Leads u.client t.client =
          subst (λ v. Leads u.client v.client) (ap (λ x. x.1) h')
            (runs_of-Follows c texts fuel (λ s t. Leads s.client t.client) leads (add_new runs more)
              events u) in
        elim found [
          | inl here ↦
              subst (λ x. Concerns (λ id. In id ids) x s t) here
                (Concerns-map (λ id. In id more) (λ id. In id ids) first s s u t (k.start s.client)
                  reached
                  (λ id there.
                    runs_of-keeps id (add_new runs more) events ids u t h'
                      (add_new-adds id runs more there))
                  (runs_to_advance-Concerns first more s u (ap (λ r. (r, u)) e)))
          | inr later ↦
              Concerns-map (λ id. In id ids) (λ id. In id ids) event s u t t
                (runs_to_advance-Follows c texts fuel (λ s t. Leads s.client t.client) leads first
                  s)
                (k.start t.client) (λ id there. there)
                (runs_of-Concerns (add_new runs more) events ids u t event h' later)
        ]

    advance_all-IsAdvanced :
        (ids : List RunId) (id : RunId) (s s' : State)
        → Scheduler.advance_all c texts fuel ids s ≡ (ok tt, s')
        → In id ids
        → IsAdvanced id s s'
    unfolding Scheduler.advance_all IsAdvanced
    advance_all-IsAdvanced [] id s s' h found = absurd found
    advance_all-IsAdvanced (first ∷ ids) id s s' h found =
        let (done, e, h') = >>=-returns (Scheduler.advance c texts fuel first) _ s s' tt h in
        let u = (Scheduler.advance c texts fuel first s).1 in
        let leads = carried c texts fuel Leads k in
        let reached : Leads u.client s'.client =
          subst (λ v. Leads u.client v.client) (ap (λ x. x.1) h')
            (advance_all-Follows c texts fuel (λ s t. Leads s.client t.client) leads ids u) in
        elim found [
          | inl here ↦ subst (λ i. IsAdvanced i s s') here (s, k.start s.client, e, reached)
          | inr later ↦
              let (t, b, fine, a) = advance_all-IsAdvanced ids id u s' h' later in
              (
                t,
                k.join s.client u.client t.client
                    (advance-Follows c texts fuel (λ s t. Leads s.client t.client) leads first s) b,
                fine,
                a,
              )
        ]

    all-IsAdvanced :
        (ids : List RunId) (s u v s' : State)
        → v.client ≡ s'.client
        → Leads s.client u.client
        → Scheduler.advance_all c texts fuel ids u ≡ (ok tt, v)
        → (id : RunId) → In id ids
        → IsAdvanced id s s'
    unfolding IsAdvanced
    all-IsAdvanced ids s u v s' kept before e id there =
        let (w, b, fine, a) = advance_all-IsAdvanced ids id u v e there in
        (w, k.join _ _ _ before b, fine, subst (Leads _) kept a)

    -- A turn that returns has moved forward, without an error, the run of every event that it read,
    -- or where the event is that the run has finished, the parent that the client gave for it during
    -- the turn, if any; and the events are those that the client gave when asked for what follows the
    -- sequence that the scheduler had read up to. What holds between two states is told by any relation
    -- that each of the client's calls follows.
    pub run_once-advances :
        (events : List Event) (s s' : Scheduler.Scheduler c texts fuel) (event : Event)
        → Scheduler.run_once c texts fuel s ≡ (ok events, s')
        → In event events
        → ((c.wait_for_events s.after s.client).0 ≡ ok events)
          × Concerns (λ id. IsAdvanced id s s') event s s'
    unfolding Scheduler.run_once
    run_once-advances events s s' event h found =
        let asked = Scheduler.ask c texts fuel (c.wait_for_events s.after) in
        let (read, e, h') = >>=-returns asked _ s s' events h in
        let t = (asked s).1 in
        let (ids, e', h'') =
          >>=-returns (Scheduler.runs_of c texts fuel [] read) _ t s' events h' in
        let u = (Scheduler.runs_of c texts fuel [] read t).1 in
        let (done, e'', last) =
          >>=-returns (Scheduler.advance_all c texts fuel ids) _ u s' events h'' in
        let v = (Scheduler.advance_all c texts fuel ids u).1 in
        let same : read ≡ events = ok-injective (ap (λ x. x.0) last) in
        let kept : v.client ≡ s'.client = ap (λ x. x.1.client) last in
        let leads = carried c texts fuel Leads k in
        let to_t : Leads s.client t.client = k.wait_for_events s.after s.client in
        let to_u : Leads t.client u.client =
          runs_of-Follows c texts fuel (λ s t. Leads s.client t.client) leads [] read t in
        let to_s' : Leads u.client s'.client =
          subst (Leads u.client) kept
            (advance_all-Follows c texts fuel (λ s t. Leads s.client t.client) leads ids u) in
        (
          e ∙ ap ok same,
          Concerns-map (λ id. In id ids) (λ id. IsAdvanced id s s') event s t u s' to_t to_s'
              (λ id there.
                all-IsAdvanced ids s u v s' kept (k.join _ _ _ to_t to_u) (ap (λ r. (r, v)) e'') id
                  there)
              (runs_of-Concerns [] read ids t u event (ap (λ r. (r, u)) e')
                (subst (λ l. In event l) (sym same) found)),
        )
