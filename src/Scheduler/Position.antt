-- ===== src/Scheduler/Position.antt =====
-- The sequence up to which the scheduler has read the events.
use neorc.Prelude.{ℕ, ◌≡◌, ◌⊎◌, refl, sym, ◌∙◌, ap, subst, inl, inr, List, [], ◌∷◌, ◌++◌}
use neorc.Errors.{Result, ok, err}
use neorc.Runs.{Event}
use neorc.Manager.Calls.{Op, continue, ◌>>=◌, ◌>>◌, pure}
use neorc.Scheduler
use neorc.Scheduler.{ManagerClient, Texts, last_of}
use neorc.Scheduler.Carried.{after-IsCarried}
use neorc.Scheduler.Advancing.{runs_of-Follows, advance_all-Follows}

-- `position` is the sequence of the last event, or `before` where there is none.
pub IsPosition : ℕ → List Event → ℕ → Type 0
IsPosition before events position =
    ((events ≡ []) × (position ≡ before))
    ⊎ ((front : List Event) × (last : Event) × (events ≡ front ++ (last ∷ []))
        × (position ≡ last.sequence))

last_of-IsPosition :
    (before : ℕ) (events : List Event) → IsPosition before events (last_of before events)
unfolding IsPosition
last_of-IsPosition before [] = inl (refl, refl)
last_of-IsPosition before (event ∷ events) = elim (last_of-IsPosition event.sequence events) [
  | inl (none_left, same) ↦ inr ([], event, ap (λ l. event ∷ l) none_left, same)
  | inr (front, last, split, same) ↦ inr (event ∷ front, last, ap (λ l. event ∷ l) split, same)
]

module _ (c : ManagerClient) (texts : Texts) (fuel : ℕ) where
  abbrev State : Type 0
  State = Scheduler.Scheduler c texts fuel

  -- Where the turn leaves the scheduler, which was at `before`.
  abbrev pub IsLeftAt : ℕ → Result (List Event) → ℕ → Type 0
  IsLeftAt before (ok events) position = IsPosition before events position
  IsLeftAt before (err e) position = position ≡ before

  continue-IsLeftAt :
      {A : Type 0} (before : ℕ) (r : Result A) (f : A → Op State (List Event)) (t : State)
      → t.after ≡ before
      → ((a : A) (u : State) → u.after ≡ before → IsLeftAt before (f a u).0 (f a u).1.after)
      → IsLeftAt before (continue r f t).0 (continue r f t).1.after
  continue-IsLeftAt before (ok a) f t h next = next a t h
  continue-IsLeftAt before (err e) f t h next = h

  -- A turn that returns leaves the scheduler at the sequence of the last event that it read, or where
  -- it was if there was none, and a turn that raises leaves it where it was: it reads the same events
  -- again.
  pub run_once-IsLeftAt :
      (s : Scheduler.Scheduler c texts fuel)
      → IsLeftAt s.after
          (Scheduler.run_once c texts fuel s).0
          (Scheduler.run_once c texts fuel s).1.after
  unfolding Scheduler.run_once
  run_once-IsLeftAt s =
      let kept = after-IsCarried c texts fuel in
      continue-IsLeftAt s.after (c.wait_for_events s.after s.client).0
        (λ events. Scheduler.runs_of c texts fuel [] events >>= (λ runs.
          Scheduler.advance_all c texts fuel runs
          >> (Scheduler.move_on c texts fuel events >> pure events)))
        (Scheduler.ask c texts fuel (c.wait_for_events s.after) s).1 refl
        (λ events t h.
          continue-IsLeftAt s.after (Scheduler.runs_of c texts fuel [] events t).0
            (λ runs.
              Scheduler.advance_all c texts fuel runs
              >> (Scheduler.move_on c texts fuel events >> pure events))
            (Scheduler.runs_of c texts fuel [] events t).1
            (runs_of-Follows c texts fuel (λ s t. t.after ≡ s.after) kept [] events t ∙ h)
            (λ runs u h'.
              continue-IsLeftAt s.after (Scheduler.advance_all c texts fuel runs u).0
                (λ done. Scheduler.move_on c texts fuel events >> pure events)
                (Scheduler.advance_all c texts fuel runs u).1
                (advance_all-Follows c texts fuel (λ s t. t.after ≡ s.after) kept runs u ∙ h')
                (λ done v h''.
                  subst (λ n. IsPosition s.after events (last_of n events)) (sym h'')
                    (last_of-IsPosition s.after events))))
