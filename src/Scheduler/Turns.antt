-- ===== src/Scheduler/Turns.antt =====
-- What ends the scheduler's loop, and that a turn moves each run forward once.
use neorc.Prelude.{
  ℕ, nat_eq, ◌==◌, ◌≡◌, refl, subst, inl, inr, false, List, [], ◌∷◌, ◌++◌, Bool-cases, arith,
}
use neorc.Errors.{Result, ok, err, ok-injective}
use neorc.Runs.{RunId, Event}
use neorc.Manager.Calls.{Op, continue}
use neorc.Scheduler
use neorc.Scheduler.{ManagerClient, Texts, has_id, add_new}

-- No id is in the list twice.
abbrev pub IsOnce : List RunId → Type 0
IsOnce [] = Unit
IsOnce (id ∷ ids) = (has_id id ids ≡ false) × IsOnce ids

has_id-append :
    (id other : RunId) (ids : List RunId)
    → has_id id ids ≡ false
    → (other == id) ≡ false
    → has_id id (ids ++ (other ∷ [])) ≡ false
has_id-append id other [] h k = ground arith
has_id-append id other (i ∷ ids) h k = ground (arith, has_id-append id other ids)

IsOnce-append :
    (other : RunId) (ids : List RunId)
    → IsOnce ids
    → has_id other ids ≡ false
    → IsOnce (ids ++ (other ∷ []))
IsOnce-append other [] h k = (refl, tt)
IsOnce-append other (i ∷ ids) h k =
    (has_id-append i other ids h.0 (ground arith), IsOnce-append other ids h.1 (ground arith))

add_new-IsOnce : (ids more : List RunId) → IsOnce ids → IsOnce (add_new ids more)
unfolding add_new
add_new-IsOnce ids [] h = h
add_new-IsOnce ids (id ∷ more) h = elim (Bool-cases (has_id id ids)) [
  | inl there ↦ rw there (add_new-IsOnce ids more h)
  | inr new ↦ rw new (add_new-IsOnce (ids ++ (id ∷ [])) more (IsOnce-append id ids h new))
]

module _ (c : ManagerClient) (texts : Texts) (fuel : ℕ) where
  abbrev State : Type 0
  State = Scheduler.Scheduler c texts fuel

  returned :
      {A B : Type 0} (r : Result A) (f : A → Op State B) (t : State) (b : B)
      → (continue r f t).0 ≡ ok b
      → (a : A) × ((f a t).0 ≡ ok b)
  returned (ok a) f t b h = (a, h)
  returned (err x) f t b h = absurd (ground arith)

  -- The runs that a turn moves forward, for whatever events, are each there once.
  pub runs_of-IsOnce :
      (events : List Event) (runs ids : List RunId) (s : Scheduler.Scheduler c texts fuel)
      → IsOnce runs
      → (Scheduler.runs_of c texts fuel runs events s).0 ≡ ok ids
      → IsOnce ids
  unfolding Scheduler.runs_of
  runs_of-IsOnce [] runs ids s h e = subst IsOnce (ok-injective e) h
  runs_of-IsOnce (event ∷ events) runs ids s h e =
      let (more, e') =
        returned (Scheduler.runs_to_advance c texts fuel event s).0 _
          (Scheduler.runs_to_advance c texts fuel event s).1 ids e in
      runs_of-IsOnce events (add_new runs more) ids
        (Scheduler.runs_to_advance c texts fuel event s).1 (add_new-IsOnce runs more h) e'
