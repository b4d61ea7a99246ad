-- ===== src/Scheduler/Collecting.antt =====
-- The ids that a turn of the scheduler collects.
use neorc.Prelude.{
  nat_eq, ◌==◌, ==_iff, ◌≡◌, ◌≢◌, refl, subst, inl, inr, true, false, List, In, [], ◌∷◌, ◌++◌,
  Bool-cases, arith,
}
use neorc.Runs.{RunId, EventKind}
use neorc.Scheduler.{is_run_finished, has_id, add_new}

In-front : (id : RunId) (ids more : List RunId) → In id ids → In id (ids ++ more)
In-front id [] more h = absurd h
In-front id (i ∷ ids) more (inl here) = inl here
In-front id (i ∷ ids) more (inr later) = inr (In-front id ids more later)

In-back : (id : RunId) (ids more : List RunId) → In id more → In id (ids ++ more)
In-back id [] more h = h
In-back id (i ∷ ids) more h = inr (In-back id ids more h)

has_id-In : (id : RunId) (ids : List RunId) → has_id id ids ≡ true → In id ids
has_id-In id [] h = absurd (ground arith)
has_id-In id (other ∷ ids) h = elim (Bool-cases (other == id)) [
  | inl same ↦ inl ((==_iff other id).0 same)
  | inr different ↦ inr (has_id-In id ids (rw different at h))
]

-- Adding keeps the ids that are there, and those that are added are there.
pub add_new-keeps : (id : RunId) (ids more : List RunId) → In id ids → In id (add_new ids more)
unfolding add_new
add_new-keeps id ids [] h = h
add_new-keeps id ids (i ∷ more) h = elim (Bool-cases (has_id i ids)) [
  | inl there ↦ rw there (add_new-keeps id ids more h)
  | inr new ↦ rw new (add_new-keeps id (ids ++ (i ∷ [])) more (In-front id ids (i ∷ []) h))
]

pub add_new-adds : (id : RunId) (ids more : List RunId) → In id more → In id (add_new ids more)
unfolding add_new
add_new-adds id ids [] h = absurd h
add_new-adds id ids (i ∷ more) h = elim (Bool-cases (has_id i ids)) [
  | inl there ↦ rw there (elim h [
    | inl here ↦ add_new-keeps id ids more (subst (λ j. In j ids) here (has_id-In i ids there))
    | inr later ↦ add_new-adds id ids more later
  ])
  | inr new ↦ rw new (elim h [
    | inl here ↦ add_new-keeps id (ids ++ (i ∷ [])) more (In-back id ids (i ∷ []) (inl here))
    | inr later ↦ add_new-adds id (ids ++ (i ∷ [])) more later
  ])
]

pub is_run_finished-kind :
    (kind : EventKind) → is_run_finished kind ≡ true → kind ≡ EventKind.run_finished
is_run_finished-kind EventKind.run_finished h = refl
is_run_finished-kind _ h = absurd (ground arith)

pub other-kind : (kind : EventKind) → is_run_finished kind ≡ false → kind ≢ EventKind.run_finished
other-kind kind h e =
    let p : is_run_finished EventKind.run_finished ≡ false =
      subst (λ k. is_run_finished k ≡ false) e h in
    absurd (ground arith)
