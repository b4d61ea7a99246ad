-- ===== src/Manager/Waiting.antt =====
-- The calls of the manager that wait for others: what they make of the in-memory store is what
-- requests to the store make of it.
use neorc.Prelude.{
  ℕ, String, nat_eq, string_eq, ◌≡◌, refl, inl, inr, Option, none, some, List, [], ◌∷◌, Bool-cases,
}
use neorc.Runs.{Event, Task, Libraries}
use neorc.Store.{Store}
use neorc.Store.Port.{memory}
use neorc.Store.Requests.{Later, now_itself, after, perform, receive}
use neorc.Store.Runs.{events_after}
use neorc.Manager.Calls.{Op}
use neorc.Manager.Checks.{Services, check_queue, check_lease_seconds}
use neorc.Manager.Scheduling.{Wait, ended, woken, waited, wait_for_events}
use neorc.Manager.Working.{TaskDelivery, Turn, delivery, received, receive_turns, receive_task}
use neorc.Manager.Reading.{Reads}
use neorc.Manager.Requests.{continue-Later, reads, lifts, delivery-Reads}
use neorc.Manager.Starting.{Later-trans}

-- What wakes a waiter is requests of others.
abbrev pub AreRequests : Libraries → List (Turn Store) → Type 0
AreRequests l [] = Unit
AreRequests l (turn ∷ turns) =
    ((others : Store → Store) → turn.woken ≡ some others → (s : Store) → Later l s (others s))
    × AreRequests l turns

abbrev pub AreWaits : Libraries → List (Wait Store) → Type 0
AreWaits l [] = Unit
AreWaits l (wait ∷ waits) =
    ((others : Store → Store) → wait ≡ woken others → (s : Store) → Later l s (others s))
    × AreWaits l waits

module _ (l : Libraries) (services : Services) (fuel : ℕ) where
  received-Later :
      (w : Option (Store → Store)) (rest : Op Store (Option TaskDelivery))
      → ((others : Store → Store) → w ≡ some others → (t : Store) → Later l t (rest (others t)).1)
      → (t : Store) (found : Option Task)
      → Later l t (received (memory l) services fuel w rest found t).1
  unfolding received
  received-Later w rest h t (some task) =
      reads l (delivery (memory l) services fuel task) _ t (delivery-Reads l services fuel task)
        (λ d. now_itself)
  received-Later none rest h t none = now_itself
  received-Later (some others) rest h t none = h others refl t

  pub receive_turns-Later :
      (queue : String) (lease : ℕ) (turns : List (Turn Store)) (s : Store)
      → AreRequests l turns
      → Later l s (receive_turns (memory l) services fuel queue lease turns s).1
  unfolding receive_turns perform
  receive_turns-Later queue lease [] s h = now_itself
  receive_turns-Later queue lease (turn ∷ turns) s h = elim (Bool-cases turn.gone) [
    | inl gone ↦ rw gone now_itself
    | inr here ↦ rw here (
        continue-Later l ((memory l).receive_task queue lease turn.now s).0 _ s
          ((memory l).receive_task queue lease turn.now s).1
          (after (receive queue lease) turn.now now_itself tt)
          (received-Later turn.woken (receive_turns (memory l) services fuel queue lease turns)
            (λ others e t.
              Later-trans (h.0 others e t) (receive_turns-Later queue lease turns (others t) h.1))
            ((memory l).receive_task queue lease turn.now s).1))
  ]

  pub receive_task-Later :
      (queue : String) (lease : ℕ) (turns : List (Turn Store)) (s : Store)
      → AreRequests l turns
      → Later l s (receive_task (memory l) services fuel queue lease turns s).1
  unfolding receive_task
  receive_task-Later queue lease turns s ready = lifts l (check_queue queue) _ s (λ checked.
      lifts l (check_lease_seconds lease) _ s
        (λ bounded. receive_turns-Later queue lease turns s ready))

  events_after-Reads : (from limit : ℕ) → Reads {S = Store} (events_after from limit)
  unfolding events_after
  events_after-Reads from limit s = refl

  waited-Later :
      (events : List Event) (wait : Wait Store) (rest : Op Store (List Event)) (s : Store)
      → ((others : Store → Store) → wait ≡ woken others → Later l s (rest (others s)).1)
      → Later l s (waited (memory l) services fuel events wait rest s).1
  unfolding waited
  waited-Later (event ∷ events) wait rest s h = now_itself
  waited-Later [] ended rest s h = now_itself
  waited-Later [] (woken others) rest s h = h others refl

  pub wait_for_events-Later :
      (from limit : ℕ) (waits : List (Wait Store)) (s : Store)
      → AreWaits l waits
      → Later l s (wait_for_events (memory l) services fuel from limit waits s).1
  unfolding wait_for_events
  wait_for_events-Later from limit [] s h = rw (events_after-Reads from limit s) now_itself
  wait_for_events-Later from limit (wait ∷ waits) s h =
      reads l (events_after from limit) _ s (events_after-Reads from limit) (λ events.
        waited-Later events wait (wait_for_events (memory l) services fuel from limit waits) s
          (λ others e.
            Later-trans (h.0 others e s) (wait_for_events-Later from limit waits (others s) h.1)))
