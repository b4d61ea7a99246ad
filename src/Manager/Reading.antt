-- ===== src/Manager/Reading.antt =====
-- Calls that only read, and what comes after them.
use neorc.Prelude.{
  ℕ, String, nat_eq, string_eq, ◌≡◌, refl, sym, ◌∙◌, subst, inl, inr, Option, none, some, arith,
  Option-cases, Bool-cases, ◌==◌, if◌then◌else◌,
}
use neorc.Prelude.Dict
use neorc.Errors.{Error, Result, ok, err, task_not_found}
use neorc.Flow.Definition.{Reference, Version}
use neorc.Json.{JsonValue}
use neorc.Runs.{RunId, Libraries}
use neorc.Store.{Store}
use neorc.Store.Port.{memory}
use neorc.Store.Flows.{get_flow}
use neorc.Store.Runs.{get_run, run_state}
use neorc.Store.Tasks.{get_task}
use neorc.Flow.References.Resolve.{resolve}
use neorc.Runs.{Task}
use neorc.Task.{TaskId}
use neorc.Manager.Calls.{Op, continue, ◌>>=◌, pure, lift, raise}
use neorc.Manager.Checks.{Services}
use neorc.Manager.Scheduling.{context, allowed_output, available, output_value}
use neorc.Manager.Working.{ensure_on_queue}

-- The call leaves the state as it found it.
abbrev pub Reads : {S A : Type 0} → Op S A → Type 0
Reads {S} m = (s : S) → (m s).1 ≡ s

-- Where the call raises, it leaves this state as it found it.
abbrev pub IsCleanAt : {S A : Type 0} → S → Op S A → Type 0
IsCleanAt s m = (e : Error) → (m s).0 ≡ err e → (m s).1 ≡ s

module _ {S A B : Type 0} where
  continue-Reads :
      (r : Result A) (f : A → Op S B) (s : S) → ((a : A) → Reads (f a)) → (continue r f s).1 ≡ s
  continue-Reads (ok a) f s h = h a s
  continue-Reads (err e) f s h = refl

  pub >>=-Reads :
      (m : Op S A) (f : A → Op S B) → Reads m → ((a : A) → Reads (f a)) → Reads (m >>= f)
  >>=-Reads m f h k s = continue-Reads (m s).0 f (m s).1 k ∙ h s

  -- What holds of the state after what follows a read holds of it after both.
  continue-after {κ} :
      (P : S → Type κ) (r : Result A) (f : A → Op S B) (s t : S)
      → t ≡ s
      → P s
      → ((a : A) → r ≡ ok a → P (f a s).1)
      → P (continue r f t).1
  continue-after P (ok a) f s t e here h = subst (λ u. P (f a u).1) (sym e) (h a refl)
  continue-after P (err x) f s t e here h = subst P (sym e) here

  pub read-after {κ} :
      (P : S → Type κ) (m : Op S A) (f : A → Op S B) (s : S)
      → Reads m
      → P s
      → ((a : A) → (m s).0 ≡ ok a → P (f a s).1)
      → P ((m >>= f) s).1
  read-after P m f s h here k = continue-after P (m s).0 f s (m s).1 (h s) here k

  -- A call that returns after another: what both gave.
  pub continue-returns :
      (r : Result A) (f : A → Op S B) (s t : S) (b : B)
      → continue r f s ≡ (ok b, t)
      → (a : A) × (r ≡ ok a) × (f a s ≡ (ok b, t))
  continue-returns (ok a) f s t b h = (a, refl, h)
  continue-returns (err e) f s t b h = absurd (ground arith)

  pub read-returns :
      (m : Op S A) (f : A → Op S B) (s t : S) (b : B)
      → Reads m
      → (m >>= f) s ≡ (ok b, t)
      → (a : A) × ((m s).0 ≡ ok a) × (f a s ≡ (ok b, t))
  read-returns m f s t b h p =
      let (a, e, q) = continue-returns (m s).0 f (m s).1 t b p in
      (a, e, subst (λ u. f a u ≡ (ok b, t)) (h s) q)

  continue-IsCleanAt :
      (r : Result A) (f : A → Op S B) (s t : S)
      → t ≡ s
      → ((a : A) → IsCleanAt s (f a))
      → (e : Error) → (continue r f t).0 ≡ err e
      → (continue r f t).1 ≡ s
  continue-IsCleanAt (ok a) f s t p h e q =
      subst (λ u. (f a u).0 ≡ err e → (f a u).1 ≡ s) (sym p) (h a e) q
  continue-IsCleanAt (err x) f s t p h e q = p

  pub read-IsCleanAt :
      (m : Op S A) (f : A → Op S B) (s : S)
      → Reads m
      → ((a : A) → IsCleanAt s (f a))
      → IsCleanAt s (m >>= f)
  read-IsCleanAt m f s h k = continue-IsCleanAt (m s).0 f s (m s).1 (h s) k

pub get_run-Reads : (id : RunId) → Reads {S = Store} (get_run id)
unfolding get_run
get_run-Reads id s = refl

pub get_task-Reads : (id : TaskId) → Reads {S = Store} (get_task id)
unfolding get_task
get_task-Reads id s = refl

pub get_flow-Reads :
    (name : String) (version : Option Version) → Reads {S = Store} (get_flow name version)
unfolding get_flow
get_flow-Reads name version s = refl

module _ (l : Libraries) where
  pub run_state-Reads : (id : RunId) → Reads {S = Store} (run_state id)
  unfolding run_state
  run_state-Reads id s = elim (Option-cases (Dict.get id s.runs)) [
    | inl unknown ↦ rw unknown
    | inr (run, known) ↦ rw known
  ]

  pub context-Reads :
      (services : Services) (fuel : ℕ) (id : RunId) → Reads (context (memory l) services fuel id)
  unfolding context
  context-Reads services fuel id = >>=-Reads (get_run id) _ (get_run-Reads id) (λ run.
      >>=-Reads (get_flow run.flow (some run.version)) _
        (get_flow-Reads run.flow (some run.version))
        (λ stored. >>=-Reads (run_state id) _ (run_state-Reads id) (λ state s. refl)))

  available-Reads :
      (services : Services) (fuel : ℕ) (resolved : Option JsonValue)
      → Reads {S = Store} (available (memory l) services fuel resolved)
  unfolding available
  available-Reads services fuel none s = refl
  available-Reads services fuel (some value) s = refl

  pub output_value-Reads :
      (services : Services) (fuel : ℕ) (output : Option Reference) (id : RunId)
      → Reads (output_value (memory l) services fuel output id)
  unfolding output_value
  output_value-Reads services fuel none id s = refl
  output_value-Reads services fuel (some output) id s =
      >>=-Reads (context (memory l) services fuel id) _ (context-Reads services fuel id)
        (λ (run, definition, state).
          >>=-Reads (lift (allowed_output definition output)) _ (λ s. refl)
            (λ u.
              >>=-Reads (lift (resolve definition state fuel none output)) _ (λ s. refl)
                (λ resolved. available-Reads services fuel resolved)))
        s

  pub ensure_on_queue-Reads :
      (services : Services) (fuel : ℕ) (id : TaskId) (queue : Option String)
      → Reads (ensure_on_queue (memory l) services fuel id queue)
  unfolding ensure_on_queue get_task
  ensure_on_queue-Reads services fuel id none s = refl
  ensure_on_queue-Reads services fuel id (some queue) s =
      >>=-Reads (get_task id) _ (get_task-Reads id) same_queue s
    where
      same_queue :
          (t : Task) (u : Store)
          → ◌≡◌ {A = Store} ((if t.queue == queue then pure tt else raise task_not_found) u).1 u
      same_queue t u = elim (Bool-cases (t.queue == queue)) [
        | inl same ↦ rw same
        | inr other ↦ rw other
      ]
