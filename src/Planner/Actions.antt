-- ===== src/Planner/Actions.antt =====
-- neorc_core/_planner.py: the actions, and what the planner's methods may do. A reason is a value
-- that says which of the code's messages it is; that of a resolution error is not modelled.
use neorc.Prelude.{
  ℕ, zero, suc, ◌+◌, String, ◌==◌, string_eq, Bool, true, false, ◌||◌, Option, ◌≡◌, refl, ap, List,
  [], ◌++◌,
}
use neorc.Errors.{Error, Result, ok, err}
use neorc.Json.{JsonValue}
use neorc.Flow.Definition.{Namespace, Reference, TaskStep, SubFlowStep}
use neorc.Flow.RunState.{Address}

pub data Reason : Type 0 where
  step_failed : Address → Reason
  exit_not_boolean : Address → JsonValue → Reason
  max_cycles_reached : String → ℕ → Reason
  unresolved : Reason

pub data Action : Type 0 where
  publish_task : Address → TaskStep → Action
  start_sub_run : Address → SubFlowStep → Action
  succeed_run : Option Reference → Action
  fail_run : Reason → Action

-- What the planner's methods do: return, raise `_RunFailed`, or raise another exception.
pub data Planned {ℓ} (A : Type ℓ) : Type ℓ where
  done : A → Planned A
  run_failed : Reason → Planned A
  raised : Error → Planned A

infixl 5 ◌>>=◌
abbrev pub ◌>>=◌ {ℓ κ} : {A : Type ℓ} {B : Type κ} → Planned A → (A → Planned B) → Planned B
done a >>= f = f a
run_failed r >>= f = run_failed r
raised e >>= f = raised e

abbrev pub lift {ℓ} : {A : Type ℓ} → Result A → Planned A
lift (ok a) = done a
lift (err e) = raised e

-- `all(test(index) for index in range(first, first + left))`
unfoldable pub all_indexes : (ℕ → Planned Bool) → ℕ → ℕ → Planned Bool
all_indexes test zero first = done true
all_indexes test (suc left) first = do
  b ← test first
  elim b [ true ↦ all_indexes test left (first + 1) | false ↦ done false ]

-- The actions of each index in turn.
unfoldable pub each_index : (ℕ → Planned (List Action)) → ℕ → ℕ → Planned (List Action)
each_index act zero first = done []
each_index act (suc left) first = do
  here ← act first
  later ← each_index act left (first + 1)
  done (here ++ later)

-- `task_id`, `flow_run_id` and `attempts`
unfoldable pub filled_in_later : Reference → Bool
filled_in_later reference = elim reference.namespace [
  | Namespace.metadata ↦
      (reference.name == "task_id")
      || (reference.name == "flow_run_id")
      || (reference.name == "attempts")
  | _ ↦ false
]

-- Inversion of a chain that returned.
pub >>=-eq-done {ℓ κ} :
    {A : Type ℓ} {B : Type κ} (m : Planned A) (f : A → Planned B) {b : B}
    → (m >>= f) ≡ done b
    → (a : A) × (m ≡ done a) × (f a ≡ done b)
>>=-eq-done (done a) f h = (a, refl, h)
>>=-eq-done (run_failed r) f h = cc
>>=-eq-done (raised e) f h = cc

unwrap {ℓ} : {A : Type ℓ} → A → Planned A → A
unwrap d (done a) = a
unwrap d _ = d

pub done-injective {ℓ} : {A : Type ℓ} {a b : A} → ◌≡◌ {A = Planned A} (done a) (done b) → a ≡ b
unfolding unwrap
done-injective {a = a} h = ap (unwrap a) h
