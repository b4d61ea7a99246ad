-- ===== src/Flow/RunState.antt =====
-- neorc_core/flows/_run_state.py: a snapshot of what a run's steps have produced so far.
-- Iterations and indexes are natural numbers; both count from 1 in the program.
use Prim.Native.Nat.{Ordering, max}
use Prim.Native.String.{compare}
use neorc.Prelude.{
  ℕ, String, ◌==◌, Eq, nat_eq, string_eq, pair_eq, list_eq, ◌≡◌, ◌↔◌, Bool, true, false, ◌&&◌, ◌||◌,
  Option, none, some, List, [], ◌∷◌, ◌++◌, ltb, arith, ==_iff,
}
use neorc.Prelude.Dict
use neorc.Prelude.Dict.{Dict}
use neorc.Json.{JsonValue}

abbrev pub Scope : Type 0
Scope = List (String × ℕ)

pub record Address : Type 0 where
  pub step : String
  pub scope : Scope

abbrev pub address_beq : Address → Address → Bool
address_beq a b = (a.step == b.step) && (a.scope == b.scope)

pub address_beq_iff : (a b : Address) → (address_beq a b ≡ true) ↔ (a ≡ b)
address_beq_iff a b = ground (arith, ==_iff a.step b.step, ==_iff a.scope b.scope)

instance abbrev pub address_eq : Eq Address
address_eq = record { beq = address_beq; beq_iff = address_beq_iff }

unfoldable pub string_lt : String → String → Bool
string_lt a b = elim (compare a b) [ Ordering.lt ↦ true | _ ↦ false ]

-- The order of a dataclass: by its fields in turn, tuples by their items.
unfoldable pub scope_lt : Scope → Scope → Bool
unfolding string_lt
scope_lt [] [] = false
scope_lt [] (y ∷ ys) = true
scope_lt (x ∷ xs) [] = false
scope_lt ((a, m) ∷ xs) ((b, n) ∷ ys) =
    string_lt a b || ((a == b) && (ltb m n || ((m == n) && scope_lt xs ys)))

unfoldable pub address_lt : Address → Address → Bool
unfolding scope_lt string_lt
address_lt a b = string_lt a.step b.step || ((a.step == b.step) && scope_lt a.scope b.scope)

pub data Outcome : Type 0 where
  running succeeded failed : Outcome

pub record StepResult : Type 0 where
  pub outcome : Outcome
  pub value : JsonValue

pub record RunState : Type 0 where
  pub inputs : Dict String JsonValue
  pub steps : Dict Address StepResult

abbrev pub state_get : RunState → Address → Option StepResult
state_get state address = Dict.get address state.steps

-- The table that `_last` builds: for each scope and container, the highest number started.
-- `raise_to` is the body of the inner loop, over the levels of one address's scope.
raise_to : Scope → String → ℕ → Dict (Scope × String) ℕ → Dict (Scope × String) ℕ
raise_to before name number last =
    Dict.set (before, name)
      (max (elim (Dict.get (before, name) last) [ none ↦ 0 | some n ↦ n ]) number) last

raise_levels : Scope → Scope → Dict (Scope × String) ℕ → Dict (Scope × String) ℕ
unfolding raise_to
raise_levels before [] last = last
raise_levels before ((name, number) ∷ rest) last =
    raise_levels (before ++ (name, number) ∷ []) rest (raise_to before name number last)

last_table : List Address → Dict (Scope × String) ℕ → Dict (Scope × String) ℕ
unfolding raise_levels
last_table [] last = last
last_table (a ∷ rest) last = last_table rest (raise_levels [] a.scope last)

unfoldable pub last : RunState → Scope → String → ℕ
unfolding last_table
last state scope container =
    elim (Dict.get (scope, container) (last_table (Dict.keys state.steps) [])) [
      | none ↦ 0
      | some n ↦ n
    ]
