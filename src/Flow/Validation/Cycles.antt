-- ===== src/Flow/Validation/Cycles.antt =====
-- neorc_core/flows/_validation.py: `_cycles`, a depth-first search for cycles. The search recurs on
-- fuel, of which `cycles` gives enough for every graph: the RecursionError that CPython raises on a
-- chain longer than its own limit is not represented.
pub mod Ends
use neorc.Prelude.{
  ℕ, zero, suc, ◌+◌, String, ◌==◌, string_eq, List, [], ◌∷◌, ◌++◌, length, none, some,
  if◌then◌else◌,
}
use neorc.Prelude.Dict
use neorc.Prelude.Dict.{Dict}
use neorc.Errors.{Result, ok, err, recursion, ◌>>=◌}
use neorc.Flow.Walk.{contains}
use neorc.Flow.RunState.{string_lt}

abbrev pub Edges : Type 0
Edges = Dict String (List String)

insert : String → List String → List String
unfolding string_lt
insert x [] = x ∷ []
insert x (y ∷ ys) = let later = insert x ys in if string_lt y x then y ∷ later else x ∷ y ∷ ys

-- `sorted`
unfoldable pub sorted : List String → List String
unfolding insert
sorted [] = []
sorted (x ∷ xs) = insert x (sorted xs)

-- `path[path.index(node):]`
from_node : List String → String → List String
from_node [] node = []
from_node (x ∷ xs) node = let later = from_node xs node in if x == node then x ∷ xs else later

pub record Search : Type 0 where
  pub found : List (List String)
  pub finished : List String

unfoldable pub following : Edges → String → List String
unfolding sorted
following edges node = elim (Dict.get node edges) [ none ↦ [] | some next ↦ sorted next ]

module _ (edges : Edges) where
  -- `for node in nodes: visit(node, path)`
  visit_all :
      (String → List String → Search → Result Search)
      → List String
      → List String
      → Search
      → Result Search
  visit_all visit [] path s = ok s
  visit_all visit (node ∷ nodes) path s = do s' ← visit node path s; visit_all visit nodes path s'

  unfoldable pub visit : ℕ → String → List String → Search → Result Search
  unfolding visit_all following contains from_node
  visit zero node path s = err recursion
  visit (suc fuel) node path s =
      let deeper = visit_all (visit fuel) (following edges node) (path ++ node ∷ []) s in
      if contains path node
      then ok (record s { found = s.found ++ (from_node path node ++ node ∷ []) ∷ [] })
      else if contains s.finished node
      then ok s
      else do s' ← deeper; ok (record s' { finished = s'.finished ++ node ∷ [] })

  -- Two more than there are nodes with edges: a path holds no node twice.
  unfoldable pub cycles : Result (List (List String))
  unfolding visit
  cycles = do
    s ←
        visit_all (visit (length edges + 2)) (sorted (Dict.keys edges)) []
          (record { found = []; finished = [] })
    ok s.found
