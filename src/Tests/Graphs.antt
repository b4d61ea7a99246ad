-- ===== src/Tests/Graphs.antt =====
-- The search for cycles in a graph of two steps that wait on each other.
use neorc.Prelude.{String, List, [], ◌∷◌, ◌≡◌}
use neorc.Errors.{ok}
use neorc.Flow.Validation.Cycles.{Edges, cycles}
use neorc.Flow.Validation.Cycles.Ends.{cycles-ends}

abbrev waiting : Edges
waiting = ("guess", "check" ∷ []) ∷ ("check", "guess" ∷ []) ∷ []

cycles-ends_example : (found : List (List String)) × (cycles waiting ≡ ok found)
cycles-ends_example = cycles-ends waiting
