-- ===== src/Tests/Planning.antt =====
-- The planner's theorems at a run whose first round is over.
use neorc.Prelude.{String, [], ◌∷◌, refl, arith, ==_iff, string_eq, inl, inr, In}
use neorc.Prelude.Dict
use neorc.Flow.RunState.{last}
use neorc.Flow.References.{succeeded_value, is_true}
use neorc.Flow.References.Resolve.{resolve}
use neorc.Planner.{plan}
use neorc.Planner.Actions.{publish_task}
use neorc.Planner.Decisions.{Decision, plan-Decision}
use neorc.Planner.Advance.{scope_actions}
use neorc.Planner.Completeness.{AreDistinct, scope_actions_complete}
use neorc.Flow.Walk.{waits_on}
use neorc.Json.{str}
use neorc.Tests.Samples.{rounds, letters, one_round, guess, in_round}

plan-Decision_example : Decision 3 letters one_round (publish_task (in_round 2 "guess") guess ∷ [])
unfolding plan succeeded_value Dict.get last Dict.set is_true resolve
plan-Decision_example =
    plan-Decision 3 letters one_round (publish_task (in_round 2 "guess") guess ∷ []) refl

rounds-AreDistinct : AreDistinct rounds
rounds-AreDistinct =
    (((λ p. absurd (ground (arith, (==_iff {A = String} "check" "guess").1 p))), tt), (tt, tt))

scope_actions_complete_example :
    In (publish_task (in_round 2 "guess") guess) (publish_task (in_round 2 "guess") guess ∷ [])
unfolding scope_actions succeeded_value Dict.get last Dict.set is_true resolve waits_on
scope_actions_complete_example =
    scope_actions_complete 3 letters one_round rounds (("rounds", 2) ∷ [])
      (publish_task (in_round 2 "guess") guess ∷ []) guess rounds-AreDistinct refl (inl refl) tt
      refl (inr (str [], refl), tt)
