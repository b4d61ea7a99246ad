-- ===== src/Tests/Samples.antt =====
-- A flow that guesses a word in rounds, a run of it, and a store with two published tasks.
use neorc.Prelude.{ℕ, ◌+◌, String, nat_eq, string_eq, pair_eq, none, [], ◌∷◌, false, length, refl}
use neorc.Prelude.Dict
use neorc.Prelude.Dict.{Dict}
use neorc.Json.{JsonValue, null, bool, str}
use neorc.Flow.Definition.{Namespace, TaskStep, Steps, task, loop, nil, cons, FlowDefinition}
use neorc.Flow.RunState.{Address, Outcome, StepResult, RunState}
use neorc.Runs.{Libraries}
use neorc.Store.{Store, init}
use neorc.Store.Flows.{store_flows}
use neorc.Store.Runs.{start_run}
use neorc.Store.Tasks.{publish_task}
use neorc.Store.Sound.{IsSound}
use neorc.Store.Requests.{Request, upload, start, publish, perform, Later, now_itself, after}
use neorc.Store.Requests.Lasting.{init-IsSound, Later-IsSound}

abbrev pub pick : TaskStep
pick = record {
  name = "pick";
  handler = "pick_word";
  queue = "words";
  params = [];
  fixed_params = [];
}

abbrev pub guess : TaskStep
guess = record {
  name = "guess";
  handler = "guess_word";
  queue = "words";
  params = ("word", record { namespace = Namespace.tasks; name = "pick" }) ∷ [];
  fixed_params = [];
}

abbrev pub check : TaskStep
check = record {
  name = "check";
  handler = "check_word";
  queue = "words";
  params = ("guess", record { namespace = Namespace.tasks; name = "guess" }) ∷ [];
  fixed_params = [];
}

abbrev pub rounds : Steps
rounds = cons (task guess) (cons (task check) nil)

abbrev pub letters : FlowDefinition
letters = record {
  name = "letters";
  version = record { major = 1; minor = 0; patch = 0 };
  inputs = [];
  steps = cons (task pick) (cons (loop "rounds" 3 "check" rounds) nil);
  output = none;
}

abbrev pub top : String → Address
top name = record { step = name; scope = [] }

abbrev pub in_round : ℕ → String → Address
in_round n name = record { step = name; scope = ("rounds", n) ∷ [] }

abbrev pub succeeded_with : JsonValue → StepResult
succeeded_with v = record { outcome = Outcome.succeeded; value = v }

-- The word is picked, and the first guess was wrong.
abbrev pub one_round : RunState
one_round = record {
  inputs = [];
  steps =
      (top "pick", succeeded_with (str []))
      ∷ (in_round 1 "guess", succeeded_with (str []))
      ∷ (in_round 1 "check", succeeded_with (bool false))
      ∷ [];
}

abbrev pub libraries : Libraries
libraries = record { dumps_sorted = λ v. []; uuid5 = λ parent text. parent + length text + 100 }

abbrev pub uploading : Request
uploading = upload (λ f. []) (record { definition = letters; content = null } ∷ [])

abbrev pub starting : Request
starting = start "letters" (record { major = 1; minor = 0; patch = 0 }) [] none none 7

abbrev pub publishing : String → ℕ → Request
publishing name fresh = publish 7 (top name) "words" "pick_word" [] [] fresh

abbrev pub one_run : Store
one_run = perform libraries starting 2 (perform libraries uploading 1 init)

abbrev pub one_task : Store
one_task = perform libraries (publishing "pick" 20) 3 one_run

abbrev pub two_tasks : Store
two_tasks = perform libraries (publishing "other" 21) 4 one_task

pub two_tasks-Later : Later libraries init two_tasks
unfolding perform store_flows start_run publish_task Dict.get Dict.set
two_tasks-Later =
    after (publishing "other" 21) 4
      (after (publishing "pick" 20) 3 (after starting 2 (after uploading 1 now_itself tt) refl)
        refl)
      refl

pub two_tasks-IsSound : IsSound two_tasks
two_tasks-IsSound = Later-IsSound libraries two_tasks-Later init-IsSound
