-- ===== src/Flow/Definition.antt =====
-- neorc_core/flows/_definition.py: a flow definition, once it has been read and checked.
use Prim.Native.Char.{code}
use neorc.Prelude.{
  ℕ, String, ◌==◌, nat_eq, Bool, true, false, ◌&&◌, ◌||◌, Option, List, [], ◌∷◌, leb, ltb,
}
use neorc.Prelude.Dict.{Dict}
use neorc.Json.{JsonValue}

abbrev pub codes : String → List ℕ
codes String.[] = []
codes (String.◌∷◌ c s) = code c ∷ codes s

is_letter : ℕ → Bool
is_letter c = (leb b'A' c && leb c b'Z') || (leb b'a' c && leb c b'z')

is_digit : ℕ → Bool
is_digit c = leb b'0' c && leb c b'9'

all_codes : (ℕ → Bool) → List ℕ → Bool
all_codes test [] = true
all_codes test (c ∷ cs) = test c && all_codes test cs

-- `[A-Za-z_][A-Za-z0-9_]*`, matched in full.
is_name_codes : List ℕ → Bool
unfolding is_letter is_digit all_codes
is_name_codes [] = false
is_name_codes (c ∷ cs) =
    (is_letter c || (c == b'_')) && all_codes (λ d. is_letter d || is_digit d || (d == b'_')) cs

unfoldable pub is_name : String → Bool
unfolding is_name_codes
is_name text = is_name_codes (codes text)

-- `[A-Za-z0-9_-]+`, matched in full.
is_queue_codes : List ℕ → Bool
unfolding is_letter is_digit all_codes
is_queue_codes [] = false
is_queue_codes (c ∷ cs) =
    all_codes (λ d. is_letter d || is_digit d || (d == b'_') || (d == b'-')) (c ∷ cs)

unfoldable pub is_queue_name : String → Bool
unfolding is_queue_codes
is_queue_name text = is_queue_codes (codes text)

pub data InputType : Type 0 where
  string number boolean datetime : InputType

-- `metadata` is `neorc.`
pub data Namespace : Type 0 where
  inputs tasks flows metadata : Namespace

pub record Reference : Type 0 where
  pub namespace : Namespace
  pub name : String

-- Whether a reference is to a step: `reference.namespace in (Namespace.TASKS, Namespace.FLOWS)`.
abbrev pub names_step : Namespace → Bool
names_step Namespace.inputs = false
names_step Namespace.tasks = true
names_step Namespace.flows = true
names_step Namespace.metadata = false

pub record Version : Type 0 where
  pub major : ℕ
  pub minor : ℕ
  pub patch : ℕ

-- The order of a dataclass: by its fields in turn.
unfoldable pub version_lt : Version → Version → Bool
version_lt v w =
    ltb v.major w.major
    || ((v.major == w.major)
        && (ltb v.minor w.minor || ((v.minor == w.minor) && ltb v.patch w.patch)))

unfoldable pub version_eq : Version → Version → Bool
version_eq v w = (v.major == w.major) && (v.minor == w.minor) && (v.patch == w.patch)

pub record TaskStep : Type 0 where
  pub name : String
  pub handler : String
  pub queue : String
  pub params : Dict String Reference
  pub fixed_params : Dict String JsonValue

pub record SubFlowStep : Type 0 where
  pub name : String
  pub flow : String
  pub params : Dict String Reference
  pub fixed_params : Dict String JsonValue

mutual
  pub data Step : Type 0 where
    task : TaskStep → Step
    sub_flow : SubFlowStep → Step
    loop : (name : String) (max_cycles : ℕ) (exit_condition : String) (steps : Steps) → Step
    fan_out : (name : String) (range : Option ℕ) (over : Option Reference) (steps : Steps) → Step

  pub data Steps : Type 0 where
    nil : Steps
    cons : Step → Steps → Steps

abbrev pub step_name : Step → String
step_name (task t) = t.name
step_name (sub_flow s) = s.name
step_name (loop name _ _ _) = name
step_name (fan_out name _ _ _) = name

-- A loop or a fan-out: what may enclose a step.
abbrev pub Container : Type 0
Container = Step

pub record FlowDefinition : Type 0 where
  pub name : String
  pub version : Version
  pub inputs : Dict String InputType
  pub steps : Steps
  pub output : Option Reference
