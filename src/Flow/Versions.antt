-- ===== src/Flow/Versions.antt =====
-- neorc_core/flows/_definition.py: the text of a version. What `\d` matches and `int` reads of a
-- character, its value as a decimal digit, is Python's own and an argument.
pub mod RoundTrip
use Prim.Native.Nat.{◌-◌}
use neorc.Prelude.{
  ℕ, ◌+◌, ◌*◌, ◌^◌, ◌==◌, nat_eq, Bool, true, false, ◌&&◌, Option, none, some, List, [], ◌∷◌, ◌++◌,
  leb, if◌then◌else◌,
}
use neorc.Errors.{Result, ok, err, value_error}
use neorc.Json.{Text}
use neorc.Flow.Definition.{Version}
use neorc.Runs.{decimal}

abbrev pub max_version_part : ℕ
max_version_part = 2 ^ 31 - 1

-- `__post_init__`
unfoldable pub check_version : Version → Result Version
check_version v =
    if leb v.major max_version_part && leb v.minor max_version_part && leb v.patch max_version_part
    then ok v
    else err value_error

unfoldable pub of_numbers : Option ℕ → Option ℕ → Option ℕ → Result Version
unfolding check_version
of_numbers (some major) (some minor) (some patch) =
    check_version (record { major = major; minor = minor; patch = patch })
of_numbers _ _ _ = err value_error

-- `__str__`
unfoldable pub version_text : Version → Text
version_text v = decimal v.major ++ (b'.' ∷ (decimal v.minor ++ (b'.' ∷ decimal v.patch)))

-- The texts between dots.
unfoldable pub parts : Text → List Text
parts [] = [] ∷ []
parts (c ∷ cs) =
    let rest = parts cs in
    if c == b'.' then [] ∷ rest else elim rest [ [] ↦ (c ∷ []) ∷ [] | p ∷ ps ↦ (c ∷ p) ∷ ps ]

module _ (digit : ℕ → Option ℕ) where
  -- `int`, behind the digits already read: `none` where a character is no digit.
  unfoldable pub number : ℕ → Text → Option ℕ
  number n [] = some n
  number n (c ∷ cs) = elim (digit c) [ none ↦ none | some d ↦ number (n * 10 + d) cs ]

  -- `0|[1-9]\d*`, and its value.
  unfoldable pub part : Text → Option ℕ
  unfolding number
  part [] = none
  part (c ∷ cs) =
      if c == b'0'
      then (elim cs [ [] ↦ some 0 | d ∷ ds ↦ none ])
      else if leb b'1' c && leb c b'9'
      then number (c - b'0') cs
      else none

  -- The version of three texts, where there are three and each is a part.
  unfoldable pub of_parts : List Text → Result Version
  unfolding part of_numbers
  of_parts (a ∷ b ∷ c ∷ []) = of_numbers (part a) (part b) (part c)
  of_parts _ = err value_error

  -- `Version.parse`
  unfoldable pub parse_version : Text → Result Version
  unfolding parts of_parts
  parse_version text = of_parts (parts text)
