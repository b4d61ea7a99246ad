-- ===== src/Tests/Versions.antt =====
-- The text of a version, read back.
use neorc.Prelude.{ℕ, ◌+◌, ◌<◌, ◌≡◌, refl, Option, none, some, leb, ◌&&◌, if◌then◌else◌, arith}
use Prim.Native.Nat.{◌-◌}
use neorc.Errors.{ok}
use neorc.Flow.Definition.{Version, codes}
use neorc.Runs.{decimal}
use neorc.Flow.Versions.{check_version, version_text, parse_version}
use neorc.Flow.Versions.RoundTrip.{parse-version_text}

abbrev ascii : ℕ → Option ℕ
ascii c = if leb b'0' c && leb c b'9' then some (c - b'0') else none

ascii-value : (d : ℕ) → d < 10 → ascii (d + b'0') ≡ some d
ascii-value d h = ground arith

abbrev release : Version
release = record { major = 12; minor = 0; patch = 305 }

text_of_release : version_text release ≡ codes "12.0.305"
unfolding version_text decimal
text_of_release = refl

parse-version_text_example : parse_version ascii (version_text release) ≡ ok release
unfolding check_version
parse-version_text_example = parse-version_text ascii ascii-value release refl
