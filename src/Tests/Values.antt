-- ===== src/Tests/Values.antt =====
-- The round trip of a list that holds a datetime and a dictionary.
use neorc.Prelude.{ℕ, zero, suc, ◌≡◌, refl, none, some, Option, [], ◌∷◌, true, arith}
use neorc.Errors.{ok}
use neorc.Json.{JsonValue, Items, ℤ, pos, negsuc, Text, obj, arr, end, field, null}
use neorc.Flow.Definition.{codes}
use neorc.Values.{
  Datetime, text, Value, nothing, datetime, list, dict, nil, cons, stop, entry, Written, encode,
  decode, datetime_tag,
}
use neorc.Values.RoundTrip.{decode-encode}

abbrev iso : Datetime → Text
iso d =
    d.local ∷ elim d.offset [ none ↦ [] | some (pos n) ↦ 0 ∷ n ∷ [] | some (negsuc n) ↦ 1 ∷ n ∷ [] ]

abbrev read : Text → Option Datetime
read (t ∷ []) = some (record { local = t; offset = none })
read (t ∷ zero ∷ n ∷ []) = some (record { local = t; offset = some (pos n) })
read (t ∷ suc zero ∷ n ∷ []) = some (record { local = t; offset = some (negsuc n) })
read _ = none

pub read-iso : (d : Datetime) → read (iso d) ≡ some d
read-iso d = go d.local d.offset
  where
    go :
        (t : ℕ) (o : Option ℤ)
        → read (iso (record { local = t; offset = o })) ≡ some (record { local = t; offset = o })
    go t none = refl
    go t (some (pos n)) = refl
    go t (some (negsuc n)) = refl

abbrev pub written : Written
written = record { writes = λ n. true; isoformat = iso; fromisoformat = read }

abbrev noon : Value
noon = datetime (record { local = 12; offset = some (pos 0) })

abbrev pub sample : Value
sample = list (cons noon (cons (dict (entry (text (codes "at")) nothing stop)) nil))

abbrev sample_json : JsonValue
sample_json = arr (
    Items.cons (obj (field datetime_tag (JsonValue.str (12 ∷ 0 ∷ 0 ∷ [])) end))
      (Items.cons (obj (field (codes "at") null end)) Items.nil))

decode-encode_example : decode written sample_json 100 ≡ ok sample
unfolding encode
decode-encode_example = decode-encode written read-iso 100 (ground arith) sample sample_json refl
