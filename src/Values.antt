-- ===== src/Values.antt =====
-- neorc_core/_values.py: user values, and how they are written as JSON values and read back. A
-- datetime is its local time with its offset from UTC, if it has one.
pub mod RoundTrip
pub mod Sizes
use Prim.Native.Nat.{◌/◌, ◌%◌}
use neorc.Prelude.{
  ℕ, ◌+◌, ◌*◌, ◌^◌, ◌==◌, nat_eq, list_eq, Bool, true, false, ◌&&◌, ◌||◌, not, Option, none, some,
  List, [], ◌∷◌, leb, ltb, if◌then◌else◌,
}
use neorc.Errors.{Result, ok, err, invalid_value, payload_too_large, ◌>>=◌, ◌>>◌}
use neorc.Json
use neorc.Json.{Text, ℤ, JsonValue, Items, Fields, null, obj, arr, end, field}
use neorc.Flow.Definition.{codes}

pub record Datetime : Type 0 where
  pub local : ℕ
  pub offset : Option ℤ

-- A key of a user's dictionary: a string, or something else.
pub data Key : Type 0 where
  text : Text → Key
  other : Key

mutual
  pub data Value : Type 0 where
    nothing : Value
    bool : Bool → Value
    int : ℤ → Value
    float : ℕ → Value
    str : Text → Value
    datetime : Datetime → Value
    list : Values → Value
    dict : Entries → Value
    unsupported : Value

  pub data Values : Type 0 where
    nil : Values
    cons : Value → Values → Values

  pub data Entries : Type 0 where
    stop : Entries
    entry : Key → Value → Entries → Entries

-- What the code calls of Python's own libraries: whether `str` writes an integer,
-- `datetime.isoformat`, and `datetime.fromisoformat`, `none` where it raises.
pub record Written : Type 0 where
  pub writes : ℤ → Bool
  pub isoformat : Datetime → Text
  pub fromisoformat : Text → Option Datetime

abbrev pub max_value_depth : ℕ
max_value_depth = 100

abbrev pub datetime_tag : Text
datetime_tag = codes "$datetime"

-- `math.isfinite`: the exponent is not all ones.
unfoldable pub is_finite : ℕ → Bool
is_finite bits = not ((bits / 2 ^ 52) % 2 ^ 11 == 2047)

-- Whether the datetime has a timezone.
unfoldable pub is_aware : Datetime → Bool
is_aware d = elim d.offset [ none ↦ false | some _ ↦ true ]

-- A code point that is neither NUL nor a surrogate.
is_sendable : ℕ → Bool
is_sendable c = not (c == 0) && not (leb 0xd800 c && leb c 0xdfff)

all_sendable : Text → Bool
unfolding is_sendable
all_sendable [] = true
all_sendable (c ∷ cs) = is_sendable c && all_sendable cs

unfoldable pub check_text : Text → Result (Unit {0})
unfolding all_sendable
check_text t = if all_sendable t then ok tt else err invalid_value

unfoldable pub check_depth : ℕ → ℕ → Result (Unit {0})
check_depth depth limit = if leb limit depth then err invalid_value else ok tt

-- `key.startswith("$")`
unfoldable pub is_reserved : Text → Bool
is_reserved [] = false
is_reserved (c ∷ cs) = c == b'$'

unfoldable pub check_key : Key → Result Text
unfolding is_reserved check_text
check_key other = err invalid_value
check_key (text t) = if is_reserved t then err invalid_value else check_text t >>= λ _. ok t

module _ (w : Written) where
  unfoldable mutual
    unfolding is_finite is_aware check_text check_depth check_key

    -- `_encode`
    pub encode_at : Value → ℕ → Result JsonValue
    encode_at nothing depth = ok null
    encode_at (bool b) depth = ok (JsonValue.bool b)
    encode_at (str t) depth = check_text t >>= λ _. ok (JsonValue.str t)
    encode_at (int n) depth = if w.writes n then ok (JsonValue.int n) else err invalid_value
    encode_at (float x) depth = if is_finite x then ok (JsonValue.float x) else err invalid_value
    encode_at (datetime d) depth =
        if is_aware d
        then ok (obj (field datetime_tag (JsonValue.str (w.isoformat d)) end))
        else err invalid_value
    encode_at (list vs) depth = do
      checked ← check_depth depth max_value_depth
      items ← encode_items vs (depth + 1)
      ok (arr items)
    encode_at (dict es) depth = do
      checked ← check_depth depth max_value_depth
      fields ← encode_fields es (depth + 1)
      ok (obj fields)
    encode_at unsupported depth = err invalid_value

    pub encode_items : Values → ℕ → Result Items
    encode_items nil depth = ok Items.nil
    encode_items (cons v vs) depth = do
      here ← encode_at v depth
      rest ← encode_items vs depth
      ok (Items.cons here rest)

    pub encode_fields : Entries → ℕ → Result Fields
    encode_fields stop depth = ok end
    encode_fields (entry k v es) depth = do
      key ← check_key k
      here ← encode_at v depth
      rest ← encode_fields es depth
      ok (field key here rest)

  unfoldable pub encode : Value → Result JsonValue
  unfolding encode_at
  encode v = encode_at v 0

  -- `_parse_datetime`
  unfoldable pub parse_datetime : JsonValue → Result Value
  unfolding is_aware
  parse_datetime (JsonValue.str t) = elim (w.fromisoformat t) [
    | none ↦ err invalid_value
    | some d ↦ if is_aware d then ok (datetime d) else err invalid_value
  ]
  parse_datetime _ = err invalid_value

  -- The value under the tag, where the tag is an object's only key.
  unfoldable pub tagged : Fields → Option JsonValue
  tagged end = none
  tagged (field k v end) = if k == datetime_tag then some v else none
  tagged (field k v (field _ _ _)) = none

  -- An object, by what stands under the tag, the check of its depth and its decoded fields.
  unfoldable pub object : Option JsonValue → Result (Unit {0}) → Result Entries → Result Value
  unfolding parse_datetime
  object (some v) checked inside = parse_datetime v
  object none checked inside = do fine ← checked; entries ← inside; ok (dict entries)

  unfoldable mutual
    unfolding is_finite check_text check_depth check_key object tagged

    -- `_decode`
    pub decode_at : JsonValue → ℕ → ℕ → Result Value
    decode_at (arr items) depth limit = do
      checked ← check_depth depth limit
      values ← decode_items items (depth + 1) limit
      ok (list values)
    decode_at (obj fields) depth limit =
        object (tagged fields) (check_depth depth limit) (decode_fields fields (depth + 1) limit)
    decode_at (JsonValue.str t) depth limit = check_text t >>= λ _. ok (str t)
    decode_at (JsonValue.float x) depth limit =
        if is_finite x then ok (float x) else err invalid_value
    decode_at null depth limit = ok nothing
    decode_at (JsonValue.bool b) depth limit = ok (bool b)
    decode_at (JsonValue.int n) depth limit = ok (int n)

    pub decode_items : Items → ℕ → ℕ → Result Values
    decode_items Items.nil depth limit = ok nil
    decode_items (Items.cons v vs) depth limit = do
      here ← decode_at v depth limit
      rest ← decode_items vs depth limit
      ok (cons here rest)

    pub decode_fields : Fields → ℕ → ℕ → Result Entries
    decode_fields end depth limit = ok stop
    decode_fields (field k v rest) depth limit = do
      key ← check_key (text k)
      here ← decode_at v depth limit
      entries ← decode_fields rest depth limit
      ok (entry (text key) here entries)

  unfoldable pub decode : JsonValue → ℕ → Result Value
  unfolding decode_at
  decode v limit = decode_at v 0 limit

-- How many bytes of UTF-8 a text takes, where it can be encoded.
unfoldable pub utf8_length : Text → Option ℕ
utf8_length [] = some 0
utf8_length (c ∷ cs) =
    let rest = utf8_length cs in
    if leb 0xd800 c && leb c 0xdfff then none else elim rest [
      | none ↦ none
      | some n ↦ some (
          (if ltb c 0x80 then 1 else if ltb c 0x800 then 2 else if ltb c 0x10000 then 3 else 4) + n)
    ]

unfoldable pub ensure_fits : Text → ℕ → Result (Unit {0})
unfolding utf8_length
ensure_fits encoded limit = elim (utf8_length encoded) [
  | none ↦ err invalid_value
  | some size ↦ if ltb limit size then err payload_too_large else ok tt
]
