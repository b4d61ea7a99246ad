-- ===== src/Values/RoundTrip.antt =====
-- Decoding what was encoded.
use neorc.Prelude.{
  none, ℕ, ◌+◌, ◌≤◌, ◌==◌, ==_iff, nat_eq, list_eq, ◌≡◌, refl, subst, ap, ◌∙◌, inl, inr, true,
  false, some, arith, Bool-cases,
}
use neorc.Errors.{ok, >>=-eq-ok, ok-injective}
use neorc.Json.{Text, JsonValue, Items, Fields, obj, end, field}
use neorc.Values.{
  Datetime, Key, text, other, Value, nothing, bool, int, float, str, datetime, list, dict,
  unsupported, Values, nil, cons, Entries, stop, entry, Written, max_value_depth, datetime_tag,
  is_finite, is_aware, check_text, check_depth, is_reserved, check_key, encode_at, encode_items,
  encode_fields, encode, parse_datetime, tagged, decode_at, decode_items, decode_fields, decode,
}

check_depth-deeper :
    (depth limit : ℕ) (u : Unit {0})
    → max_value_depth ≤ limit
    → check_depth depth max_value_depth ≡ ok u
    → check_depth depth limit ≡ ok tt
unfolding check_depth
check_depth-deeper depth limit u h e = ground arith

-- A key that passes is a string, and passes again.
check_key-text :
    (k : Key) (t : Text) → check_key k ≡ ok t → (k ≡ text t) × (check_key (text t) ≡ ok t)
unfolding check_key
check_key-text other t e = absurd (ground arith)
check_key-text (text s) t e = elim (Bool-cases (is_reserved s)) [
  | inl reserved ↦ absurd (ground arith)
  | inr free ↦
      let (u, _, r) = >>=-eq-ok (check_text s) _ (rw free at e) in
      (ap text (ok-injective r), subst (λ x. check_key (text x) ≡ ok t) (ok-injective r) e)
]

-- The datetime's key does not pass.
tag-refused : (t : Text) → t ≡ datetime_tag → ¬ (check_key (text t) ≡ ok t)
unfolding check_key is_reserved
tag-refused t p e =
    let bad : check_key (text datetime_tag) ≡ ok datetime_tag =
      subst (λ x. check_key (text x) ≡ ok x) p e in
    absurd (ground (arith, bad))

check_key-tag : (k : Key) (t : Text) → check_key k ≡ ok t → (t == datetime_tag) ≡ false
check_key-tag k t e = elim (Bool-cases (t == datetime_tag)) [
  | inr no_tag ↦ no_tag
  | inl tag ↦ absurd (tag-refused t ((==_iff t datetime_tag).0 tag) (check_key-text k t e).1)
]

module _ (w : Written) where
  field-tagged :
      (k : Text) (v : JsonValue) (rest : Fields)
      → (k == datetime_tag) ≡ false
      → tagged w (field k v rest) ≡ none
  unfolding tagged
  field-tagged k v end p = rw p
  field-tagged k v (field _ _ _) p = refl

  -- What encodes a dictionary is never taken for a datetime.
  encode_fields-tagged :
      (es : Entries) (depth : ℕ) (fs : Fields)
      → encode_fields w es depth ≡ ok fs
      → tagged w fs ≡ none
  unfolding encode_fields tagged
  encode_fields-tagged stop depth fs e = rw (← ok-injective e)
  encode_fields-tagged (entry k v es) depth fs e =
      let (key, c, r) = >>=-eq-ok (check_key k) _ e in
      let (here, _, r') = >>=-eq-ok (encode_at w v depth) _ r in
      let (rest, _, r'') = >>=-eq-ok (encode_fields w es depth) _ r' in
      rw (← ok-injective r'') (field-tagged key here rest (check_key-tag k key c))

  obj-untagged :
      (fs : Fields) (es : Entries) (depth limit : ℕ)
      → tagged w fs ≡ none
      → check_depth depth limit ≡ ok tt
      → decode_fields w fs (depth + 1) limit ≡ ok es
      → decode_at w (obj fs) depth limit ≡ ok (dict es)
  unfolding decode_at
  obj-untagged fs es depth limit p c e = rw (p, c, e)

  obj-tagged :
      (fs : Fields) (v : JsonValue) (depth limit : ℕ)
      → tagged w fs ≡ some v
      → decode_at w (obj fs) depth limit ≡ parse_datetime w v
  unfolding decode_at
  obj-tagged fs v depth limit p = rw p

  parse_datetime-reads :
      (d : Datetime) (t : Text)
      → w.fromisoformat t ≡ some d
      → is_aware d ≡ true
      → parse_datetime w (JsonValue.str t) ≡ ok (datetime d)
  unfolding parse_datetime
  parse_datetime-reads d t p aware = rw (p, parse_datetime, aware)

  module _ (reads : (d : Datetime) → w.fromisoformat (w.isoformat d) ≡ some d) (limit : ℕ)
      (enough : max_value_depth ≤ limit) where
    datetime-decodes :
        (d : Datetime) (depth : ℕ) (j : JsonValue)
        → encode_at w (datetime d) depth ≡ ok j
        → decode_at w j depth limit ≡ ok (datetime d)
    unfolding encode_at tagged
    datetime-decodes d depth j e = elim (Bool-cases (is_aware d)) [
      | inr naive ↦ absurd (ground arith)
      | inl aware ↦
          subst (λ x. decode_at w x depth limit ≡ ok (datetime d)) (ok-injective (rw aware at e))
            (obj-tagged (field datetime_tag (JsonValue.str (w.isoformat d)) end)
                (JsonValue.str (w.isoformat d)) depth limit refl
              ∙ parse_datetime-reads d (w.isoformat d) (reads d) aware)
    ]

    mutual
      unfolding encode_at decode_at

      encode_at-decodes :
          (v : Value) (depth : ℕ) (j : JsonValue)
          → encode_at w v depth ≡ ok j
          → decode_at w j depth limit ≡ ok v
      encode_at-decodes nothing depth j e = rw (← ok-injective e)
      encode_at-decodes (bool b) depth j e = rw (← ok-injective e)
      encode_at-decodes (str t) depth j e =
          let (_, c, r) = >>=-eq-ok (check_text t) _ e in rw (← ok-injective r, c)
      encode_at-decodes (int n) depth j e = elim (Bool-cases (w.writes n)) [
        | inl written ↦ rw (← ok-injective (rw written at e))
        | inr huge ↦ absurd (ground arith)
      ]
      encode_at-decodes (float x) depth j e = elim (Bool-cases (is_finite x)) [
        | inl finite ↦ rw (← ok-injective (rw finite at e), finite)
        | inr infinite ↦ absurd (ground arith)
      ]
      encode_at-decodes (datetime d) depth j e = datetime-decodes d depth j e
      encode_at-decodes (list vs) depth j e =
          let (u, c, r) = >>=-eq-ok (check_depth depth max_value_depth) _ e in
          let (items, i, r') = >>=-eq-ok (encode_items w vs (depth + 1)) _ r in
          rw (
            ← ok-injective r',
            check_depth-deeper depth limit u enough c,
            encode_items-decodes vs (depth + 1) items i,
          )
      encode_at-decodes (dict es) depth j e =
          let (u, c, r) = >>=-eq-ok (check_depth depth max_value_depth) _ e in
          let (fs, i, r') = >>=-eq-ok (encode_fields w es (depth + 1)) _ r in
          subst (λ x. decode_at w x depth limit ≡ ok (dict es)) (ok-injective r')
            (obj-untagged fs es depth limit (encode_fields-tagged es (depth + 1) fs i)
              (check_depth-deeper depth limit u enough c)
              (encode_fields-decodes es (depth + 1) fs i))
      encode_at-decodes unsupported depth j e = absurd (ground arith)

      encode_items-decodes :
          (vs : Values) (depth : ℕ) (items : Items)
          → encode_items w vs depth ≡ ok items
          → decode_items w items depth limit ≡ ok vs
      encode_items-decodes nil depth items e = rw (← ok-injective e)
      encode_items-decodes (cons v vs) depth items e =
          let (here, h, r) = >>=-eq-ok (encode_at w v depth) _ e in
          let (rest, t, r') = >>=-eq-ok (encode_items w vs depth) _ r in
          rw (
            ← ok-injective r',
            encode_at-decodes v depth here h,
            encode_items-decodes vs depth rest t,
          )

      encode_fields-decodes :
          (es : Entries) (depth : ℕ) (fs : Fields)
          → encode_fields w es depth ≡ ok fs
          → decode_fields w fs depth limit ≡ ok es
      encode_fields-decodes stop depth fs e = rw (← ok-injective e)
      encode_fields-decodes (entry k v es) depth fs e =
          let (key, c, r) = >>=-eq-ok (check_key k) _ e in
          let (here, h, r') = >>=-eq-ok (encode_at w v depth) _ r in
          let (rest, t, r'') = >>=-eq-ok (encode_fields w es depth) _ r' in
          let (same, again) = check_key-text k key c in
          rw (
            ← ok-injective r'',
            again,
            encode_at-decodes v depth here h,
            encode_fields-decodes es depth rest t,
            ← same,
          )

    -- A value that encodes is what its JSON form decodes to, under any limit that is at least
    -- `MAX_VALUE_DEPTH`, where `fromisoformat` reads back what `isoformat` writes.
    pub decode-encode : (v : Value) (j : JsonValue) → encode w v ≡ ok j → decode w j limit ≡ ok v
    unfolding encode decode
    decode-encode v j e = encode_at-decodes v 0 j e
