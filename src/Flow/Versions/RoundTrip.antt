-- ===== src/Flow/Versions/RoundTrip.antt =====
-- A version is read back from its text.
use Prim.Native.Nat.{◌-◌, ◌/◌, ◌%◌}
use neorc.Prelude.{
  ℕ, zero, suc, ◌+◌, ◌*◌, ◌≤◌, ◌<◌, ◌==◌, nat_eq, ◌≡◌, refl, sym, ◌∙◌, ap, subst, inl, inr, true,
  false, Option, none, some, [], ◌∷◌, ◌++◌, All, leb, ltb, Bool-cases, Option-cases, arith,
}
use mathlib.Core.Option.{some-injective}
use neorc.Errors.{ok}
use neorc.Json.{Text}
use neorc.Flow.Definition.{Version}
use neorc.Runs.{digits, decimal}
use neorc.Flow.Versions.{
  check_version, version_text, parts, number, part, of_numbers, of_parts, parse_version,
}

abbrev IsAscii : ℕ → Type 0
IsAscii c = (b'0' ≤ c) × (c ≤ b'9')

All-append : (xs : Text) (c : ℕ) → All IsAscii xs → IsAscii c → All IsAscii (xs ++ (c ∷ []))
All-append [] c h k = (k, tt)
All-append (x ∷ xs) c h k = (h.0, All-append xs c h.1 k)

digits-IsAscii : (fuel n : ℕ) → All IsAscii (digits fuel n)
unfolding digits
digits-IsAscii zero n = tt
digits-IsAscii (suc fuel) n = elim (Bool-cases (ltb n 10)) [
  | inl small ↦ rw (small, digits) ((ground arith, ground arith), tt)
  | inr large ↦
      rw (large, digits)
        (All-append (digits fuel (n / 10)) (n % 10 + b'0') (digits-IsAscii fuel (n / 10))
          (ground arith, ground arith))
]

-- The text up to a dot is one of the parts.
parts-append : (xs ys : Text) → All IsAscii xs → parts (xs ++ (b'.' ∷ ys)) ≡ xs ∷ parts ys
unfolding parts
parts-append [] ys h = refl
parts-append (x ∷ xs) ys h =
    let other : (x == b'.') ≡ false = ground arith in rw (other, parts-append xs ys h.1) refl

parts_single : (xs : Text) → All IsAscii xs → parts xs ≡ xs ∷ []
unfolding parts
parts_single [] h = refl
parts_single (x ∷ xs) h =
    let other : (x == b'.') ≡ false = ground arith in rw (other, parts_single xs h.1) refl

-- A positive number is written from a digit that is not zero.
digits-head :
    (fuel n : ℕ)
    → n < fuel
    → 0 < n
    → (c : ℕ) × (cs : Text) × (digits fuel n ≡ c ∷ cs) × (b'1' ≤ c) × (c ≤ b'9')
unfolding digits
digits-head zero n h k = absurd (omega arith)
digits-head (suc fuel) n h k = elim (Bool-cases (ltb n 10)) [
  | inl small ↦ (n % 10 + b'0', [], rw (small, digits) refl, ground arith, ground arith)
  | inr large ↦
      let (c, cs, e, low, high) = digits-head fuel (n / 10) (ground arith) (ground arith) in
      (c, cs ++ ((n % 10 + b'0') ∷ []), rw (large, digits, e) refl, low, high)
]

module _ (digit : ℕ → Option ℕ) (ascii : (d : ℕ) → d < 10 → digit (d + b'0') ≡ some d) where
  number-append :
      (xs : Text) (n m d : ℕ)
      → d < 10
      → number digit n xs ≡ some m
      → number digit n (xs ++ ((d + b'0') ∷ [])) ≡ some (m * 10 + d)
  unfolding number
  number-append [] n m d h e = rw (ascii d h) (ap (λ k. some (k * 10 + d)) (some-injective n m e))
  number-append (x ∷ xs) n m d h e = elim (Option-cases (digit x)) [
    | inl unknown ↦ absurd (let q : none ≡ some m = rw (unknown, number) at e in ground arith)
    | inr (v, known) ↦ rw known (number-append xs (n * 10 + v) m d h (rw (known, number) at e))
  ]

  number-digits : (fuel n : ℕ) → n < fuel → number digit 0 (digits fuel n) ≡ some n
  unfolding number digits
  number-digits zero n h = absurd (omega arith)
  number-digits (suc fuel) n h = elim (Bool-cases (ltb n 10)) [
    | inl small ↦ rw (small, digits, ascii (n % 10) (ground arith)) (ap some (ground arith))
    | inr large ↦
        let last : n / 10 * 10 + n % 10 ≡ n = omega arith in
        rw (large, digits)
          (number-append (digits fuel (n / 10)) 0 (n / 10) (n % 10) (ground arith)
              (number-digits fuel (n / 10) (ground arith))
            ∙ ap some last)
  ]

  part-head :
      (c : ℕ) (cs : Text) (n : ℕ)
      → b'1' ≤ c
      → c ≤ b'9'
      → number digit 0 (c ∷ cs) ≡ some n
      → part digit (c ∷ cs) ≡ some n
  unfolding part number
  part-head c cs n low high e =
      let value : c - b'0' + b'0' ≡ c = omega arith in
      let known : digit c ≡ some (c - b'0') =
        subst (λ x. digit x ≡ some (c - b'0')) value (ascii (c - b'0') (omega arith)) in
      let first : 0 * 10 + (c - b'0') ≡ c - b'0' = omega arith in
      let read : number digit (c - b'0') cs ≡ some n =
        subst (λ m. number digit m cs ≡ some n) first (rw (known, number) at e) in
      let not_zero : (c == b'0') ≡ false = ground arith in
      let at_least : leb b'1' c ≡ true = ground arith in
      let at_most : leb c b'9' ≡ true = ground arith in rw (not_zero, at_least, at_most) read

  part-decimal : (n : ℕ) → part digit (decimal n) ≡ some n
  unfolding decimal part digits
  part-decimal n = elim (Bool-cases (n == 0)) [
    | inl none_at_all ↦ let e : n ≡ 0 = ground arith in rw e refl
    | inr positive ↦
        let (c, cs, e, low, high) = digits-head (suc n) n (ground arith) (ground arith) in
        subst (λ t. part digit t ≡ some n) (sym e)
          (part-head c cs n low high
            (subst (λ t. number digit 0 t ≡ some n) e (number-digits (suc n) n (omega arith))))
  ]

  of_parts-three :
      (a b c : Text) (x y z : ℕ)
      → part digit a ≡ some x
      → part digit b ≡ some y
      → part digit c ≡ some z
      → of_parts digit (a ∷ b ∷ c ∷ []) ≡ check_version (record { major = x; minor = y; patch = z })
  unfolding of_parts of_numbers
  of_parts-three a b c x y z p q r = rw (p, q, r) refl

  -- Every version whose parts are within the bound is read back from its text, where the ASCII digits
  -- have their values.
  pub parse-version_text :
      (v : Version) → check_version v ≡ ok v → parse_version digit (version_text v) ≡ ok v
  unfolding parse_version version_text decimal
  parse-version_text v h =
      let split : parts (decimal v.major ++ (b'.' ∷ (decimal v.minor ++ (b'.' ∷ decimal v.patch))))
          ≡ decimal v.major ∷ decimal v.minor ∷ decimal v.patch ∷ [] =
        parts-append (decimal v.major) (decimal v.minor ++ (b'.' ∷ decimal v.patch))
          (digits-IsAscii (suc v.major) v.major)
        ∙ ap (λ ps. decimal v.major ∷ ps)
            (parts-append (decimal v.minor) (decimal v.patch) (digits-IsAscii (suc v.minor) v.minor)
              ∙ ap (λ ps. decimal v.minor ∷ ps)
                  (parts_single (decimal v.patch) (digits-IsAscii (suc v.patch) v.patch))) in
      ap (of_parts digit) split
      ∙ of_parts-three (decimal v.major) (decimal v.minor) (decimal v.patch) v.major v.minor v.patch
          (part-decimal v.major) (part-decimal v.minor) (part-decimal v.patch)
      ∙ h
