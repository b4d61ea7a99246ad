-- ===== src/Access/Rows.antt =====
-- Rows of the credential store: what holds of each, and that no key is there twice.
use mathlib.Core.Option.{some-injective}
use neorc.Prelude.{
  suc, ◌≤◌, ◌==◌, ==_iff, nat_eq, list_eq, Eq, ◌≡◌, refl, ap, ◌∙◌, subst, inl, inr, Bool, true,
  false, none, some, [], ◌∷◌, Bool-cases, if◌then◌else◌, ltb, arith,
}
use neorc.Prelude.Dict
use neorc.Prelude.Dict.{Dict}
use neorc.Json.{Text}
use neorc.Runs.{Time}
use neorc.Credentials.{keep_alive, count_alive, unexpired}

-- What holds of both branches.
pub either : {X : Type 0} (P : X → Type 0) (b : Bool) (x y : X) → P x → P y → P (if b then x else y)
either P true x y h k = h
either P false x y h k = k

-- Each value of the dictionary is of this kind.
abbrev pub Every : {K V : Type 0} → (V → Type 0) → Dict K V → Type 0
Every P [] = Unit
Every P ((k, v) ∷ d) = P v × Every P d

module _ {K V : Type 0} ⦃e : Eq K⦄ (P : V → Type 0) where
  pub Every-set : (k : K) (v : V) (d : Dict K V) → P v → Every P d → Every P (Dict.set k v d)
  unfolding Dict.set
  Every-set k v [] p h = (p, tt)
  Every-set k v ((j, w) ∷ d) p h = elim (Bool-cases (j == k)) [
    | inl same ↦ rw same (p, h.1)
    | inr other ↦ rw other (h.0, Every-set k v d p h.1)
  ]

  pub Every-remove : (k : K) (d : Dict K V) → Every P d → Every P (Dict.remove k d)
  unfolding Dict.remove
  Every-remove k [] h = tt
  Every-remove k ((j, w) ∷ d) h = elim (Bool-cases (j == k)) [
    | inl same ↦ rw same (Every-remove k d h.1)
    | inr other ↦ rw other (h.0, Every-remove k d h.1)
  ]

  pub Every-get : (k : K) (v : V) (d : Dict K V) → Every P d → Dict.get k d ≡ some v → P v
  unfolding Dict.get
  Every-get k v [] h p = cc
  Every-get k v ((j, w) ∷ d) h p = elim (Bool-cases (j == k)) [
    | inl same ↦ subst P (some-injective w v (rw same at p)) h.0
    | inr other ↦ Every-get k v d h.1 (rw other at p)
  ]

pub keep_alive-Every :
    {A : Type 0} (P : A × Time → Type 0) (now : Time) (d : Dict Text (A × Time))
    → Every P d
    → Every P (keep_alive now d)
unfolding keep_alive
keep_alive-Every P now [] h = tt
keep_alive-Every P now ((hash, (kept, expires)) ∷ d) h = elim (Bool-cases (ltb now expires)) [
  | inl alive ↦ rw alive (h.0, keep_alive-Every P now d h.1)
  | inr lapsed ↦ rw lapsed (keep_alive-Every P now d h.1)
]

-- No key is there twice.
abbrev pub IsUnique : {K V : Type 0} ⦃e : Eq K⦄ → Dict K V → Type 0
IsUnique [] = Unit
IsUnique ((k, v) ∷ d) = (Dict.get k d ≡ none) × IsUnique d

module _ {K V : Type 0} ⦃e : Eq K⦄ where
  pub IsUnique-set : (k : K) (v : V) (d : Dict K V) → IsUnique d → IsUnique (Dict.set k v d)
  unfolding Dict.set Dict.get
  IsUnique-set k v [] h = (refl, tt)
  IsUnique-set k v ((j, w) ∷ d) h = elim (Bool-cases (j == k)) [
    | inl same ↦ rw same h
    | inr other ↦
        rw other (
          ground (arith, Dict.get-set k j v d, e.beq_iff k j, e.beq_iff j k),
          IsUnique-set k v d h.1,
        )
  ]

  pub IsUnique-remove : (k : K) (d : Dict K V) → IsUnique d → IsUnique (Dict.remove k d)
  unfolding Dict.remove
  IsUnique-remove k [] h = tt
  IsUnique-remove k ((j, w) ∷ d) h = elim (Bool-cases (j == k)) [
    | inl same ↦ rw same (IsUnique-remove k d h.1)
    | inr other ↦ rw other (ground (arith, Dict.get-remove k j d), IsUnique-remove k d h.1)
  ]

module _ {A : Type 0} (now : Time) where
  -- A key that is absent stays absent.
  keep_alive-absent :
      (hash : Text) (d : Dict Text (A × Time))
      → Dict.get hash d ≡ none
      → Dict.get hash (keep_alive now d) ≡ none
  unfolding keep_alive Dict.get
  keep_alive-absent hash [] h = refl
  keep_alive-absent hash ((j, (kept, expires)) ∷ d) h = ground (arith, keep_alive-absent hash d)

  pub keep_alive-IsUnique : (d : Dict Text (A × Time)) → IsUnique d → IsUnique (keep_alive now d)
  unfolding keep_alive
  keep_alive-IsUnique [] h = tt
  keep_alive-IsUnique ((hash, (kept, expires)) ∷ d) h = elim (Bool-cases (ltb now expires)) [
    | inl alive ↦ rw alive (keep_alive-absent hash d h.0, keep_alive-IsUnique d h.1)
    | inr lapsed ↦ rw lapsed (keep_alive-IsUnique d h.1)
  ]

  -- What is found later is as if the lapsed rows were there.
  pub unexpired-keep_alive :
      (hash : Text) (later : Time) (d : Dict Text (A × Time))
      → now ≤ later
      → IsUnique d
      → unexpired (Dict.get hash (keep_alive now d)) later ≡ unexpired (Dict.get hash d) later
  unfolding keep_alive Dict.get
  unexpired-keep_alive hash later [] le h = refl
  unexpired-keep_alive hash later ((j, (kept, expires)) ∷ d) le h =
      let induction = unexpired-keep_alive hash later d le h.1 in
      elim (Bool-cases (ltb now expires)) [
        | inl alive ↦ elim (Bool-cases (j == hash)) [
          | inl same ↦ rw (alive, same) refl
          | inr other ↦ rw (alive, other) induction
        ]
        | inr lapsed ↦ elim (Bool-cases (j == hash)) [
          | inr other ↦ rw (lapsed, other) induction
          | inl same ↦
              let gone : ltb later expires ≡ false = ground arith in
              let absent : Dict.get hash d ≡ none =
                subst (λ k. Dict.get k d ≡ none) ((==_iff j hash).0 same) h.0 in
              rw (lapsed, same, gone) (induction ∙ ap (λ o. unexpired o later) absent)
        ]
      ]

  pub count_alive-keep_alive :
      (later : Time) (d : Dict Text (A × Time))
      → now ≤ later
      → count_alive later (keep_alive now d) ≡ count_alive later d
  unfolding keep_alive count_alive
  count_alive-keep_alive later [] le = refl
  count_alive-keep_alive later ((j, (kept, expires)) ∷ d) le =
      ground (arith, count_alive-keep_alive later d le)

-- As time passes, fewer rows are alive; a row more makes one more at most.
pub count_alive-later :
    {A : Type 0} (now later : Time) (d : Dict Text (A × Time))
    → now ≤ later
    → count_alive later d ≤ count_alive now d
unfolding count_alive
count_alive-later now later [] le = ground arith
count_alive-later now later ((hash, (kept, expires)) ∷ d) le =
    ground (arith, count_alive-later now later d le)

pub count_alive-set :
    {A : Type 0} (now : Time) (hash : Text) (row : A × Time) (d : Dict Text (A × Time))
    → count_alive now (Dict.set hash row d) ≤ suc (count_alive now d)
unfolding count_alive Dict.set
count_alive-set now hash (a, t) [] = ground arith
count_alive-set now hash (a, t) ((j, (kept, expires)) ∷ d) =
    ground (arith, count_alive-set now hash (a, t) d)

pub count_alive-remove :
    {A : Type 0} (now : Time) (hash : Text) (d : Dict Text (A × Time))
    → count_alive now (Dict.remove hash d) ≤ count_alive now d
unfolding count_alive Dict.remove
count_alive-remove now hash [] = ground arith
count_alive-remove now hash ((j, (kept, expires)) ∷ d) =
    ground (arith, count_alive-remove now hash d)
