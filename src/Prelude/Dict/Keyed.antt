-- ===== src/Prelude/Dict/Keyed.antt =====
-- Dictionaries that hold each value under a key which the value itself names, each key once.
use mathlib.Core.Path.{◌≡◌, refl, sym, ◌∙◌}
use mathlib.Core.Logic.{◌≢◌, ◌⊎◌, inl, inr}
use mathlib.Core.Option.{none, some, some-injective}
use mathlib.Core.List.{List, [], ◌∷◌}
use native.Mathlib.Omega.{arith}
use neorc.Prelude.Tests.{Bool-cases}
use neorc.Prelude.Equality.{Eq, ◌==◌}
use neorc.Prelude.Lists.{All, In}
use neorc.Prelude.Dict.{Dict, values, get, set, remove, get-set, get-remove}

module _ {K V : Type 0} ⦃e : Eq K⦄ where
  -- A set key is found, and another key is looked up as before.
  pub get-set_self : (k : K) (v : V) (d : Dict K V) → get k (set k v d) ≡ some v
  get-set_self k v d = ground (arith, get-set k k v d, e.beq_iff k k)

  pub get-remove_self : (k : K) (d : Dict K V) → get k (remove k d) ≡ none
  get-remove_self k d = ground (arith, get-remove k k d, e.beq_iff k k)

  pub get-set_ne : {k j : K} (v : V) (d : Dict K V) → k ≢ j → get j (set k v d) ≡ get j d
  get-set_ne {k} {j} v d h = ground (arith, get-set k j v d, e.beq_iff k j)

  -- What is found after a set: the new value, or what was there under another key.
  pub get-set_cases :
      (k j : K) (v w : V) (d : Dict K V)
      → get j (set k v d) ≡ some w
      → ((k ≡ j) × (v ≡ w)) ⊎ ((k ≢ j) × (get j d ≡ some w))
  get-set_cases k j v w d h = elim (Bool-cases (k == j)) [
    | inl same ↦ inl ((e.beq_iff k j).0 same, ground (arith, get-set k j v d))
    | inr other ↦ inr ((λ p. ground (arith, e.beq_iff k j)), ground (arith, get-set k j v d))
  ]

  module _ (key : V → K) where
    abbrev pub IsKeyed : Dict K V → Type 0
    IsKeyed [] = Unit
    IsKeyed ((k, v) ∷ d) = (key v ≡ k) × (get k d ≡ none) × IsKeyed d

    -- The values have different keys.
    abbrev pub IsDistinct : List V → Type 0
    IsDistinct [] = Unit
    IsDistinct (v ∷ vs) = All (λ w. key v ≢ key w) vs × IsDistinct vs

    pub IsKeyed-set : (k : K) (v : V) (d : Dict K V) → IsKeyed d → key v ≡ k → IsKeyed (set k v d)
    unfolding set get
    IsKeyed-set k v [] h p = (p, refl, tt)
    IsKeyed-set k v ((j, w) ∷ d) h p = elim (Bool-cases (j == k)) [
      | inl same ↦ rw same (p ∙ sym ((e.beq_iff j k).0 same), h.1, h.2)
      | inr other ↦ rw other (
        h.0,
        ground (arith, get-set k j v d, e.beq_iff k j, e.beq_iff j k),
        IsKeyed-set k v d h.2 p,
      )
    ]

    pub key-get : (k : K) (v : V) (d : Dict K V) → IsKeyed d → get k d ≡ some v → key v ≡ k
    unfolding get
    key-get k v [] h p = cc
    key-get k v ((j, w) ∷ d) h p = ground (arith, key-get k v d h.2, e.beq_iff j k)

    -- Values found under the keys that they name in the dictionary with one more entry in front.
    All-get-cons :
        (k : K) (v : V) (d : Dict K V) (vs : List V)
        → get k d ≡ none
        → All (λ w. get (key w) d ≡ some w) vs
        → All (λ w. get (key w) ((k, v) ∷ d) ≡ some w) vs
    unfolding get
    All-get-cons k v d [] absent h = tt
    All-get-cons k v d (w ∷ ws) absent h = (
      elim (Bool-cases (k == key w)) [
        | inl same ↦ absurd (let p = (e.beq_iff k (key w)).0 same in cc)
        | inr other ↦ rw other h.0
      ],
      All-get-cons k v d ws absent h.1,
    )

    pub get-values : (d : Dict K V) → IsKeyed d → All (λ w. get (key w) d ≡ some w) (values d)
    unfolding get
    get-values [] h = tt
    get-values ((k, v) ∷ d) h =
        (ground (arith, e.beq_iff k (key v)), All-get-cons k v d (values d) h.1 (get-values d h.2))

    All-ne :
        (k : K) (d : Dict K V) (vs : List V)
        → get k d ≡ none
        → All (λ w. get (key w) d ≡ some w) vs
        → All (λ w. k ≢ key w) vs
    All-ne k d [] absent h = tt
    All-ne k d (w ∷ ws) absent h = ((λ p. cc), All-ne k d ws absent h.1)

    pub values-IsDistinct : (d : Dict K V) → IsKeyed d → IsDistinct (values d)
    values-IsDistinct [] h = tt
    values-IsDistinct ((k, v) ∷ d) h =
        (rw h.0 (All-ne k d (values d) h.1 (get-values d h.2)), values-IsDistinct d h.2)

  -- A value that is found is one of the values.
  pub In-values : (k : K) (v : V) (d : Dict K V) → get k d ≡ some v → In v (values d)
  unfolding get
  In-values k v [] h = cc
  In-values k v ((j, w) ∷ d) h = elim (Bool-cases (j == k)) [
    | inl same ↦ inl (some-injective w v (rw same at h))
    | inr other ↦ inr (In-values k v d (rw other at h))
  ]
