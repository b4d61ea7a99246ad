-- ===== src/Flow/Validation/Cycles/Ends.antt =====
-- The search for cycles ends: a path holds no node twice, and only nodes that have edges.
use neorc.Prelude.{
  ℕ, zero, suc, ◌+◌, ◌≤◌, String, string_eq, ◌==◌, ==_iff, ◌≡◌, ◌≢◌, refl, sym, ◌∙◌, ap, inl, inr,
  false, Bool-cases, Option-cases, none, some, List, All, In, [], ◌∷◌, ◌++◌, length, length-append,
  arith, if◌then◌else◌,
}
use neorc.Prelude.Dict
use neorc.Prelude.Dict.Keyed.{IsDistinct}
use neorc.Errors.{Result, ok}
use neorc.Flow.Walk.{contains}
use neorc.Flow.Validation.Cycles.{Edges, Search, following, visit_all, visit, cycles, sorted}

abbrev pub Returns : Result Search → Type 0
Returns r = (s : Search) × (r ≡ ok s)

abbrev IsWithin : List String → List String → Type 0
IsWithin path nodes = All (λ x. In x nodes) path

-- The nodes without one of them.
remove : String → List String → List String
remove x [] = []
remove x (y ∷ ys) = let rest = remove x ys in if y == x then ys else y ∷ rest

length-remove : (x : String) (ys : List String) → In x ys → length ys ≡ length (remove x ys) + 1
unfolding remove
length-remove x [] m = elim m [ ]
length-remove x (y ∷ ys) m = elim (Bool-cases (y == x)) [
  | inl same ↦ rw same (omega arith)
  | inr other ↦ elim m [
    | inl p ↦ absurd (ground (arith, other, (==_iff y x).1 p))
    | inr later ↦ rw other (omega (arith, length-remove x ys later))
  ]
]

In-remove : (x z : String) (ys : List String) → x ≢ z → In z ys → In z (remove x ys)
unfolding remove
In-remove x z [] ne m = elim m [ ]
In-remove x z (y ∷ ys) ne m = elim (Bool-cases (y == x)) [
  | inl same ↦ elim m [
    | inl p ↦ absurd (ne (sym ((==_iff y x).0 same) ∙ p))
    | inr later ↦ rw same later
  ]
  | inr other ↦ elim m [
    | inl p ↦ rw other (inl p)
    | inr later ↦ rw other (inr (In-remove x z ys ne later))
  ]
]

IsWithin-remove :
    (x : String) (path nodes : List String)
    → All (λ y. x ≢ y) path
    → IsWithin path nodes
    → IsWithin path (remove x nodes)
IsWithin-remove x [] nodes ne h = tt
IsWithin-remove x (y ∷ path) nodes ne h =
    (In-remove x y nodes ne.0 h.0, IsWithin-remove x path nodes ne.1 h.1)

-- Distinct nodes are no more than there are.
length-le :
    (path nodes : List String)
    → IsDistinct (λ x. x) path
    → IsWithin path nodes
    → length path ≤ length nodes
length-le [] nodes d h = omega arith
length-le (x ∷ path) nodes d h = omega (
  arith,
  length-remove x nodes h.0,
  length-le path (remove x nodes) d.1 (IsWithin-remove x path nodes d.0 h.1),
)

All-ne-append :
    (z x : String) (ys : List String)
    → z ≢ x
    → All (λ y. z ≢ y) ys
    → All (λ y. z ≢ y) (ys ++ x ∷ [])
All-ne-append z x [] ne h = (ne, tt)
All-ne-append z x (y ∷ ys) ne h = (h.0, All-ne-append z x ys ne h.1)

IsDistinct-append :
    (path : List String) (x : String)
    → contains path x ≡ false
    → IsDistinct (λ y. y) path
    → IsDistinct (λ y. y) (path ++ x ∷ [])
unfolding contains
IsDistinct-append [] x c d = (tt, tt)
IsDistinct-append (y ∷ path) x c d = elim (Bool-cases (y == x)) [
  | inl same ↦ absurd (ground arith)
  | inr other ↦ (
    All-ne-append y x path (λ p. ground (arith, other, (==_iff y x).1 p)) d.0,
    IsDistinct-append path x (rw other at c) d.1,
  )
]

IsWithin-append :
    (path nodes : List String) (x : String)
    → In x nodes
    → IsWithin path nodes
    → IsWithin (path ++ x ∷ []) nodes
IsWithin-append [] nodes x m h = (m, tt)
IsWithin-append (y ∷ path) nodes x m h = (h.0, IsWithin-append path nodes x m h.1)

In-keys :
    (node : String) (edges : Edges) (next : List String)
    → Dict.get node edges ≡ some next
    → In node (Dict.keys edges)
unfolding Dict.get
In-keys node [] next e = absurd (ground arith)
In-keys node ((k, v) ∷ edges) next e = elim (Bool-cases (k == node)) [
  | inl same ↦ inl ((==_iff k node).0 same)
  | inr other ↦ inr (In-keys node edges next (rw other at e))
]

following-leaf :
    (edges : Edges) (node : String) → Dict.get node edges ≡ none → following edges node ≡ []
unfolding following
following-leaf edges node e = rw (e, following)

module _ (edges : Edges) where
  visit_all-Returns :
      (visit : String → List String → Search → Result Search) (nodes path : List String)
      (s : Search)
      → ((node : String) (t : Search) → Returns (visit node path t))
      → Returns (visit_all edges visit nodes path s)
  unfolding visit_all
  visit_all-Returns visit [] path s h = (s, refl)
  visit_all-Returns visit (node ∷ nodes) path s h =
      let (t, e) = h node s in rw e (visit_all-Returns visit nodes path t h)

  visit-Returns :
      (fuel : ℕ) (node : String) (path : List String) (s : Search)
      → IsDistinct (λ x. x) path
      → IsWithin path (Dict.keys edges)
      → length (Dict.keys edges) + 2 ≤ length path + fuel
      → Returns (visit edges fuel node path s)
  unfolding visit
  visit-Returns zero node path s d h room =
      absurd (omega (arith, room, length-le path (Dict.keys edges) d h))
  visit-Returns (suc fuel) node path s d h room = elim (Bool-cases (contains path node)) [
    | inl here ↦ rw here (_, refl)
    | inr new ↦ elim (Bool-cases (contains s.finished node)) [
      | inl over ↦ rw (new, over) (s, refl)
      | inr unseen ↦ elim (Option-cases (Dict.get node edges)) [
        | inl leaf ↦ rw (new, unseen, following-leaf edges node leaf) (_, refl)
        | inr (next, found) ↦
            let (t, e) =
              visit_all-Returns (visit edges fuel) (following edges node) (path ++ node ∷ []) s
                (λ n u.
                  visit-Returns fuel n (path ++ node ∷ []) u (IsDistinct-append path node new d)
                    (IsWithin-append path (Dict.keys edges) node (In-keys node edges next found) h)
                    (omega (arith, room, length-append path (node ∷ [])))) in
            rw (new, unseen, e) (_, refl)
      ]
    ]
  ]

length-keys : (edges : Edges) → length (Dict.keys edges) ≡ length edges
length-keys [] = refl
length-keys ((k, v) ∷ edges) = ap suc (length-keys edges)

-- The depth-first search for cycles returns for every graph: its fuel never runs out.
pub cycles-ends : (edges : Edges) → (found : List (List String)) × (cycles edges ≡ ok found)
unfolding cycles
cycles-ends edges =
    let (s, e) =
      visit_all-Returns edges (visit edges (length edges + 2)) (sorted (Dict.keys edges)) []
        (record { found = []; finished = [] })
        (λ n t.
          visit-Returns edges (length edges + 2) n [] t tt tt (omega (arith, length-keys edges))) in
    (s.found, rw e)
