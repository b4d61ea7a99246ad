-- ===== src/Json.antt =====
-- neorc_core/_values.py: the values that travel, in their JSON form.
-- A text is the list of its code points, since Python's `str` may hold lone surrogates; a float is
-- the pattern of its 64 bits. Integers have any size.
use neorc.Prelude.{ℕ, Bool, List, [], ◌∷◌, ◌≡◌, refl, ap}

abbrev pub Text : Type 0
Text = List ℕ

-- `negsuc n` is -(n + 1).
pub data ℤ : Type 0 where
  pos : ℕ → ℤ
  negsuc : ℕ → ℤ

mutual
  pub data JsonValue : Type 0 where
    null : JsonValue
    bool : Bool → JsonValue
    int : ℤ → JsonValue
    float : ℕ → JsonValue
    str : Text → JsonValue
    arr : Items → JsonValue
    obj : Fields → JsonValue

  pub data Items : Type 0 where
    nil : Items
    cons : JsonValue → Items → Items

  pub data Fields : Type 0 where
    end : Fields
    field : Text → JsonValue → Fields → Fields

-- A JSON array as a list of its items, and back.
unfoldable pub list_of : Items → List JsonValue
list_of nil = []
list_of (cons v vs) = v ∷ list_of vs

unfoldable pub items_of : List JsonValue → Items
items_of [] = nil
items_of (v ∷ vs) = cons v (items_of vs)

pub list_of-items_of : (vs : List JsonValue) → list_of (items_of vs) ≡ vs
unfolding list_of items_of
list_of-items_of [] = refl
list_of-items_of (v ∷ vs) = ap (λ (l : List JsonValue). v ∷ l) (list_of-items_of vs)
