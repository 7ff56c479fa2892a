-- ===== src/Json.antt =====
-- JSON values as `json.loads` returns them (Python's standard library). The keys of an object are
-- distinct, as in the `dict` that the parser builds.
use qaestro.Prelude.{
  ℕ, ℤ, pos, ◌^◌, String, Bool, false, Option, none, some, List, [], ◌∷◌, eqb, if◌then◌else◌, ◌==◌,
  string_eq,
}

mutual
  pub data Json : Type 0 where
    null : Json
    bool : Bool → Json
    int : ℤ → Json
    -- A finite float is `m / 2 ^ k`.
    float : ℤ → ℕ → Json
    -- `NaN`, `Infinity` and `-Infinity`, which the parser accepts.
    not_finite : Json
    str : String → Json
    arr : Items → Json
    obj : Fields → Json

  pub data Items : Type 0 where
    nil : Items
    cons : Json → Items → Items

  pub data Fields : Type 0 where
    end : Fields
    field : String → Json → Fields → Fields

-- `data.get(key)`
unfoldable pub get : String → Fields → Option Json
get key end = none
get key (field k v fs) = if k == key then some v else get key fs

-- `data.get(key, default)`
abbrev pub get_default : String → Json → Fields → Json
get_default key d fs = elim (get key fs) [ none ↦ d | some v ↦ v ]

-- `value == 1`: Python finds `True` and `1.0` equal to 1.
unfoldable pub equals_one : Json → Bool
equals_one (bool b) = b
equals_one (int (pos n)) = eqb n 1
equals_one (float (pos m) k) = eqb m (2 ^ k)
equals_one _ = false

abbrev pub list_of : Items → List Json
list_of nil = []
list_of (cons x xs) = x ∷ list_of xs

abbrev pub items_of : List Json → Items
items_of [] = nil
items_of (x ∷ xs) = cons x (items_of xs)
