-- ===== src/Prelude/Sorting.antt =====
-- Python's `sorted` by a key that is a text: a stable sort.
use Prim.Native.String.{String}
use mathlib.Core.Path.{◌≡◌, refl}
use mathlib.Core.Logic.{inl, inr}
use mathlib.Core.Bool.{true, false}
use mathlib.Core.List.{List, [], ◌∷◌}
use native.Mathlib.Omega.{arith}
use qaestro.Prelude.Tests.{if◌then◌else◌, ◌==◌, string_eq, Bool-cases, contains}
use qaestro.Prelude.Lists.{filter}
use qaestro.Prelude.Words.{text_leb}

text_leb_refl : (s : String) → text_leb s s ≡ true
unfolding text_leb
text_leb_refl String.[] = refl
text_leb_refl (String.◌∷◌ c s) = ground (arith, text_leb_refl s)

text_leb_total : (s t : String) → text_leb s t ≡ false → text_leb t s ≡ true
unfolding text_leb
text_leb_total String.[] t h = cc
text_leb_total (String.◌∷◌ c s) String.[] h = refl
text_leb_total (String.◌∷◌ c s) (String.◌∷◌ d t) h = ground (arith, text_leb_total s t)

-- The elements without repetitions, each at its last place.
unfoldable pub distinct : List String → List String
distinct [] = []
distinct (x ∷ xs) = let rest = distinct xs in if contains xs x then rest else x ∷ rest

pub contains-distinct : (xs : List String) (y : String) → contains (distinct xs) y ≡ contains xs y
unfolding distinct
contains-distinct [] y = refl
contains-distinct (x ∷ xs) y = ground (arith, contains-distinct xs y, string_eq.beq_iff x y)

module _ {A : Type 0} (key : A → String) where
  unfoldable pub insert_sorted : A → List A → List A
  insert_sorted x [] = x ∷ []
  insert_sorted x (y ∷ ys) =
      let rest = insert_sorted x ys in if text_leb (key x) (key y) then x ∷ (y ∷ ys) else y ∷ rest

  unfoldable pub sorted_by : List A → List A
  unfolding insert_sorted
  sorted_by [] = []
  sorted_by (x ∷ xs) = insert_sorted x (sorted_by xs)

  abbrev pub IsSorted : List A → Type 0
  IsSorted [] = Unit
  IsSorted (x ∷ []) = Unit
  IsSorted (x ∷ (y ∷ ys)) = (text_leb (key x) (key y) ≡ true) × IsSorted (y ∷ ys)

  insert_sorted-IsSorted_below :
      (y x : A) (zs : List A)
      → text_leb (key y) (key x) ≡ true
      → IsSorted (y ∷ zs)
      → IsSorted (y ∷ insert_sorted x zs)
  unfolding insert_sorted
  insert_sorted-IsSorted_below y x [] k h = (k, tt)
  insert_sorted-IsSorted_below y x (z ∷ zs) k h = elim (Bool-cases (text_leb (key x) (key z))) [
    | inl l ↦ rw l (k, (l, h.1))
    | inr l ↦ rw l (h.0, insert_sorted-IsSorted_below z x zs (text_leb_total (key x) (key z) l) h.1)
  ]

  insert_sorted-IsSorted : (x : A) (ys : List A) → IsSorted ys → IsSorted (insert_sorted x ys)
  unfolding insert_sorted
  insert_sorted-IsSorted x [] h = tt
  insert_sorted-IsSorted x (y ∷ ys) h = elim (Bool-cases (text_leb (key x) (key y))) [
    | inl k ↦ rw k (k, h)
    | inr k ↦ rw k (insert_sorted-IsSorted_below y x ys (text_leb_total (key x) (key y) k) h)
  ]

  pub sorted_by-IsSorted : (xs : List A) → IsSorted (sorted_by xs)
  unfolding sorted_by
  sorted_by-IsSorted [] = tt
  sorted_by-IsSorted (x ∷ xs) = insert_sorted-IsSorted x (sorted_by xs) (sorted_by-IsSorted xs)

  -- The elements of one key, in their order.
  filter-insert_sorted :
      (k : String) (x : A) (ys : List A)
      → filter (λ z. key z == k) (insert_sorted x ys) ≡ filter (λ z. key z == k) (x ∷ ys)
  unfolding insert_sorted
  filter-insert_sorted k x [] = refl
  filter-insert_sorted k x (y ∷ ys) = ground (
    arith,
    filter-insert_sorted k x ys,
    string_eq.beq_iff (key x) k,
    string_eq.beq_iff (key y) k,
    text_leb_refl k,
  )

  pub filter-sorted_by :
      (k : String) (xs : List A)
      → filter (λ z. key z == k) (sorted_by xs) ≡ filter (λ z. key z == k) xs
  unfolding sorted_by
  filter-sorted_by k [] = refl
  filter-sorted_by k (x ∷ xs) =
      ground (arith, filter-insert_sorted k x (sorted_by xs), filter-sorted_by k xs)

contains-insert_sorted :
    (key : String → String) (x : String) (ys : List String) (z : String)
    → contains (insert_sorted key x ys) z ≡ contains (x ∷ ys) z
unfolding insert_sorted
contains-insert_sorted key x [] z = refl
contains-insert_sorted key x (y ∷ ys) z = ground (arith, contains-insert_sorted key x ys z)

pub contains-sorted_by :
    (key : String → String) (xs : List String) (z : String)
    → contains (sorted_by key xs) z ≡ contains xs z
unfolding sorted_by
contains-sorted_by key [] z = refl
contains-sorted_by key (x ∷ xs) z =
    ground (arith, contains-insert_sorted key x (sorted_by key xs) z, contains-sorted_by key xs z)
