-- ===== src/Prelude/Lists.antt =====
-- Lists measured by native numbers, and predicates on their elements.
use Prim.Native.Nat.{ℕ, zero, suc, ◌+◌, ◌≤◌}
use mathlib.Core.Path.{◌≡◌, refl, ap, sym, ◌∙◌}
use mathlib.Core.Logic.{◌⊎◌, inl, inr}
use mathlib.Core.Bool.{Bool, true, false, ◌||◌, false≢true}
use mathlib.Core.List.{List, [], ◌∷◌, ◌++◌, map}
use native.Mathlib.Omega.{arith}
use qaestro.Prelude.Tests.{if◌then◌else◌, Eq, ◌==◌, ==-sym, contains, ltb}

module _ {ℓ} {A : Type ℓ} where
  abbrev pub length : List A → ℕ
  length [] = 0
  length (x ∷ xs) = suc (length xs)

  pub length-append : (xs ys : List A) → length (xs ++ ys) ≡ length xs + length ys
  length-append [] ys = omega arith
  length-append (x ∷ xs) ys = omega (arith, length-append xs ys)

  -- `tuple(x for x in xs if test(x))`
  abbrev pub filter : (A → Bool) → List A → List A
  filter test [] = []
  filter test (x ∷ xs) = let rest = filter test xs in if test x then x ∷ rest else rest

  abbrev pub any : (A → Bool) → List A → Bool
  any test [] = false
  any test (x ∷ xs) = if test x then true else any test xs

  abbrev pub is_nonempty : List A → Bool
  is_nonempty [] = false
  is_nonempty (x ∷ xs) = true

  -- `xs[:-1]`
  abbrev pub init : List A → List A
  init [] = []
  init (x ∷ []) = []
  init (x ∷ (y ∷ ys)) = x ∷ init (y ∷ ys)

  -- `sum(1 for x in xs if test(x))`
  abbrev pub count : (A → Bool) → List A → ℕ
  count test [] = 0
  count test (x ∷ xs) = let rest = count test xs in if test x then suc rest else rest

  -- `xs[:n]`
  abbrev pub take : ℕ → List A → List A
  take zero xs = []
  take (suc n) [] = []
  take (suc n) (x ∷ xs) = x ∷ take n xs

  -- `xs[n:]`
  abbrev pub drop : ℕ → List A → List A
  drop zero xs = xs
  drop (suc n) [] = []
  drop (suc n) (x ∷ xs) = drop n xs

  pub take_at : (m n : ℕ) (xs : List A) → m ≡ n → take m xs ≡ take n xs
  take_at m n xs e = ap (λ k. take k xs) e

  take_nil : (n : ℕ) → [] ≡ take n []
  take_nil zero = refl
  take_nil (suc n) = refl

  pub take-drop : (n k : ℕ) (xs : List A) → take n xs ++ take k (drop n xs) ≡ take (n + k) xs
  take-drop zero k xs = take_at k (0 + k) xs (omega arith)
  take-drop (suc n) k [] = sym (take_nil k) ∙ take_nil (suc n + k)
  take-drop (suc n) k (x ∷ xs) =
      ap (λ ys. x ∷ ys) (take-drop n k xs)
      ∙ take_at (suc (n + k)) (suc n + k) (x ∷ xs) (omega arith)

  pub take_all : (n : ℕ) (xs : List A) → length xs ≤ n → take n xs ≡ xs
  take_all zero [] h = refl
  take_all zero (x ∷ xs) h = let impossible : ⊥ = omega (arith, h) in elim impossible [ ]
  take_all (suc n) [] h = refl
  take_all (suc n) (x ∷ xs) h = ap (λ ys. x ∷ ys) (take_all n xs (omega (arith, h)))

  -- A list shorter than what was taken is all there is to take.
  pub take_short :
      (n k : ℕ) (xs : List A) → ltb (length (take n xs)) n ≡ true → take n xs ≡ take (n + k) xs
  take_short zero k xs h = elim (false≢true h) [ ]
  take_short (suc n) k [] h = take_nil (suc n + k)
  take_short (suc n) k (x ∷ xs) h =
      ap (λ ys. x ∷ ys) (take_short n k xs (ground arith))
      ∙ take_at (suc (n + k)) (suc n + k) (x ∷ xs) (omega arith)

  -- What was taken in full is there to take.
  take_full : (n : ℕ) (xs : List A) → ltb (length (take n xs)) n ≡ false → n ≤ length xs
  take_full zero xs h = omega arith
  take_full (suc n) [] h = ground arith
  take_full (suc n) (x ∷ xs) h = let more = take_full n xs (ground arith) in omega (arith, more)

  pub drop_full :
      (k n : ℕ) (xs : List A)
      → k ≤ length xs
      → ltb (length (take n (drop k xs))) n ≡ false
      → k + n ≤ length xs
  drop_full zero n xs low h = let more = take_full n xs h in omega (arith, more)
  drop_full (suc k) n [] low h = omega arith
  drop_full (suc k) n (x ∷ xs) low h =
      let more = drop_full k n xs (omega arith) h in omega (arith, more)

  pub filter-append :
      (test : A → Bool) (xs ys : List A) → filter test (xs ++ ys) ≡ filter test xs ++ filter test ys
  filter-append test [] ys = refl
  filter-append test (x ∷ xs) ys = ground (arith, filter-append test xs ys)

module _ {ℓ κ} {A : Type ℓ} {B : Type κ} where
  pub filter-map :
      (test : B → Bool) (f : A → B) (xs : List A)
      → filter test (map f xs) ≡ map f (filter (λ x. test (f x)) xs)
  filter-map test f [] = refl
  filter-map test f (x ∷ xs) = ground (arith, filter-map test f xs)

module _ {ℓ κ} {A : Type ℓ} (P : A → Type κ) where
  abbrev pub All : List A → Type κ
  All [] = Unit
  All (x ∷ xs) = P x × All xs

  pub All-append : (xs ys : List A) → All xs → All ys → All (xs ++ ys)
  All-append [] ys h k = k
  All-append (x ∷ xs) ys h k = (h.0, All-append xs ys h.1 k)

module _ {ℓ} {A : Type ℓ} (P : A → Type 0) where
  -- An element that satisfies `P` stands in the list.
  abbrev pub AnyOf : List A → Type 0
  AnyOf [] = ⊥
  AnyOf (x ∷ xs) = P x ⊎ AnyOf xs

  pub AnyOf-left : (xs ys : List A) → AnyOf xs → AnyOf (xs ++ ys)
  AnyOf-left [] ys p = elim p [ ]
  AnyOf-left (x ∷ xs) ys (inl p) = inl p
  AnyOf-left (x ∷ xs) ys (inr p) = inr (AnyOf-left xs ys p)

  pub AnyOf-right : (xs ys : List A) → AnyOf ys → AnyOf (xs ++ ys)
  AnyOf-right [] ys p = p
  AnyOf-right (x ∷ xs) ys p = inr (AnyOf-right xs ys p)

module _ {ℓ κ ρ} {A : Type ℓ} {P : A → Type κ} {Q : A → Type ρ} where
  pub All-imp : ((a : A) → P a → Q a) → (xs : List A) → All P xs → All Q xs
  All-imp f [] h = tt
  All-imp f (x ∷ xs) h = (f x h.0, All-imp f xs h.1)

-- No element stands twice.
module _ {ℓ} {A : Type ℓ} ⦃e : Eq A⦄ where
  abbrev pub Distinct : List A → Type 0
  Distinct [] = Unit
  Distinct (x ∷ xs) = (contains xs x ≡ false) × Distinct xs

  pub contains-snoc :
      (xs : List A) (y x : A) → contains (xs ++ y ∷ []) x ≡ (contains xs x || (y == x))
  contains-snoc [] y x = ground arith
  contains-snoc (z ∷ xs) y x = ground (arith, contains-snoc xs y x)

  pub Distinct-snoc :
      (xs : List A) (y : A) → Distinct xs → contains xs y ≡ false → Distinct (xs ++ y ∷ [])
  Distinct-snoc [] y d h = (refl, tt)
  Distinct-snoc (x ∷ xs) y d h =
      (ground (arith, contains-snoc xs y x, ==-sym x y), Distinct-snoc xs y d.1 (ground arith))
