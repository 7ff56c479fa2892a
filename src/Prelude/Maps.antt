-- ===== src/Prelude/Maps.antt =====
-- Python's `dict` as an association list in insertion order: an assignment to a key that is there
-- keeps the key's place.
use mathlib.Core.Path.{◌≡◌, refl}
use Prim.Native.String.{String}
use qaestro.Prelude.Lists.{filter}
use mathlib.Core.Logic.{◌⊎◌, inl, inr}
use mathlib.Core.Bool.{Bool, true, false}
use mathlib.Core.Option.{Option, none, some}
use mathlib.Core.List.{List, [], ◌∷◌, map}
use native.Mathlib.Omega.{arith}
use qaestro.Prelude.Tests.{Eq, ◌==◌, if◌then◌else◌, Bool-cases, ==-refl, ==-sym, string_eq}

abbrev pub Dict {ℓ κ} : Type ℓ → Type κ → Type (ℓ ⊔ κ)
Dict K V = List (K × V)

abbrev pub map_if {ℓ} : {V : Type ℓ} → Bool → (V → V) → Option V → Option V
map_if true f none = none
map_if true f (some v) = some (f v)
map_if false f o = o

pub map_if-some {ℓ} :
    {V : Type ℓ} (b : Bool) (f : V → V) (o : Option V) {v : V}
    → map_if b f o ≡ some v
    → (u : V) × (o ≡ some u) × (((b ≡ true) × (v ≡ f u)) ⊎ ((b ≡ false) × (v ≡ u)))
map_if-some true f none h = cc
map_if-some false f none h = cc
map_if-some true f (some u) h = (u, refl, inl (refl, cc))
map_if-some false f (some u) h = (u, refl, inr (refl, cc))

module _ {ℓ κ} {K : Type ℓ} {V : Type κ} ⦃e : Eq K⦄ where
  unfoldable pub lookup : K → Dict K V → Option V
  lookup k [] = none
  lookup k ((j, v) ∷ d) = if j == k then some v else lookup k d

  unfoldable pub insert : K → V → Dict K V → Dict K V
  insert k v [] = (k, v) ∷ []
  insert k v ((j, w) ∷ d) = if j == k then (j, v) ∷ d else (j, w) ∷ insert k v d

  abbrev pub keys : Dict K V → List K
  keys d = map (λ p. p.0) d

  -- What an assignment does to every later read.
  pub lookup-insert :
      (k j : K) (v : V) (d : Dict K V)
      → lookup j (insert k v d) ≡ (if k == j then some v else lookup j d)
  unfolding lookup insert
  lookup-insert k j v [] = refl
  lookup-insert k j v ((i, w) ∷ d) =
      ground (arith, e.beq_iff k j, e.beq_iff i k, e.beq_iff i j, lookup-insert k j v d)

  pub lookup-insert_self : (k : K) (v : V) (d : Dict K V) → lookup k (insert k v d) ≡ some v
  lookup-insert_self k v d = rw (lookup-insert, ==-refl)

  -- The value at one key changed by `f`, where the key is there.
  unfoldable pub update_at : K → (V → V) → Dict K V → Dict K V
  update_at k f [] = []
  update_at k f ((j, v) ∷ d) = (j, if j == k then f v else v) ∷ update_at k f d

  pub lookup-update_at :
      (k j : K) (f : V → V) (d : Dict K V)
      → lookup j (update_at k f d) ≡ map_if (k == j) f (lookup j d)
  unfolding lookup update_at
  lookup-update_at k j f [] = elim (Bool-cases (k == j)) [ inl h ↦ rw h | inr h ↦ rw h ]
  lookup-update_at k j f ((i, w) ∷ d) =
      ground (arith, e.beq_iff k j, e.beq_iff i k, e.beq_iff i j, lookup-update_at k j f d)

-- No key stands twice.
module _ {V : Type 0} where
  abbrev pub NoRepeats : Dict String V → Type 0
  NoRepeats [] = Unit
  NoRepeats ((k, v) ∷ d) = (lookup k d ≡ none) × NoRepeats d

  pub insert-NoRepeats :
      (k : String) (v : V) (d : Dict String V) → NoRepeats d → NoRepeats (insert k v d)
  unfolding insert lookup
  insert-NoRepeats k v [] n = (refl, tt)
  insert-NoRepeats k v ((j, w) ∷ d) n = elim (Bool-cases (j == k)) [
    | inl same ↦ rw same n
    | inr other ↦
        rw other (rw lookup-insert (rw (==-sym k j) (rw other (n.0))), insert-NoRepeats k v d n.1)
  ]

  -- What stands under a key.
  abbrev pub entry : String → Option V → Dict String V
  entry k none = []
  entry k (some v) = (k, v) ∷ []

  filter-none : (k : String) (d : Dict String V) → lookup k d ≡ none → filter (λ p. p.0 == k) d ≡ []
  unfolding lookup
  filter-none k [] h = refl
  filter-none k ((j, w) ∷ d) h = ground (arith, filter-none k d)

  pub filter-entry :
      (k : String) (d : Dict String V)
      → NoRepeats d
      → filter (λ p. p.0 == k) d ≡ entry k (lookup k d)
  unfolding lookup
  filter-entry k [] n = refl
  filter-entry k ((j, w) ∷ d) n = elim (Bool-cases (j == k)) [
    | inl same ↦ ground (arith, string_eq.beq_iff j k, filter-none k d, n.0)
    | inr other ↦ rw other (filter-entry k d n.1)
  ]
