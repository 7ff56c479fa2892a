-- ===== src/Config/Converts.antt =====
-- Which entries of the tables of src/shared/config.py read a text.
use qaestro.Prelude.{
  ℤ, true, String, contains, string_eq, ◌==◌, Option, none, some, List, [], ◌∷◌, Result, ok, err,
  ◌>>=◌, Exception, All, ◌≡◌, ◌↔◌, refl, Option-cases, Result-cases, inl, inr, bind_ok, Bool-cases,
  map,
}
use qaestro.Json.{Json}
use qaestro.Config.{
  AgentRuntimeProvider, Readings, providers, provider_value, provider_of, int_value, float_value,
  provider_from,
}
use qaestro.Config.Load.{Setting, put_if_set, load}

-- A variable that is set has a text that the entry reads.
abbrev pub Converts : {C : Type 0} → (String → Option String) → Setting C → Type 0
Converts {C} environ s =
    (raw : String) → environ s.key ≡ some raw → (put : C → C) × (s.put raw ≡ ok put)

module _ {C : Type 0} (environ : String → Option String) where
  put_one :
      (s : Setting C) (c : C)
      → Converts environ s
      → (c' : C) × (put_if_set (environ s.key) s c ≡ ok c')
  put_one s c h = elim (Option-cases (environ s.key)) [
    | inl unset ↦ (c, rw unset refl)
    | inr (raw, set) ↦ (let (put, read) = h raw set in (put c, rw (set, read) refl))
  ]

  put_if_set-Converts :
      (s : Setting C) (c c' : C) → put_if_set (environ s.key) s c ≡ ok c' → Converts environ s
  put_if_set-Converts s c c' h raw set = elim (Result-cases (s.put raw)) [
    | inl read ↦ read
    | inr (e, failed) ↦
        (let impossible : Path (Result Exception C) (err e) (ok c') = rw (set, failed) at h in cc)
  ]

  pub load_read :
      (ss : List (Setting C)) (c : C)
      → All (Converts environ) ss
      → (c' : C) × (load environ ss c ≡ ok c')
  unfolding load
  load_read [] c h = (c, refl)
  load_read (s ∷ ss) c h =
      let (c₁, one) = put_one s c h.0 in
      let (c₂, rest) = load_read ss c₁ h.1 in (c₂, rw (one, rest) refl)

  pub load-Converts :
      (ss : List (Setting C)) (c c' : C) → load environ ss c ≡ ok c' → All (Converts environ) ss
  unfolding load
  load-Converts [] c c' h = tt
  load-Converts (s ∷ ss) c c' h =
      let (c₁, one, rest) = bind_ok (put_if_set (environ s.key) s c) _ c' h in
      (put_if_set-Converts s c c₁ one, load-Converts ss c₁ c' rest)

-- The four providers, by the texts that name them.
abbrev pub known_providers : List String
known_providers = "disabled" ∷ "azure-openai" ∷ "github-copilot" ∷ "openai-compatible" ∷ []

readable :
    {A C : Type 0} (o : Option A) (e : Exception) (put : A → C → C)
    → ((f : C → C) × ((elim o as (λ x. Result Exception A) [ none ↦ err e | some a ↦ ok a ] >>= λ a.
            ok (put a))
          ≡ ok f))
      ↔ ((a : A) × (o ≡ some a))
readable none e put = ((λ (f, h). cc), (λ (a, h). cc))
readable (some a) e put = ((λ x. (a, refl)), (λ x. (put a, refl)))

provider_of_iff :
    (raw : String) (ps : List AgentRuntimeProvider)
    → ((p : AgentRuntimeProvider) × (provider_of ps raw ≡ some p))
      ↔ (contains (map provider_value ps) raw ≡ true)
unfolding provider_of
provider_of_iff raw [] = ((λ (p, h). cc), (λ h. cc))
provider_of_iff raw (p ∷ ps) = elim (Bool-cases (provider_value p == raw)) [
  | inl h ↦ rw h ((λ x. refl), (λ x. (p, refl)))
  | inr h ↦ rw h (provider_of_iff raw ps)
]

module _ (readings : Readings) {C : Type 0} (key raw : String) where
  pub int_value_ok :
      (put : ℤ → C → C)
      → ((f : C → C) × ((int_value readings key raw >>= λ n. ok (put n)) ≡ ok f))
        ↔ ((n : ℤ) × (readings.int_of_text raw ≡ some n))
  unfolding int_value
  int_value_ok put = readable (readings.int_of_text raw) _ put

  pub float_value_ok :
      (put : Json → C → C)
      → ((f : C → C) × ((float_value readings key raw >>= λ x. ok (put x)) ≡ ok f))
        ↔ ((x : Json) × (readings.float_of_text raw ≡ some x))
  unfolding float_value
  float_value_ok put = readable (readings.float_of_text raw) _ put

  pub provider_ok :
      (put : AgentRuntimeProvider → C → C)
      → ((f : C → C) × ((provider_from readings key raw >>= λ p. ok (put p)) ≡ ok f))
        ↔ (contains known_providers raw ≡ true)
  unfolding provider_from provider_value
  provider_ok put =
      let (there, back) = readable (provider_of providers raw) _ put in
      let (known, provided) = provider_of_iff raw providers in
      ((λ x. known (there x)), (λ x. back (provided x)))
