-- ===== src/Prelude/Errors.antt =====
-- Calls that may raise. `E` says what is raised.
use Prim.Native.String.{String}
use mathlib.Core.Path.{◌≡◌, refl, subst}
use mathlib.Core.Logic.{◌⊎◌, inl, inr}
use mathlib.Core.Option.{Option, none, some}
use mathlib.Core.Bool.{Bool, true, false}

pub data Result {ℓ} (E : Type ℓ) (A : Type ℓ) : Type ℓ where
  ok : A → Result E A
  err : E → Result E A

-- An exception, with the name of its class and its text.
pub record Exception : Type 0 where
  pub class_name : String
  pub message : String

infixl 5 ◌>>=◌ ◌>>◌
abbrev pub ◌>>=◌ {ℓ} : {E A B : Type ℓ} → Result E A → (A → Result E B) → Result E B
ok a >>= f = f a
err e >>= f = err e

abbrev pub ◌>>◌ {ℓ} : {E A B : Type ℓ} → Result E A → Result E B → Result E B
m >> k = m >>= λ _. k

-- `if not test: raise e`
abbrev pub guard {ℓ} : {E : Type ℓ} → Bool → E → Result E (Unit {ℓ})
guard true e = ok tt
guard false e = err e

-- The error, where there is one.
abbrev pub raised {ℓ} : {E A : Type ℓ} → Result E A → Option E
raised (ok a) = none
raised (err e) = some e

-- What `r` returns, if it returns, satisfies `P`.
pub record Ensures {ℓ} {E A : Type ℓ} (P : A → Type ℓ) (r : Result E A) : Type ℓ where
  pub at : (a : A) → r ≡ ok a → P a

pub ok_inj {ℓ} : {E A : Type ℓ} {a b : A} → Path (Result E A) (ok a) (ok b) → a ≡ b
ok_inj h = cc

module _ {ℓ} {E A B : Type ℓ} {P : B → Type ℓ} where
  pub Ensures-bind :
      (m : Result E A) (f : A → Result E B) → ((a : A) → Ensures P (f a)) → Ensures P (m >>= f)
  Ensures-bind (ok a) f rest = rest a
  Ensures-bind (err e) f rest = record { at = λ b h. cc }

module _ {ℓ} {E B : Type ℓ} (P : B → Type ℓ) where
  pub Ensures-ok : (b : B) → P b → Ensures {E = E} P (ok b)
  Ensures-ok b p = record { at = λ a h. subst P (ok_inj h) p }

module _ {ℓ} {E B : Type ℓ} (P : B → Type ℓ) where
  pub Ensures-err : (e : E) → Ensures P (err e)
  Ensures-err e = record { at = λ b h. cc }

module _ {ℓ} {E A B : Type ℓ} (P : A → Type ℓ) (Q : B → Type ℓ) where
  -- The rest may use what the first call ensures.
  pub Ensures-then :
      (m : Result E A) (f : A → Result E B)
      → Ensures P m
      → ((a : A) → P a → Ensures Q (f a))
      → Ensures Q (m >>= f)
  Ensures-then (ok a) f h rest = rest a (h.at a refl)
  Ensures-then (err e) f h rest = Ensures-err Q e

pub Result-cases {ℓ} :
    {E A : Type ℓ} (r : Result E A) → ((a : A) × (r ≡ ok a)) ⊎ ((e : E) × (r ≡ err e))
Result-cases (ok a) = inl (a, refl)
Result-cases (err e) = inr (e, refl)

pub bind_ok {ℓ} :
    {E A B : Type ℓ} (r : Result E A) (f : A → Result E B) (b : B)
    → (r >>= f) ≡ ok b
    → (a : A) × (r ≡ ok a) × (f a ≡ ok b)
bind_ok (ok a) f b h = (a, refl, h)
bind_ok (err e) f b h = cc
