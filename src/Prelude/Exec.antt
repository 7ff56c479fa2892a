-- ===== src/Prelude/Exec.antt =====
-- Methods that change a state and may raise: what was written before a raise stays written.
use mathlib.Core.Path.{refl}
use qaestro.Prelude.Errors.{Result, ok, err, Ensures, Ensures-ok, Ensures-err}

abbrev pub Exec {ℓ} : Type ℓ → Type ℓ → Type ℓ → Type ℓ
Exec E S A = S → Result E A × S

module _ {ℓ} {E S A : Type ℓ} where
  abbrev pub pure : A → Exec E S A
  pure a s = (ok a, s)

  abbrev pub raise : E → Exec E S A
  raise e s = (err e, s)

  abbrev pub lift : Result E A → Exec E S A
  lift r s = (r, s)

module _ {ℓ} {E S A B : Type ℓ} where
  abbrev pub continue : Result E A → (A → Exec E S B) → Exec E S B
  continue (ok a) f s = f a s
  continue (err e) f s = (err e, s)

  infixl 10 ◌>>=◌ ◌>>◌
  abbrev pub ◌>>=◌ : Exec E S A → (A → Exec E S B) → Exec E S B
  ◌>>=◌ m f s = let (r, s') = m s in continue r f s'

  abbrev pub ◌>>◌ : Exec E S A → Exec E S B → Exec E S B
  m >> n = m >>= λ _. n

-- What `m` returns, if it returns, satisfies `P` from every state.
pub record Always {ℓ} {E S A : Type ℓ} (P : A → Type ℓ) (m : Exec E S A) : Type ℓ where
  pub at : (s : S) → Ensures P (m s).0

module _ {ℓ} {E S A B : Type ℓ} (P : B → Type ℓ) where
  continue-Ensures :
      (r : Result E A) (f : A → Exec E S B) (s : S)
      → ((a : A) → Always P (f a))
      → Ensures P (continue r f s).0
  continue-Ensures (ok a) f s rest = (rest a).at s
  continue-Ensures (err e) f s rest = Ensures-err P e

  pub Always-bind :
      (m : Exec E S A) (f : A → Exec E S B) → ((a : A) → Always P (f a)) → Always P (m >>= f)
  Always-bind m f rest = record { at = λ s. continue-Ensures (m s).0 f (m s).1 rest }

module _ {ℓ} {E S B : Type ℓ} (P : B → Type ℓ) where
  pub Always-pure : (b : B) → P b → Always {E = E} {S = S} P (pure b)
  Always-pure b p = record { at = λ s. Ensures-ok P b p }

  pub Always-any : (m : Exec E S B) → ((b : B) → P b) → Always P m
  Always-any m p = record { at = λ s. record { at = λ b h. p b } }

module _ {ℓ} {E S A B : Type ℓ} (P : A → Type ℓ) (Q : B → Type ℓ) where
  continue-then :
      (r : Result E A) (f : A → Exec E S B) (s : S)
      → Ensures P r
      → ((a : A) → P a → Always Q (f a))
      → Ensures Q (continue r f s).0
  continue-then (ok a) f s h rest = (rest a (h.at a refl)).at s
  continue-then (err e) f s h rest = Ensures-err Q e

  pub Always-then :
      (m : Exec E S A) (f : A → Exec E S B)
      → Always P m
      → ((a : A) → P a → Always Q (f a))
      → Always Q (m >>= f)
  Always-then m f h rest = record { at = λ s. continue-then (m s).0 f (m s).1 (h.at s) rest }
